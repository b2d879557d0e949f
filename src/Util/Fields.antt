-- ===== src/Util/Fields.antt =====
-- What the readers of message fields promise (internal/hub/util.go).
use go_signing_server_anywhe.Prelude.{
  ℕ, ◌-◌, ◌≤◌, String, ◌≡◌, inl, inr, List, [], ◌∷◌, arith, Bool-cases, nat_eq, int_eq, string_eq,
  length,
}
use go_signing_server_anywhe.Text.{is_empty, trim_space, byte_len}
use go_signing_server_anywhe.Text.Bounds.{byte_len-take_bytes, is_empty-take_bytes}
use go_signing_server_anywhe.Hub.Types.Json.{Value, str}
use go_signing_server_anywhe.Util.{clean_string, as_non_empty_string, parse_ips}

clean_string_bound : (t : String) (max : ℕ) → byte_len (clean_string t max) ≤ max
unfolding clean_string
clean_string_bound t max = elim (Bool-cases (is_empty (trim_space t))) [
  | inl e ↦ rw e (unfold byte_len in omega arith)
  | inr e ↦ rw e (ground (arith, byte_len-take_bytes max (trim_space t)))
]

clean_string_empty :
    (t : String) (max : ℕ) → 4 ≤ max → is_empty (clean_string t max) ≡ is_empty (trim_space t)
unfolding clean_string is_empty
clean_string_empty t max h = ground (arith, is_empty-take_bytes max (trim_space t) h)

-- A text field with a limit of at least four bytes is cut to its limit, and is read as empty
-- exactly when it holds white space only.
as_non_empty_string_text :
    (t : String) (max : ℕ)
    → 4 ≤ max
    → (byte_len (as_non_empty_string (str t) max) ≤ max)
      × (is_empty (as_non_empty_string (str t) max) ≡ is_empty (trim_space t))
unfolding as_non_empty_string
as_non_empty_string_text t max h = (clean_string_bound t max, clean_string_empty t max h)

parse_ips_bound : (room : ℕ) (xs : List Value) → 1 ≤ room → length (parse_ips room xs) ≤ room
unfolding parse_ips
parse_ips_bound room [] h = omega arith
parse_ips_bound room (x ∷ xs) h =
    ground (arith, parse_ips_bound room xs h, parse_ips_bound (room - 1) xs)
