-- ===== src/Text/Bounds.antt =====
-- Lengths and parts of trimmed and cut strings.
use Prim.Native.Char.{code}
use go_signing_server_anywhe.Prelude.{
  ℕ, ◌-◌, ◌≤◌, String, ◌≡◌, refl, inl, inr, arith, leb, leb→le, le→leb, Bool-cases, nat_eq, int_eq,
  string_eq,
}
use go_signing_server_anywhe.Text.{is_empty, byte_len, take_bytes, width}

pub byte_len-take_bytes : (max : ℕ) (s : String) → byte_len (take_bytes max s) ≤ max
unfolding byte_len take_bytes
byte_len-take_bytes max String.[] = omega arith
byte_len-take_bytes max (String.◌∷◌ c s) = elim (Bool-cases (leb (width (code c)) max)) [
  | inl e ↦
      rw e
        (omega (arith, leb→le (width (code c)) max e, byte_len-take_bytes (max - width (code c)) s))
  | inr e ↦ rw e (omega arith)
]

width_le : (c : ℕ) → width c ≤ 4
unfolding width
width_le c = ground arith

-- A cut of four bytes or more leaves something of a string that is not empty.
pub is_empty-take_bytes :
    (max : ℕ) (s : String) → 4 ≤ max → is_empty (take_bytes max s) ≡ is_empty s
unfolding take_bytes is_empty
is_empty-take_bytes max String.[] h = refl
is_empty-take_bytes max (String.◌∷◌ c s) h =
    rw (le→leb (width (code c)) max (omega (arith, width_le (code c)))) refl
