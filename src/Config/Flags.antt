-- ===== src/Config/Flags.antt =====
-- Which origins the setting of the allowed origins lets in.
use go_signing_server_anywhe.Prelude.{
  String, ◌≡◌, refl, Bool, true, false, not, ◌&&◌, ◌||◌, List, [], ◌∷◌, arith, ◌==◌, nat_eq, int_eq,
  string_eq, has, add, has-add,
}
use go_signing_server_anywhe.Text.{is_empty, trim_space}
use go_signing_server_anywhe.Text.Case.{split_text}
use go_signing_server_anywhe.Config.{add_origins, parse_origins}
use go_signing_server_anywhe.Hub.Types.{Config}
use go_signing_server_anywhe.Hub.Lifecycle.{origin_allowed}

-- Some part, trimmed, is this origin and is not empty.
unfoldable pub names_origin : String → List String → Bool
names_origin origin [] = false
names_origin origin (p ∷ ps) =
    (not (is_empty (trim_space p)) && (trim_space p == origin)) || names_origin origin ps

add_origins-has :
    (origin : String) (ps m : List String)
    → has origin (add_origins ps m) ≡ (names_origin origin ps || has origin m)
unfolding add_origins names_origin
add_origins-has origin [] m = refl
add_origins-has origin (p ∷ ps) m = ground (
  arith,
  add_origins-has origin ps m,
  add_origins-has origin ps (add (trim_space p) m),
  has-add (trim_space p) origin m,
)

-- Some part, trimmed, is not empty.
unfoldable pub any_origin : List String → Bool
any_origin [] = false
any_origin (p ∷ ps) = not (is_empty (trim_space p)) || any_origin ps

unfoldable pub is_nil : List String → Bool
is_nil [] = true
is_nil (x ∷ xs) = false

is_nil-add : (a : String) (xs : List String) → is_nil (add a xs) ≡ false
unfolding is_nil add has
is_nil-add a [] = refl
is_nil-add a (x ∷ xs) = ground arith

is_nil-add_origins :
    (ps m : List String) → is_nil (add_origins ps m) ≡ (not (any_origin ps) && is_nil m)
unfolding add_origins any_origin
is_nil-add_origins [] m = refl
is_nil-add_origins (p ∷ ps) m = ground (
  arith,
  is_nil-add_origins ps m,
  is_nil-add_origins ps (add (trim_space p) m),
  is_nil-add (trim_space p) m,
)

origin_allowed_by :
    (cfg : Config) (origin : String) (l : List String)
    → cfg.allowed_origins ≡ l
    → origin_allowed cfg origin ≡ (is_nil l || is_empty origin || has origin l)
unfolding origin_allowed is_nil
origin_allowed_by cfg origin [] h = rw h refl
origin_allowed_by cfg origin (o ∷ os) h = rw h refl

simplify_or : (a b c : Bool) → ((not a && true) || b || (c || false)) ≡ (not a || b || c)
simplify_or a b c = ground arith

-- With the origins of a setting, a request is let in exactly if the setting names no origin, or
-- the request has none, or its origin is one of the parts between the commas, trimmed.
pub origin_allowed-parse_origins :
    (cfg : Config) (raw origin : String)
    → cfg.allowed_origins ≡ parse_origins raw
    → origin_allowed cfg origin ≡ (
        not (any_origin (split_text b',' raw))
        || is_empty origin
        || names_origin origin (split_text b',' raw))
unfolding parse_origins is_nil has
origin_allowed-parse_origins cfg raw origin h =
    rw
      (
        origin_allowed_by cfg origin (add_origins (split_text b',' raw) []) h,
        add_origins-has origin (split_text b',' raw) [],
        is_nil-add_origins (split_text b',' raw) [],
      )
      (simplify_or (any_origin (split_text b',' raw)) (is_empty origin)
        (names_origin origin (split_text b',' raw)))
