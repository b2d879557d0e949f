-- ===== src/Config.antt =====
-- internal/config/config.go: the settings, read from the environment.
pub mod Load
pub mod Flags
use Prim.Native.Char.{Char}
use go_signing_server_anywhe.Prelude.{
  ℕ, zero, suc, ◌+◌, ◌-◌, ◌*◌, ◌/◌, ◌%◌, ◌^◌, ◌≤◌, ◌<◌, String, ◌≡◌, refl, sym, ap, ◌∙◌, ◌≢◌, ◌↔◌,
  ◌⊎◌, inl, inr, Bool, true, false, not, ◌&&◌, ◌||◌, Option, none, some, List, [], ◌∷◌, ◌++◌, map,
  arith, eq_iff, ltb, leb, nat_beq, if◌then◌else◌, ltb→lt, lt→ltb, leb→le, le→leb, nat_beq_iff,
  tests, Bool-cases, Option-cases, ℤ, pos, negsuc, pos_part, neg_part, sub_ℕ, ◌+ℤ◌, ◌-ℤ◌, ◌≤ℤ◌,
  ◌<ℤ◌, ltb_ℤ, leb_ℤ, int_beq, int_beq_iff, Eq, ◌==◌, ◌!=◌, nat_eq, int_eq, string_eq, string_beq,
  string_beq_iff, beq_refl, length, take, keep, count, length-append, length-keep-le,
  length-keep-count, keep-append, has, add, remove, IsSetList, has-add, has-remove, add-IsSetList,
  remove-IsSetList, remove_absent, length-remove, length-remove-le,
}
use go_signing_server_anywhe.Text.{is_empty, trim_space, codes, parse_int}
use go_signing_server_anywhe.Text.Case.{to_lower, split_text}

-- The loop over the arguments of firstNonEmpty.
unfoldable pub first_non_empty : List String → String
first_non_empty [] = ""
first_non_empty (v ∷ vs) =
    let rest = first_non_empty vs in if is_empty (trim_space v) then rest else trim_space v

-- The loop of parseOrigins; the map is a set.
unfoldable pub add_origins : List String → List String → List String
add_origins [] m = m
add_origins (p ∷ ps) m =
    if is_empty (trim_space p) then add_origins ps m else add_origins ps (add (trim_space p) m)

unfoldable pub parse_origins : String → List String
unfolding add_origins
parse_origins raw = add_origins (split_text b',' raw) []

module _ (lower_rune : Char → Char) where
  unfoldable pub truthy : String → Bool
  truthy s =
      let t = to_lower lower_rune (trim_space s) in
      t == "1" || t == "true" || t == "on" || t == "yes"

  unfoldable pub falsy : String → Bool
  falsy s =
      let t = to_lower lower_rune (trim_space s) in
      t == "0" || t == "false" || t == "off" || t == "no"

-- `environ` is os.Getenv: a variable that is not set is empty.
module _ (environ : String → String) where
  unfoldable pub getenv : String → String → String
  getenv k def = let v = trim_space (environ k) in if is_empty v then def else v

  -- strconv.Atoi fails on what is no number of int64.
  unfoldable pub getenv_int : String → ℤ → ℤ
  getenv_int k def =
      let v = trim_space (environ k) in
      let n = parse_int (codes v) in if is_empty v then def else if n.1 then n.0 else def
