-- ===== src/Text/Case.antt =====
-- Characters made from their codes, `strings.ToLower` and `strings.TrimPrefix`.
use Prim.Native.Char.{Char, char, code, IsScalar}
use go_signing_server_anywhe.Prelude.{
  ℕ, ◌+◌, ◌%◌, ◌<◌, String, Bool, true, false, ◌&&◌, Option, none, some, List, [], ◌∷◌, arith, ltb,
  leb, if◌then◌else◌, ◌==◌, nat_eq, int_eq, string_eq,
}
use go_signing_server_anywhe.Text.Bytes.{Bytes}

-- A code below 0xD800 is a character.
pub lt-IsScalar : (n : ℕ) → n < 55296 → IsScalar n
lt-IsScalar n h = ground arith

-- The ASCII character of a byte.
unfoldable pub ascii : ℕ → Char
ascii n = char (n % 128) (lt-IsScalar (n % 128) (omega arith))

-- string(b), for bytes that are ASCII
unfoldable pub text : Bytes → String
unfolding ascii
text [] = String.[]
text (b ∷ bs) = String.◌∷◌ (ascii b) (text bs)

-- strings.ToLower: the letters of ASCII, and the table of package unicode for the others.
module _ (lower_rune : Char → Char) where
  unfoldable pub lower : Char → Char
  unfolding ascii
  lower c =
      if leb 65 (code c) && leb (code c) 90
      then ascii (code c + 32)
      else if ltb (code c) 128
      then c
      else lower_rune c

  unfoldable pub to_lower : String → String
  unfolding lower
  to_lower String.[] = String.[]
  to_lower (String.◌∷◌ c s) = String.◌∷◌ (lower c) (to_lower s)

-- What is left of a string after a prefix.
unfoldable pub after_prefix : String → String → Option String
after_prefix String.[] s = some s
after_prefix (String.◌∷◌ p ps) String.[] = none
after_prefix (String.◌∷◌ p ps) (String.◌∷◌ c s) =
    let rest = after_prefix ps s in if code p == code c then rest else none

-- strings.TrimPrefix
unfoldable pub trim_prefix : String → String → String
unfolding after_prefix
trim_prefix s p = elim (after_prefix p s) [ none ↦ s | some rest ↦ rest ]

-- strings.Contains(s, sub)
unfoldable pub contains : String → String → Bool
unfolding after_prefix
contains String.[] sub = elim (after_prefix sub String.[]) [ none ↦ false | some r ↦ true ]
contains (String.◌∷◌ c s) sub =
    let later = contains s sub in
    elim (after_prefix sub (String.◌∷◌ c s)) [ none ↦ later | some r ↦ true ]

-- A character in front of the first part.
unfoldable pub extend_text : Char → List String → List String
extend_text c [] = String.◌∷◌ c String.[] ∷ []
extend_text c (p ∷ ps) = String.◌∷◌ c p ∷ ps

-- strings.Split(s, sep), for a separator of one character
unfoldable pub split_text : ℕ → String → List String
unfolding extend_text
split_text sep String.[] = String.[] ∷ []
split_text sep (String.◌∷◌ c s) =
    let parts = split_text sep s in if code c == sep then String.[] ∷ parts else extend_text c parts
