-- ===== src/Text.antt =====
-- What the server uses of Go's package `strings` and of string slicing.
-- A string is its list of characters, and its length is the length of its UTF-8 form.
pub mod Bounds
pub mod Bytes
pub mod Case
use Prim.Native.Char.{Char, code}
use go_signing_server_anywhe.Prelude.{
  ℕ, zero, suc, ◌+◌, ◌-◌, ◌*◌, ◌/◌, ◌%◌, ◌^◌, ◌≤◌, ◌<◌, String, ◌≡◌, refl, sym, ap, ◌∙◌, ◌≢◌, ◌↔◌,
  ◌⊎◌, inl, inr, Bool, true, false, not, ◌&&◌, ◌||◌, Option, none, some, List, [], ◌∷◌, ◌++◌, map,
  arith, eq_iff, ltb, leb, nat_beq, if◌then◌else◌, ltb→lt, lt→ltb, leb→le, nat_beq_iff, tests,
  Bool-cases, Option-cases, ℤ, pos, negsuc, pos_part, neg_part, sub_ℕ, ◌+ℤ◌, ◌-ℤ◌, ◌≤ℤ◌, ◌<ℤ◌,
  ltb_ℤ, leb_ℤ, int_beq, int_beq_iff, Eq, ◌==◌, ◌!=◌, nat_eq, int_eq, string_eq, string_beq,
  string_beq_iff, beq_refl, length, take, keep, count, length-append, length-keep-le,
  length-keep-count, keep-append, has, add, remove, IsSetList, has-add, has-remove, add-IsSetList,
  remove-IsSetList, remove_absent, length-remove, length-remove-le,
}

-- unicode.IsSpace
unfoldable pub is_space : ℕ → Bool
is_space c =
    (leb 9 c && leb c 13)
    || c == 32
    || c == 0x85
    || c == 0xA0
    || c == 0x1680
    || (leb 0x2000 c && leb c 0x200a)
    || c == 0x2028
    || c == 0x2029
    || c == 0x202f
    || c == 0x205f
    || c == 0x3000

unfoldable pub is_empty : String → Bool
is_empty String.[] = true
is_empty (String.◌∷◌ c s) = false

unfoldable pub trim_left : String → String
unfolding is_space
trim_left String.[] = String.[]
trim_left (String.◌∷◌ c s) =
    let rest = trim_left s in if is_space (code c) then rest else String.◌∷◌ c s

unfoldable pub trim_right : String → String
unfolding is_space is_empty
trim_right String.[] = String.[]
trim_right (String.◌∷◌ c s) =
    let rest = trim_right s in
    if is_empty rest && is_space (code c) then String.[] else String.◌∷◌ c rest

-- strings.TrimSpace
unfoldable pub trim_space : String → String
unfolding trim_left trim_right
trim_space s = trim_right (trim_left s)

-- The bytes of a character in UTF-8.
unfoldable pub width : ℕ → ℕ
width c = if ltb c 0x80 then 1 else if ltb c 0x800 then 2 else if ltb c 0x10000 then 3 else 4

-- len(s)
unfoldable pub byte_len : String → ℕ
byte_len String.[] = 0
byte_len (String.◌∷◌ c s) = width (code c) + byte_len s

-- `s[:max]`. Where the cut splits a character Go keeps its first bytes, which are not a
-- character; here they are dropped.
unfoldable pub take_bytes : ℕ → String → String
take_bytes max String.[] = String.[]
take_bytes max (String.◌∷◌ c s) =
    let rest = take_bytes (max - width (code c)) s in
    if leb (width (code c)) max then String.◌∷◌ c rest else String.[]

-- strings.Split(s, sep)[0], for a separator of one character
unfoldable pub before : ℕ → String → String
before sep String.[] = String.[]
before sep (String.◌∷◌ c s) =
    let rest = before sep s in if code c == sep then String.[] else String.◌∷◌ c rest

-- The character codes of a string.
unfoldable pub codes : String → List ℕ
codes String.[] = []
codes (String.◌∷◌ c s) = code c ∷ codes s

-- The digits of strconv.ParseInt in base 10: every character is one, and there is one at least.
unfoldable pub digits_value : ℕ → List ℕ → Option ℕ
digits_value n [] = some n
digits_value n (c ∷ cs) =
    let rest = digits_value (n * 10 + (c - b'0')) cs in
    if leb b'0' c && leb c b'9' then rest else none

unfoldable pub unsigned : List ℕ → Option ℕ
unsigned [] = none
unsigned (c ∷ cs) = digits_value 0 (c ∷ cs)

abbrev pub max_int64 : ℕ
max_int64 = 9223372036854775807

-- The value of an optional magnitude under a sign, clamped into int64 as ParseInt clamps it; the
-- flag says that there was no error.
unfoldable pub signed : Bool → Option ℕ → ℤ × Bool
signed minus none = (pos 0, false)
signed false (some n) = if leb n max_int64 then (pos n, true) else (pos max_int64, false)
signed true (some n) =
    if leb n (max_int64 + 1) then (sub_ℕ 0 n, true) else (negsuc max_int64, false)

-- strconv.ParseInt(s, 10, 64)
unfoldable pub parse_int : List ℕ → ℤ × Bool
unfolding signed unsigned digits_value
parse_int [] = (pos 0, false)
parse_int (c ∷ cs) =
    if c == b'-'
    then signed true (unsigned cs)
    else if c == b'+'
    then signed false (unsigned cs)
    else signed false (unsigned (c ∷ cs))

-- strings.Join(strings.Fields(t), " ") of a text without white space at its ends; the flag says
-- that a space was just written.
unfoldable pub squeeze : Bool → String → String
unfolding is_space
squeeze b String.[] = String.[]
squeeze b (String.◌∷◌ c s) =
    let after_space = squeeze true s in
    let after_letter = squeeze false s in
    if is_space (code c)
    then (if b then after_space else String.◌∷◌ " " after_space)
    else String.◌∷◌ c after_letter
