-- ===== src/Text/Bytes.antt =====
-- Go strings as their bytes: the UTF-8 form of a string, `strings.Split` and base64.
use Prim.Native.Char.{code}
pub mod Base64
pub mod Padded
use go_signing_server_anywhe.Prelude.{
  ℕ, zero, suc, ◌+◌, ◌-◌, ◌*◌, ◌/◌, ◌%◌, ◌^◌, ◌≤◌, ◌<◌, String, ◌≡◌, refl, sym, ap, ◌∙◌, ◌≢◌, ◌↔◌,
  ◌⊎◌, inl, inr, Bool, true, false, not, ◌&&◌, ◌||◌, Option, none, some, List, [], ◌∷◌, ◌++◌, map,
  arith, eq_iff, ltb, leb, nat_beq, if◌then◌else◌, ltb→lt, lt→ltb, leb→le, le→leb, nat_beq_iff,
  tests, Bool-cases, Option-cases, ℤ, pos, negsuc, pos_part, neg_part, sub_ℕ, ◌+ℤ◌, ◌-ℤ◌, ◌≤ℤ◌,
  ◌<ℤ◌, ltb_ℤ, leb_ℤ, int_beq, int_beq_iff, Eq, ◌==◌, ◌!=◌, nat_eq, int_eq, string_eq, string_beq,
  string_beq_iff, beq_refl, length, take, keep, count, length-append, length-keep-le,
  length-keep-count, keep-append, has, add, remove, IsSetList, has-add, has-remove, add-IsSetList,
  remove-IsSetList, remove_absent, length-remove, length-remove-le,
}

-- A byte string. Each element is below 256, which `AreBytes` says.
abbrev pub Bytes : Type 0
Bytes = List ℕ

abbrev pub AreBytes : Bytes → Type 0
AreBytes [] = Unit {0}
AreBytes (b ∷ bs) = (b < 256) × AreBytes bs

-- The UTF-8 form of a character.
unfoldable pub utf8 : ℕ → Bytes
utf8 c =
    if ltb c 0x80
    then c ∷ []
    else if ltb c 0x800
    then (0xC0 + c / 64) ∷ (0x80 + c % 64) ∷ []
    else if ltb c 0x10000
    then (0xE0 + c / 4096) ∷ (0x80 + c / 64 % 64) ∷ (0x80 + c % 64) ∷ []
    else (0xF0 + c / 262144 % 8)
      ∷ (0x80 + c / 4096 % 64)
      ∷ (0x80 + c / 64 % 64)
      ∷ (0x80 + c % 64)
      ∷ []

-- []byte(s)
unfoldable pub bytes : String → Bytes
unfolding utf8
bytes String.[] = []
bytes (String.◌∷◌ c s) = utf8 (code c) ++ bytes s

-- A byte in front of the first part.
unfoldable pub extend : ℕ → List Bytes → List Bytes
extend c [] = (c ∷ []) ∷ []
extend c (p ∷ ps) = (c ∷ p) ∷ ps

-- strings.Split(s, sep), for a separator of one byte
unfoldable pub split : ℕ → Bytes → List Bytes
unfolding extend
split sep [] = [] ∷ []
split sep (c ∷ cs) = let parts = split sep cs in if c == sep then [] ∷ parts else extend c parts

-- The symbol of a sextet in the alphabet whose last two symbols are `c62` and `c63`.
unfoldable pub symbol : ℕ → ℕ → ℕ → ℕ
symbol c62 c63 v =
    if ltb v 26
    then 65 + v
    else if ltb v 52
    then 71 + v
    else if ltb v 62
    then v - 4
    else if v == 62
    then c62
    else c63

unfoldable pub sextet : ℕ → ℕ → ℕ → Option ℕ
sextet c62 c63 c =
    if leb 65 c && leb c 90
    then some (c - 65)
    else if leb 97 c && leb c 122
    then some (c - 71)
    else if leb 48 c && leb c 57
    then some (c + 4)
    else if c == c62
    then some 62
    else if c == c63
    then some 63
    else none

-- base64.RawURLEncoding.EncodeToString
unfoldable pub url_encode : Bytes → Bytes
unfolding symbol
url_encode [] = []
url_encode (a ∷ []) = symbol b'-' b'_' (a / 4) ∷ symbol b'-' b'_' (a % 4 * 16) ∷ []
url_encode (a ∷ b ∷ []) =
    symbol b'-' b'_' (a / 4)
    ∷ symbol b'-' b'_' (a % 4 * 16 + b / 16)
    ∷ symbol b'-' b'_' (b % 16 * 4)
    ∷ []
url_encode (a ∷ b ∷ c ∷ rest) =
    symbol b'-' b'_' (a / 4)
    ∷ symbol b'-' b'_' (a % 4 * 16 + b / 16)
    ∷ symbol b'-' b'_' (b % 16 * 4 + c / 64)
    ∷ symbol b'-' b'_' (c % 64)
    ∷ url_encode rest

-- The bytes of two, three and four sextets in front of the decoded rest.
unfoldable pub join2 : Option ℕ → Option ℕ → Option Bytes
join2 (some x) (some y) = some ((x * 4 + y / 16) ∷ [])
join2 _ _ = none

unfoldable pub join3 : Option ℕ → Option ℕ → Option ℕ → Option Bytes
join3 (some x) (some y) (some z) = some ((x * 4 + y / 16) ∷ (y % 16 * 16 + z / 4) ∷ [])
join3 _ _ _ = none

unfoldable pub join4 : Option ℕ → Option ℕ → Option ℕ → Option ℕ → Option Bytes → Option Bytes
join4 (some x) (some y) (some z) (some w) (some rest) =
    some ((x * 4 + y / 16) ∷ (y % 16 * 16 + z / 4) ∷ (z % 4 * 64 + w) ∷ rest)
join4 _ _ _ _ _ = none

unfoldable pub url_sextet : ℕ → Option ℕ
unfolding sextet
url_sextet c = sextet b'-' b'_' c

unfoldable pub url_decode_groups : Bytes → Option Bytes
unfolding url_sextet join2 join3 join4
url_decode_groups [] = some []
url_decode_groups (x ∷ []) = none
url_decode_groups (x ∷ y ∷ []) = join2 (url_sextet x) (url_sextet y)
url_decode_groups (x ∷ y ∷ z ∷ []) = join3 (url_sextet x) (url_sextet y) (url_sextet z)
url_decode_groups (x ∷ y ∷ z ∷ w ∷ rest) =
    join4 (url_sextet x) (url_sextet y) (url_sextet z) (url_sextet w) (url_decode_groups rest)

-- The decoder skips line breaks.
unfoldable pub is_break : ℕ → Bool
is_break c = c == 10 || c == 13

-- base64.RawURLEncoding.DecodeString
unfoldable pub url_decode : Bytes → Option Bytes
unfolding url_decode_groups is_break
url_decode s = url_decode_groups (keep (λ c. not (is_break c)) s)

-- base64.StdEncoding.EncodeToString, which pads the last group with `=`.
unfoldable pub std_encode : Bytes → Bytes
unfolding symbol
std_encode [] = []
std_encode (a ∷ []) = symbol b'+' b'/' (a / 4) ∷ symbol b'+' b'/' (a % 4 * 16) ∷ b'=' ∷ b'=' ∷ []
std_encode (a ∷ b ∷ []) =
    symbol b'+' b'/' (a / 4)
    ∷ symbol b'+' b'/' (a % 4 * 16 + b / 16)
    ∷ symbol b'+' b'/' (b % 16 * 4)
    ∷ b'='
    ∷ []
std_encode (a ∷ b ∷ c ∷ rest) =
    symbol b'+' b'/' (a / 4)
    ∷ symbol b'+' b'/' (a % 4 * 16 + b / 16)
    ∷ symbol b'+' b'/' (b % 16 * 4 + c / 64)
    ∷ symbol b'+' b'/' (c % 64)
    ∷ std_encode rest

unfoldable pub std_sextet : ℕ → Option ℕ
unfolding sextet
std_sextet c = sextet b'+' b'/' c

-- A group with padding is the last one.
unfoldable pub at_end : Bytes → Option Bytes → Option Bytes
at_end [] o = o
at_end (c ∷ cs) o = none

unfoldable pub std_decode_groups : Bytes → Option Bytes
unfolding std_sextet at_end join2 join3 join4
std_decode_groups [] = some []
std_decode_groups (x ∷ y ∷ z ∷ w ∷ rest) =
    let decoded = std_decode_groups rest in
    if z == b'='
    then (if w == b'=' then at_end rest (join2 (std_sextet x) (std_sextet y)) else none)
    else if w == b'='
    then at_end rest (join3 (std_sextet x) (std_sextet y) (std_sextet z))
    else join4 (std_sextet x) (std_sextet y) (std_sextet z) (std_sextet w) decoded
std_decode_groups _ = none

-- base64.StdEncoding.DecodeString
unfoldable pub std_decode : Bytes → Option Bytes
unfolding std_decode_groups is_break
std_decode s = std_decode_groups (keep (λ c. not (is_break c)) s)

-- hmac.Equal and subtle.ConstantTimeCompare
unfoldable pub bytes_beq : Bytes → Bytes → Bool
bytes_beq [] [] = true
bytes_beq (a ∷ s) (b ∷ t) = (a == b) && bytes_beq s t
bytes_beq [] (b ∷ t) = false
bytes_beq (a ∷ s) [] = false
