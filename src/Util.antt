-- ===== src/Util.antt =====
-- internal/hub/util.go: reading the fields of a message.
pub mod Fields
pub mod Decimal
use Prim.Native.Char.{Char}
use go_signing_server_anywhe.Prelude.{
  ℕ, zero, suc, ◌+◌, ◌-◌, ◌*◌, ◌/◌, ◌%◌, ◌^◌, ◌≤◌, ◌<◌, String, ◌≡◌, refl, sym, ap, ◌∙◌, ◌≢◌, ◌↔◌,
  ◌⊎◌, inl, inr, Bool, true, false, not, ◌&&◌, ◌||◌, Option, none, some, List, [], ◌∷◌, ◌++◌, map,
  arith, eq_iff, ltb, leb, nat_beq, if◌then◌else◌, ltb→lt, lt→ltb, leb→le, le→leb, nat_beq_iff,
  tests, Bool-cases, Option-cases, ℤ, pos, negsuc, pos_part, neg_part, sub_ℕ, ◌+ℤ◌, ◌-ℤ◌, ◌≤ℤ◌,
  ◌<ℤ◌, ltb_ℤ, leb_ℤ, int_beq, int_beq_iff, Eq, ◌==◌, ◌!=◌, nat_eq, int_eq, string_eq, string_beq,
  string_beq_iff, beq_refl, length, take, keep, count, length-append, length-keep-le,
  length-keep-count, keep-append, has, add, remove, IsSetList, has-add, has-remove, add-IsSetList,
  remove-IsSetList, remove_absent, length-remove, length-remove-le,
}
use go_signing_server_anywhe.Prelude.Map.{
  get, put, del, get-put, get-del, holds, get-holds, holds-put, holds-del, IsMap, put-IsMap,
  del-IsMap,
}
use go_signing_server_anywhe.Text.{
  is_empty, trim_space, byte_len, take_bytes, before, codes, parse_int, max_int64,
}
use go_signing_server_anywhe.Hub.Types.Json.{
  Value, null, bool, float, int, str, arr, obj, Float, Msg, field, items,
}

abbrev pub max_message_bytes : ℕ
max_message_bytes = 64 * 1024

unfoldable pub webrtc_relay_types : List String
webrtc_relay_types =
    "offer" ∷ "answer" ∷ "ice-candidate" ∷ "client-ready" ∷ "request-offer" ∷ "enable-client-media"
    ∷ "client-screen-sources" ∷ []

unfoldable pub high_volume_types : List String
high_volume_types =
    "sfu-api" ∷ "sfu-register-publisher" ∷ "media-provider-failed"
    ∷ "request-stream-transport-upgrade" ∷ "ice-path-report" ∷ "client-active-screen"
    ∷ "client-device-info" ∷ []

unfoldable pub message_skips_rate_limit : String → Bool
unfolding webrtc_relay_types high_volume_types
message_skips_rate_limit typ =
    if is_empty typ || typ == "heartbeat"
    then true
    else if has typ webrtc_relay_types
    then true
    else has typ high_volume_types

-- int64(t): the part before the point. A value outside int64 becomes its least value, as on amd64.
unfoldable pub int64_of : Float → ℤ
int64_of t =
    let n = t.mantissa * 2 ^ t.up / 2 ^ t.down in
    if t.negative
    then (if leb n (max_int64 + 1) then sub_ℕ 0 n else negsuc max_int64)
    else (if leb n max_int64 then pos n else negsuc max_int64)

-- The characters of a decimal digit and of a number, least digit last.
unfoldable pub digit : ℕ → Char
digit d =
    if d == 0
    then "0"
    else if d == 1
    then "1"
    else if d == 2
    then "2"
    else if d == 3
    then "3"
    else if d == 4
    then "4"
    else if d == 5
    then "5"
    else if d == 6
    then "6"
    else if d == 7
    then "7"
    else if d == 8
    then "8"
    else "9"

-- The fuel is the number itself, which is enough: each round divides by ten.
unfoldable pub decimal : ℕ → ℕ → String → String
unfolding digit
decimal zero n rest = rest
decimal (suc fuel) n rest =
    let more = decimal fuel (n / 10) (String.◌∷◌ (digit (n % 10)) rest) in
    if ltb n 10 then String.◌∷◌ (digit n) rest else more

-- fmt.Sprint of an int64
unfoldable pub sprint_int : ℤ → String
unfolding decimal
sprint_int (pos n) = decimal (suc n) n ""
sprint_int (negsuc n) = String.◌∷◌ "-" (decimal (suc (suc n)) (suc n) "")

-- itoa of internal/hub/transfer.go: -2^63 is its own negation, so no digit is written of it.
unfoldable pub itoa : ℤ → String
unfolding sprint_int
itoa z = if z == negsuc max_int64 then "-" else sprint_int z

-- The case of a string.
unfoldable pub clean_string : String → ℕ → String
clean_string t max =
    let s = trim_space t in
    if is_empty s then "" else if ltb max (byte_len s) then take_bytes max s else s

unfoldable pub as_non_empty_string : Value → ℕ → String
unfolding clean_string int64_of sprint_int
as_non_empty_string (str t) max = clean_string t max
as_non_empty_string (float t) max = clean_string (sprint_int (int64_of t)) max
as_non_empty_string _ max = ""

abbrev pub as_token : Value → String
as_token v = as_non_empty_string v 512

abbrev pub msg_type : Msg → String
msg_type msg = as_non_empty_string (field msg "type") 64

-- The number is used even where the flag says that it is none.
unfoldable pub to_int64 : Value → ℤ × Bool
unfolding int64_of
to_int64 (float t) = (int64_of t, true)
to_int64 (int n) = (n, true)
to_int64 (str t) = parse_int (codes (trim_space t))
to_int64 _ = (pos 0, false)

-- The brackets of an IPv6 address are trimmed, and a zone after `%` is cut.
unfoldable pub is_bracket : Char → Bool
is_bracket c = (Prim.Native.Char.code c == b'[') || (Prim.Native.Char.code c == b']')

unfoldable pub trim_brackets_left : String → String
trim_brackets_left String.[] = String.[]
trim_brackets_left (String.◌∷◌ c s) =
    let rest = trim_brackets_left s in if is_bracket c then rest else String.◌∷◌ c s

unfoldable pub trim_brackets_right : String → String
trim_brackets_right String.[] = String.[]
trim_brackets_right (String.◌∷◌ c s) =
    let rest = trim_brackets_right s in
    if is_empty rest && is_bracket c then String.[] else String.◌∷◌ c rest

unfoldable pub clean_ip : Value → String
unfolding is_bracket trim_brackets_left trim_brackets_right
clean_ip x = trim_brackets_right (trim_brackets_left (before b'%' (as_non_empty_string x 64)))

-- The loop of `parseWorkstationIPs`, `room` being what is left of the 32 places.
unfoldable pub parse_ips : ℕ → List Value → List String
unfolding clean_ip
parse_ips room [] = []
parse_ips room (x ∷ xs) =
    let next = parse_ips (room - 1) xs in
    let skip = parse_ips room xs in
    if is_empty (as_non_empty_string x 64)
    then skip
    else if ltb (byte_len (clean_ip x)) 3
    then skip
    else if leb room 1
    then clean_ip x ∷ []
    else clean_ip x ∷ next

unfoldable pub parse_workstation_ips : Value → List String
unfolding parse_ips
parse_workstation_ips (arr vs) = parse_ips 32 (items vs)
parse_workstation_ips _ = []
