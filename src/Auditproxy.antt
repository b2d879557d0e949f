-- ===== src/Auditproxy.antt =====
-- internal/auditproxy/proxy.go: the requests to the audit service. One HTTP exchange is a
-- parameter, with the answer's body as encoding/json decodes it.
use Prim.Native.Char.{Char, code}
use Prim.Native.String.{◌++◌ as str_append}
use go_signing_server_anywhe.Prelude.{
  ℕ, String, Bool, true, false, not, ◌&&◌, ◌||◌, Option, none, some, ltb, leb, if◌then◌else◌, ◌==◌,
  nat_eq, int_eq, string_eq,
}
use go_signing_server_anywhe.Text.{is_empty, trim_space}
use go_signing_server_anywhe.Text.Case.{to_lower, after_prefix}
use go_signing_server_anywhe.Hub.Types.Json.{Msg}

pub record AuditEnv : Type 0 where
  pub origin : String
  pub secret : String
  pub configured : Bool

-- strings.HasPrefix
unfoldable pub has_prefix : String → String → Bool
has_prefix s p = elim (after_prefix p s) [ none ↦ false | some rest ↦ true ]

-- strings.TrimSuffix(s, "/")
unfoldable pub trim_slash : String → String
trim_slash String.[] = String.[]
trim_slash (String.◌∷◌ c s) =
    let rest = trim_slash s in
    if is_empty s && (code c == b'/') then String.[] else String.◌∷◌ c rest

unfoldable pub normalize_origin : (Char → Char) → String → String
unfolding has_prefix trim_slash
normalize_origin lower_rune raw =
    let s = trim_space (trim_slash raw) in
    let low = to_lower lower_rune s in
    if is_empty s
    then ""
    else if has_prefix low "http://" || has_prefix low "https://"
    then s
    else str_append "http://" s

unfoldable pub from_config : (Char → Char) → String → String → AuditEnv
unfolding normalize_origin
from_config lower_rune dashboard_url service_secret =
    let raw = trim_space dashboard_url in
    let secret = trim_space service_secret in
    record {
      origin = normalize_origin lower_rune raw;
      secret = secret;
      configured = not (is_empty raw) && not (is_empty secret);
    }

-- An answer of a server, or the text of the network's error.
pub data Exchange : Type 0 where
  answered : ℕ → Msg → Exchange
  broken : String → Exchange

-- The four results of `FetchJSON`.
pub record Fetched : Type 0 where
  pub ok : Bool
  pub status : ℕ
  pub body : Option Msg
  pub err : Option String

unfoldable pub fetched : Exchange → Fetched
fetched (broken e) = record { ok = false; status = 0; body = none; err = some e }
fetched (answered n m) = record {
  ok = leb 200 n && ltb n 300;
  status = n;
  body = some m;
  err = none;
}

-- `exchange url secret method body` is one request.
unfoldable pub fetch_json :
    (String → String → String → Option Msg → Exchange)
    → AuditEnv
    → String
    → String
    → Option Msg
    → Fetched
unfolding fetched has_prefix
fetch_json exchange env path method body =
    let url : String =
      if has_prefix path "/"
      then str_append env.origin path
      else str_append env.origin (str_append "/" path) in
    if is_empty env.origin
    then fetched (broken "missing AUDIT_DASHBOARD_URL")
    else fetched (exchange url env.secret method body)
