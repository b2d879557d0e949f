-- ===== src/Hub/World.antt =====
-- The hub with its database, and who a message comes from (internal/hub/handlers.go).
use go_signing_server_anywhe.Prelude.{
  ℕ, String, Bool, true, false, Option, none, some, List, [], ◌∷◌, if◌then◌else◌, ℤ, nat_eq, int_eq,
  string_eq,
}
use go_signing_server_anywhe.Text.{is_empty}
use go_signing_server_anywhe.Util.{as_token}
use go_signing_server_anywhe.Db.Tables.{Store, AdminRow}
use go_signing_server_anywhe.Db.Admins.{get_admin_by_session_token, revoke_admin_session}
use Prim.Native.Char.{Char}
use go_signing_server_anywhe.Text.Bytes.{Bytes}
use go_signing_server_anywhe.Auth.Ingest.{IngestPayload}
use go_signing_server_anywhe.Iputil.{Octets}
use go_signing_server_anywhe.StreamWindow.{Policy, Verdict}
use go_signing_server_anywhe.Hub.Types.{
  Hub, Conn, unknown, admin, AdminIdentity, kind_eq, send_conn, update_conn,
}
use go_signing_server_anywhe.Hub.Types.Json.{Msg, str, bool, field}

pub record World : Type 0 where
  pub hub : Hub
  pub store : Store

-- What is outside the repository, for the time of one call: the clock, the audit service's answers
-- to internal/auditproxy (`none` where it is not configured or does not answer), and the hour of
-- the team leads' window.
-- `lower_rune` is the case table of package unicode, `mac` HMAC-SHA256, `unmarshal` json.Unmarshal
-- of an ingest payload, `db_error` the text of an error of the database, `scrypt_key` scrypt.Key, `salt` and `session_bytes` what crypto/rand
-- draws, `parse_ip4` net.ParseIP with To4, and `by_name` the database's `ORDER BY name`.
-- `audit_scope` gives the ids of `signalClientIds` where `hasGroupScope` is true.
pub record Env : Type 0 where
  pub now : ℕ
  pub audit_scope : ℤ → Option (List ℤ)
  pub audit_allows : ℤ → ℤ → Option Bool
  pub window_now : Policy → Verdict
  pub lower_rune : Char → Char
  pub mac : Bytes → Bytes → Bytes
  pub unmarshal : Bytes → Option IngestPayload
  pub scrypt_key : Bytes → Bytes → ℤ → ℤ → ℤ → ℕ → Option Bytes
  pub salt : Option Bytes
  pub session_bytes : Bytes
  pub parse_ip4 : String → Option Octets
  pub sha256 : Bytes → Bytes
  pub db_error : String
  pub by_name : List (ℤ × String) → List (ℤ × String)

abbrev pub say : String → Msg → World → World
say sid m w = record w { hub = send_conn sid m w.hub }

abbrev pub error_reply : String → Msg
error_reply code = ("type", str "error") ∷ ("error", str code) ∷ []

abbrev pub refusal : String → String → Msg
refusal typ code = ("type", str typ) ∷ ("success", bool false) ∷ ("error", str code) ∷ []

abbrev pub success : String → Msg → Msg
success typ rest = ("type", str typ) ∷ ("success", bool true) ∷ rest

unfoldable pub identity_of : AdminRow → String → AdminIdentity
identity_of a token = record {
  admin_id = a.admin_id;
  org_id = a.org_id;
  username = a.username;
  full_name = a.full_name;
  role = a.role;
  token = token;
}

-- A connection that is no admin's yet becomes this admin's.
unfoldable pub become_admin : AdminRow → String → Conn → Conn
unfolding identity_of
become_admin a token c =
    if kind_eq c.kind admin
    then c
    else record c { kind = admin; admin = some (identity_of a token); client = none }

unfoldable pub require_admin : Env → String → Msg → World → Option AdminRow × World
unfolding become_admin
require_admin env sid msg w =
    let token = as_token (field msg "token") in
    let refused = say sid (error_reply "UNAUTHORIZED") w in
    if is_empty token
    then (none, refused)
    else (elim (get_admin_by_session_token token env.now w.store) [
      | none ↦ (none, refused)
      | some a ↦ (some a, record w { hub = update_conn sid (become_admin a token) w.hub })
    ])

-- handleAdminLogout
unfoldable pub log_out : Conn → Conn
log_out c = elim c.client [
  | none ↦ record c { admin = none; kind = unknown }
  | some _ ↦ record c { admin = none }
]

unfoldable pub handle_admin_logout : String → Msg → World → World
unfolding log_out
handle_admin_logout sid msg w =
    let t = as_token (field msg "token") in
    let store = if is_empty t then w.store else revoke_admin_session t w.store in
    say sid (success "admin-logout-response" [])
      (record w { hub = update_conn sid log_out w.hub; store = store })
