-- ===== src/Hub/Types.antt =====
-- The state of internal/hub/hub.go, and the outbound queue of a connection.
-- A connection is addressed by its socket id, the key under which `h.conns` holds it. A message to
-- a socket that is not in `h.conns` is dropped, as `sendConn` drops it after `closeSendLoop`.
pub mod Json
use go_signing_server_anywhe.Prelude.{
  ℕ, zero, suc, ◌+◌, ◌-◌, ◌*◌, ◌/◌, ◌%◌, ◌^◌, ◌≤◌, ◌<◌, String, ◌≡◌, refl, sym, ap, ◌∙◌, ◌≢◌, ◌↔◌,
  ◌⊎◌, inl, inr, Bool, true, false, not, ◌&&◌, ◌||◌, Option, none, some, List, [], ◌∷◌, ◌++◌, map,
  arith, eq_iff, ltb, leb, nat_beq, if◌then◌else◌, ltb→lt, lt→ltb, leb→le, nat_beq_iff, tests,
  Bool-cases, Option-cases, ℤ, pos, negsuc, pos_part, neg_part, sub_ℕ, ◌+ℤ◌, ◌-ℤ◌, ◌≤ℤ◌, ◌<ℤ◌,
  ltb_ℤ, leb_ℤ, int_beq, int_beq_iff, Eq, ◌==◌, ◌!=◌, nat_eq, int_eq, string_eq, string_beq,
  string_beq_iff, beq_refl, length, take, keep, count, length-append, length-keep-le,
  length-keep-count, keep-append, has, add, remove, IsSetList, has-add, has-remove, add-IsSetList,
  remove-IsSetList, remove_absent, length-remove, length-remove-le,
}
use go_signing_server_anywhe.Prelude.Map.{
  get, put, del, get-put, get-del, holds, get-holds, holds-put, holds-del, IsMap, put-IsMap,
  del-IsMap,
}
use go_signing_server_anywhe.RateLimit.{TokenBucket}
use Json.{Msg}

pub data ConnKind : Type 0 where
  unknown client admin legacy_agent : ConnKind

pub record ClientIdentity : Type 0 where
  pub id : ℤ
  pub org_id : ℤ
  pub full_name : String
  pub device_id : String

pub record AdminIdentity : Type 0 where
  pub admin_id : ℤ
  pub org_id : ℤ
  pub username : String
  pub full_name : String
  pub role : String
  pub token : String

pub record ScreenSource : Type 0 where
  pub id : String
  pub name : String
  pub index : Option ℤ

-- `outbox` is what was put on `sendCh`, oldest first; `closed` says that `ws.Close` was called.
pub record Conn : Type 0 where
  pub kind : ConnKind
  pub client : Option ClientIdentity
  pub admin : Option AdminIdentity
  pub bucket : TokenBucket
  pub ip : String
  pub ip_status_sent : Bool
  pub workstation_ips : List String
  pub screen_sources : List ScreenSource
  pub screen_sources_sig : String
  pub app_version : String
  pub device_info : Msg
  pub signal_seq : ℤ
  pub is_alive : Bool
  pub outbox : List Msg
  pub closed : Bool

pub record SfuPublisherState : Type 0 where
  pub session_id : String
  pub track_name : String
  pub provider_lane : ℤ

-- The settings of internal/config/config.go that the hub reads.
pub record Config : Type 0 where
  pub max_connections : ℕ
  pub max_per_ip : ℕ
  pub max_admin_viewer_targets : ℕ
  pub max_viewers_per_client : ℕ
  pub device_takeover_cooldown_ms : ℕ
  pub rate_capacity : ℕ
  pub rate_refill_per_sec : ℕ
  pub ws_connect_token : String
  pub allowed_origins : List String
  pub enforce_tls : Bool
  pub enable_cloudflare_sfu : Bool
  pub ingest_token_secret : String
  pub ingest_token_ttl_ms : ℤ
  pub allow_call_no_token : Bool
  pub enable_taskbar_telemetry : Bool

abbrev pub Conns : Type 0
Conns = List (String × Conn)

-- map[string]map[string]struct{}
abbrev pub LinkMap : Type 0
LinkMap = List (String × List String)

pub record Hub : Type 0 where
  pub cfg : Config
  pub conns : Conns
  pub ip_count : List (String × ℕ)
  pub last_device_takeover : List (String × ℕ)
  pub admin_viewer_links : LinkMap
  pub client_viewer_links : LinkMap
  pub sfu : List (ℤ × SfuPublisherState)

-- c.kind == KindClient, and so on
unfoldable pub kind_eq : ConnKind → ConnKind → Bool
kind_eq unknown unknown = true
kind_eq client client = true
kind_eq admin admin = true
kind_eq legacy_agent legacy_agent = true
kind_eq _ _ = false

abbrev pub post : Msg → Conn → Conn
post m c = record c { outbox = c.outbox ++ m ∷ [] }

-- Replaces the connection of a socket, where there is one.
unfoldable pub update_conn : String → (Conn → Conn) → Hub → Hub
update_conn sid f h = elim (get sid h.conns) [
  | none ↦ h
  | some c ↦ record h { conns = put sid (f c) h.conns }
]

-- h.sendConn(h.conns[sid], m)
unfoldable pub send_conn : String → Msg → Hub → Hub
send_conn sid m h = update_conn sid (post m) h

-- c.ws.Close()
unfoldable pub close_ws : String → Hub → Hub
close_ws sid h = update_conn sid (λ c. record c { closed = true }) h

unfoldable pub send_all : List String → Msg → Hub → Hub
send_all [] m h = h
send_all (sid ∷ sids) m h = send_all sids m (send_conn sid m h)
