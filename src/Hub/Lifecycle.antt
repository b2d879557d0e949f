-- ===== src/Hub/Lifecycle.antt =====
-- How connections come and go: serveWS, disconnect and the background loops of internal/hub/hub.go.
-- Each function is one critical section or one turn of a loop; the upgrade itself is outside.
pub mod Counting
pub mod Slots
pub mod Departure
use go_signing_server_anywhe.Prelude.{
  ℕ, zero, suc, ◌+◌, ◌-◌, ◌*◌, ◌/◌, ◌%◌, ◌^◌, ◌≤◌, ◌<◌, String, ◌≡◌, refl, sym, ap, ◌∙◌, ◌≢◌, ◌↔◌,
  ◌⊎◌, inl, inr, Bool, true, false, not, ◌&&◌, ◌||◌, Option, none, some, List, [], ◌∷◌, ◌++◌, map,
  arith, eq_iff, ltb, leb, nat_beq, if◌then◌else◌, ltb→lt, lt→ltb, leb→le, le→leb, nat_beq_iff,
  tests, Bool-cases, Option-cases, ℤ, pos, negsuc, pos_part, neg_part, sub_ℕ, ◌+ℤ◌, ◌-ℤ◌, ◌≤ℤ◌,
  ◌<ℤ◌, ltb_ℤ, leb_ℤ, int_beq, int_beq_iff, Eq, ◌==◌, ◌!=◌, nat_eq, int_eq, string_eq, string_beq,
  string_beq_iff, beq_refl, length, take, keep, count, length-append, length-keep-le,
  length-keep-count, keep-append, has, add, remove, IsSetList, has-add, has-remove, add-IsSetList,
  remove-IsSetList, remove_absent, length-remove, length-remove-le,
}
use go_signing_server_anywhe.Prelude.Map.{
  get, put, del, get-put, get-del, holds, get-holds, holds-put, holds-del, IsMap, put-IsMap,
  del-IsMap,
}
use go_signing_server_anywhe.Text.{is_empty, trim_space, before}
use go_signing_server_anywhe.RateLimit.{new}
use go_signing_server_anywhe.Db.Tables.{ClientRow}
use go_signing_server_anywhe.Db.Clients.{set_client_offline_by_socket, cleanup_stale_clients}
use go_signing_server_anywhe.Hub.Types.{
  Hub, Config, Conn, Conns, ConnKind, unknown, client, admin, kind_eq, send_conn, update_conn,
  close_ws,
}
use go_signing_server_anywhe.Hub.Links.{
  targets, unlink_viewer, agent_disconnected, admin_name, is_live_socket,
}
use go_signing_server_anywhe.Hub.World.{World, Env}
use go_signing_server_anywhe.Hub.Roster.{broadcast_clients}

-- The upgrade request. `remote_host` is RemoteAddr without its port.
pub record Request : Type 0 where
  pub query_token : String
  pub header_token : String
  pub origin : String
  pub host : String
  pub forwarded_proto : String
  pub forwarded_for : String
  pub remote_host : String

pub data Admission : Type 0 where
  unauthorized origin_denied tls_required at_capacity too_many : Admission
  reserved : String → Admission

unfoldable pub client_ip : Request → String
client_ip r =
    if is_empty r.forwarded_for then r.remote_host else trim_space (before b',' r.forwarded_for)

unfoldable pub is_local_host : String → Bool
is_local_host host =
    let h = before b':' host in (h == "localhost") || (h == "127.0.0.1") || (h == "::1")

unfoldable pub origin_allowed : Config → String → Bool
origin_allowed cfg origin = elim cfg.allowed_origins [
  | [] ↦ true
  | o ∷ os ↦ is_empty origin || has origin (o ∷ os)
]

unfoldable pub ws_token_ok : Config → Request → Bool
ws_token_ok cfg r =
    let expected = trim_space cfg.ws_connect_token in
    let provided = if is_empty r.query_token then r.header_token else r.query_token in
    if is_empty expected then true else trim_space provided == expected

-- h.ipCount[ip]
unfoldable pub slots_of : String → List (String × ℕ) → ℕ
slots_of ip counts = elim (get ip counts) [ none ↦ 0 | some n ↦ n ]

abbrev pub ip_slots : String → Hub → ℕ
ip_slots ip h = slots_of ip h.ip_count

-- serveWS up to the upgrade; `forwarded_proto` is in lower case already.
unfoldable pub reserve : Request → Hub → Hub × Admission
reserve r h =
    let ip = client_ip r in
    if not (ws_token_ok h.cfg r)
    then (h, unauthorized)
    else if not (origin_allowed h.cfg r.origin)
    then (h, origin_denied)
    else if h.cfg.enforce_tls
        && not (is_local_host r.host)
        && not ((r.forwarded_proto == "https") || (r.forwarded_proto == "wss"))
    then (h, tls_required)
    else if leb h.cfg.max_connections (length h.conns)
    then (h, at_capacity)
    else if leb h.cfg.max_per_ip (ip_slots ip h)
    then (h, too_many)
    else (record h { ip_count = put ip (suc (ip_slots ip h)) h.ip_count }, reserved ip)

-- The upgrade failed: the slot is given back.
unfoldable pub upgrade_failed : String → Hub → Hub
upgrade_failed ip h = record h { ip_count = put ip (ip_slots ip h - 1) h.ip_count }

unfoldable pub new_conn : Config → String → ℕ → Conn
new_conn cfg ip now = record {
  kind = unknown;
  client = none;
  admin = none;
  bucket = new cfg.rate_capacity cfg.rate_refill_per_sec now;
  ip = ip;
  ip_status_sent = false;
  workstation_ips = [];
  screen_sources = [];
  screen_sources_sig = "";
  app_version = "";
  device_info = [];
  signal_seq = pos 0;
  is_alive = true;
  outbox = [];
  closed = false;
}

-- The upgrade succeeded, and the connection is entered under its fresh socket id.
unfoldable pub register : String → String → ℕ → Hub → Hub
register sid ip now h = record h { conns = put sid (new_conn h.cfg ip now) h.conns }

-- The slot of an address is given back, and its key goes with its last slot.
unfoldable pub release_slot : String → List (String × ℕ) → List (String × ℕ)
release_slot ip counts =
    let n = slots_of ip counts in
    if is_empty ip then counts else if ltb 1 n then put ip (n - 1) counts else del ip counts

-- The first critical section of `disconnect`.
unfoldable pub leave : String → Conn → Hub → Hub
leave sid c h = record h { conns = del sid h.conns; ip_count = release_slot c.ip h.ip_count }

unfoldable pub unlink_admins : List String → String → Hub → Hub
unlink_admins [] client_sid h = h
unlink_admins (a ∷ as') client_sid h = unlink_admins as' client_sid (unlink_viewer a client_sid h)

unfoldable pub unlink_clients : List String → String → String → Hub → Hub
unlink_clients [] admin_sid name h = h
unlink_clients (c ∷ cs) admin_sid name h =
    unlink_clients cs admin_sid name
      (unlink_viewer admin_sid c (send_conn c (agent_disconnected admin_sid name) h))

-- What `disconnect` does for a client: the database, the SFU registry, the roster, the links.
unfoldable pub leave_client : Env → String → World → World
unfolding unlink_admins
leave_client env sid w =
    let (row, store) = set_client_offline_by_socket sid env.now w.store in
    let w' = elim row as (λ _. World) [
      | none ↦ record w { store = store }
      | some c ↦
          broadcast_clients env c.org_id
            (record { hub = record w.hub { sfu = del c.id w.hub.sfu }; store = store })
    ] in
    record w' { hub = unlink_admins (targets sid w'.hub.client_viewer_links) sid w'.hub }

unfoldable pub disconnect : Env → String → World → World
unfolding leave leave_client unlink_clients
disconnect env sid w = elim (get sid w.hub.conns) [
  | none ↦ w
  | some c ↦
      let left = record w { hub = leave sid c w.hub } in
      if kind_eq c.kind client
      then leave_client env sid left
      else if kind_eq c.kind admin
      then record left {
        hub =
            unlink_clients (targets sid left.hub.admin_viewer_links) sid (admin_name (some c))
              left.hub;
      }
      else left
]

-- One stale row in `heartbeatLoop`: its connection is closed and taken out of `h.conns`.
unfoldable pub evict : ClientRow → Hub → Hub
evict row h = elim row.socket_id [ none ↦ h | some sid ↦ record h { conns = del sid h.conns } ]

unfoldable pub evict_all : Env → List ClientRow → World → World
unfolding evict
evict_all env [] w = w
evict_all env (row ∷ rows) w =
    evict_all env rows (broadcast_clients env row.org_id (record w { hub = evict row w.hub }))

-- One turn of `heartbeatLoop`.
unfoldable pub heartbeat_turn : Env → ℕ → World → World
unfolding evict_all
heartbeat_turn env timeout w =
    let (stale, store) = cleanup_stale_clients timeout env.now w.store in
    evict_all env stale (record w { store = store })

-- One turn of `pingLoop`: who has not answered the last ping is closed, the others are asked.
unfoldable pub ping : Conn → Conn
ping c = if c.is_alive then record c { is_alive = false } else record c { closed = true }

unfoldable pub ping_all : Conns → Conns
unfolding ping
ping_all [] = []
ping_all ((sid, c) ∷ rest) = (sid, ping c) ∷ ping_all rest
