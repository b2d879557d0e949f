-- ===== src/Examples/Data.antt =====
-- A hub with one client and one admin, its database, and the world around them.
use go_signing_server_anywhe.Prelude.{
  refl, inr, true, false, none, some, [], ◌∷◌, arith, pos, nat_eq, int_eq, string_eq, has,
}
use go_signing_server_anywhe.Prelude.Map.{get}
use go_signing_server_anywhe.RateLimit.{new}
use go_signing_server_anywhe.StreamWindow.{verdict}
use go_signing_server_anywhe.Db.Tables.{Store, ClientRow, TransferRow, GrantRow, AdminRow}
use go_signing_server_anywhe.Hub.Types.{Hub, Config, Conn, unknown, client, admin}
use go_signing_server_anywhe.Hub.Types.Json.{Msg, str, int}
use go_signing_server_anywhe.Hub.World.{World, Env}
use go_signing_server_anywhe.Hub.Links.{link_viewer, targets}
use go_signing_server_anywhe.Hub.Links.Edges.{linked}
use go_signing_server_anywhe.Hub.Connect.Limits.{WithinLimits, Room, link_viewer-WithinLimits}
use go_signing_server_anywhe.Hub.Links.{count_admin_targets, count_client_viewers}
use go_signing_server_anywhe.Ice.Pool.{IceConfig, CloudflareLane, ProviderPool, new_provider_pool}
use go_signing_server_anywhe.Ice.Plan.{Manager}
use go_signing_server_anywhe.Ice.Plan.Servers.{base_stun_servers}

abbrev pub an_env : Env
an_env = record {
  now = 5000;
  audit_scope = λ id. none;
  audit_allows = λ a c. none;
  window_now = λ p. verdict true;
  lower_rune = λ c. c;
  mac = λ secret m. secret;
  unmarshal = λ raw. none;
  scrypt_key = λ password salt n r p len. some password;
  salt = some (1 ∷ 2 ∷ []);
  session_bytes = 1 ∷ 2 ∷ 3 ∷ [];
  parse_ip4 = λ ip. none;
  sha256 = λ b. b;
  db_error = "down";
  by_name = λ orgs. orgs;
}

abbrev pub a_config : Config
a_config = record {
  max_connections = 100;
  max_per_ip = 3;
  max_admin_viewer_targets = 4;
  max_viewers_per_client = 2;
  device_takeover_cooldown_ms = 1000;
  rate_capacity = 10;
  rate_refill_per_sec = 5;
  ws_connect_token = "";
  allowed_origins = [];
  enforce_tls = false;
  enable_cloudflare_sfu = true;
  ingest_token_secret = "key";
  ingest_token_ttl_ms = pos 900000;
  allow_call_no_token = true;
  enable_taskbar_telemetry = true;
}

abbrev pub a_conn : Conn
a_conn = record {
  kind = unknown;
  client = none;
  admin = none;
  bucket = new 10 5 0;
  ip = "10.0.0.1";
  ip_status_sent = false;
  workstation_ips = [];
  screen_sources = [];
  screen_sources_sig = "";
  app_version = "";
  device_info = [];
  signal_seq = pos 0;
  is_alive = true;
  outbox = [];
  closed = false;
}

abbrev pub client_conn : Conn
client_conn = record a_conn {
  kind = client;
  client = some (record { id = pos 7; org_id = pos 1; full_name = "Bina"; device_id = "device-7" });
}

abbrev pub admin_conn : Conn
admin_conn = record a_conn {
  kind = admin;
  admin = some (record {
    admin_id = pos 3;
    org_id = pos 1;
    username = "lead";
    full_name = "Lead";
    role = "org_admin";
    token = "token-3";
  });
}

-- Nobody views anybody yet.
abbrev pub idle_hub : Hub
idle_hub = record {
  cfg = a_config;
  conns = ("s-client", client_conn) ∷ ("s-admin", admin_conn) ∷ [];
  ip_count = ("10.0.0.1", 2) ∷ [];
  last_device_takeover = [];
  admin_viewer_links = [];
  client_viewer_links = [];
  sfu = [];
}

abbrev pub viewing_hub : Hub
viewing_hub = link_viewer "s-admin" "s-client" idle_hub

-- The client has gone, and its edge is still there.
abbrev pub orphan_hub : Hub
orphan_hub = record viewing_hub { conns = ("s-admin", admin_conn) ∷ [] }

abbrev pub a_client : ClientRow
a_client = record {
  id = pos 7;
  org_id = pos 1;
  full_name = "Bina";
  status = "sharing";
  socket_id = some "s-client";
  pending_org_id = none;
  claimed_org_name = none;
  last_heartbeat = 4000;
  last_online_at = none;
  last_offline_at = none;
  disabled = pos 0;
  device_id = "device-7";
}

abbrev pub a_lead : AdminRow
a_lead = record {
  admin_id = pos 3;
  org_id = pos 1;
  username = "lead";
  full_name = "Lead";
  role = "org_admin";
  password_hash = "";
}

abbrev pub a_super : AdminRow
a_super = record {
  admin_id = pos 9;
  org_id = pos 1;
  username = "root";
  full_name = "Root";
  role = "super_admin";
  password_hash = "scrypt$16384$8$1$AQI=$aHVudGVyMjI=";
}

abbrev pub a_transfer : TransferRow
a_transfer = record {
  id = pos 11;
  client_id = pos 7;
  from_org_id = pos 1;
  to_org_id = pos 2;
  requested_by_admin_id = pos 3;
  approved_by_admin_id = none;
  status = "pending";
  created_at = 100;
  updated_at = 100;
}

abbrev pub a_grant : GrantRow
a_grant = record {
  id = pos 21;
  admin_id = pos 3;
  org_id = pos 1;
  requester_ip = "10.0.0.1";
  reason = "";
  duration_hours = pos 4;
  status = "pending";
  approved_by = none;
  expires_at = none;
}

abbrev pub a_store : Store
a_store = record {
  up = true;
  next_id = 100;
  clients = a_client ∷ [];
  transfers = a_transfer ∷ [];
  admins = a_lead ∷ a_super ∷ [];
  admin_sessions =
      record { admin_id = pos 3; token = "token-3"; expires_at = 9000 }
      ∷ record { admin_id = pos 9; token = "token-9"; expires_at = 9000 }
      ∷ [];
  sessions = [];
  remote_access = [];
  stream_relay = [];
  organizations = (pos 1, "one") ∷ (pos 2, "two") ∷ [];
  ui_features = [];
  stream_window = none;
  call_events = [];
  ice_path_reports = [];
}

abbrev pub idle_world : World
idle_world = record { hub = idle_hub; store = a_store }

abbrev pub viewing_world : World
viewing_world = record { hub = viewing_hub; store = a_store }

abbrev pub connect_msg : Msg
connect_msg =
    ("type", str "connect-to-client") ∷ ("token", str "token-3") ∷ ("clientId", int (pos 7)) ∷ []

abbrev pub a_lane : CloudflareLane
a_lane = record {
  lane = 1;
  turn_key_id = "key";
  turn_key_token = "t";
  realtime_app_id = "app";
  realtime_token = "secret";
}

abbrev pub an_ice_config : IceConfig
an_ice_config = record {
  first = a_lane;
  second = record a_lane { lane = 2 };
  media_provider_cooldown_ms = 20000;
  enable_cloudflare_sfu = true;
  ice_phase_one_ms = 4000;
  stream_sfu_viewer_threshold = 2;
  stream_sfu_admin_targets_threshold = 3;
  stream_turn_viewer_threshold = 2;
  stream_turn_admin_targets_threshold = 2;
}

abbrev pub a_pool : ProviderPool
a_pool = new_provider_pool an_ice_config

abbrev pub a_manager : Manager
a_manager = record {
  cfg = an_ice_config;
  pool = a_pool;
  full = base_stun_servers;
  stun_only = base_stun_servers;
}

pub idle_hub_within : WithinLimits idle_hub
unfolding targets linked get has
idle_hub_within = record {
  links = record { same = λ a c. refl; admins = record {} };
  for_admin = λ k. omega arith;
  by_client = λ k. omega arith;
}

pub viewing_hub_within : WithinLimits viewing_hub
viewing_hub_within = link_viewer-WithinLimits "s-admin" "s-client" idle_hub idle_hub_within (
    unfold Room count_admin_targets count_client_viewers targets get in
    inr (omega arith, omega arith))
