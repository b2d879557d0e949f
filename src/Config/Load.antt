-- ===== src/Config/Load.antt =====
-- internal/config/config.go: the settings with their defaults, as `Load` reads them.
use Prim.Native.Char.{Char}
use go_signing_server_anywhe.Prelude.{
  suc, ◌%◌, ◌^◌, String, Bool, not, ◌||◌, List, [], ◌∷◌, ltb, if◌then◌else◌, ℤ, pos, negsuc, sub_ℕ,
  ◌==◌, nat_eq, int_eq, string_eq,
}
use go_signing_server_anywhe.Text.{trim_space}
use go_signing_server_anywhe.Config.{
  first_non_empty, parse_origins, truthy, falsy, getenv, getenv_int,
}

pub record Settings : Type 0 where
  pub host : String
  pub port : ℤ
  pub ws_connect_token : String
  pub ingest_token_secret : String
  pub ingest_token_ttl_ms : ℤ
  pub allow_call_no_token : Bool
  pub database_url : String
  pub pg_pool_max : ℤ
  pub pg_pool_min : ℤ
  pub pg_ssl : Bool
  pub enforce_tls : Bool
  pub allowed_origins : List String
  pub max_connections : ℤ
  pub max_per_ip : ℤ
  pub heartbeat_check_ms : ℤ
  pub client_heartbeat_timeout_ms : ℤ
  pub ws_ping_interval_ms : ℤ
  pub device_takeover_cooldown_ms : ℤ
  pub max_admin_viewer_targets : ℤ
  pub max_viewers_per_client : ℤ
  pub rate_capacity : ℤ
  pub rate_refill_per_sec : ℤ
  pub enable_taskbar_telemetry : Bool
  pub enable_taskbar_ingest_logs : Bool
  pub audit_dashboard_url : String
  pub audit_superadmin_service_secret : String
  pub seed_super_admin : Bool
  pub bootstrap_org : String
  pub bootstrap_username : String
  pub bootstrap_password : String
  pub bootstrap_full_name : String
  pub wipe_db_on_start : Bool
  pub production : Bool
  pub ice_servers_json : String
  pub ice_turn_source : String
  pub cloudflare_turn_key_id : String
  pub cloudflare_turn_key_api_token : String
  pub cloudflare_turn_key_id2 : String
  pub cloudflare_turn_key_api_token2 : String
  pub turn_stun_url : String
  pub turn_udp_url : String
  pub turn_tcp_url : String
  pub turn_tls_url : String
  pub turn_tls_tcp_url : String
  pub turn_username : String
  pub turn_credential : String
  pub turn_secret : String
  pub ice_phase_one_ms : ℤ
  pub stream_turn_viewer_threshold : ℤ
  pub stream_turn_admin_targets_threshold : ℤ
  pub stream_sfu_viewer_threshold : ℤ
  pub stream_sfu_admin_targets_threshold : ℤ
  pub enable_cloudflare_sfu : Bool
  pub cloudflare_realtime_app_id : String
  pub cloudflare_realtime_api_token : String
  pub cloudflare_realtime_app_id2 : String
  pub cloudflare_realtime_api_token2 : String
  pub media_provider_cooldown_ms : ℤ
  pub media_provider_probe_interval_ms : ℤ

-- int32(n)
unfoldable pub wrap_int32 : ℤ → ℤ
wrap_int32 (pos n) = let r = n % 2 ^ 32 in if ltb r (2 ^ 31) then pos r else sub_ℕ r (2 ^ 32)
wrap_int32 (negsuc n) =
    let r = n % 2 ^ 32 in if ltb r (2 ^ 31) then negsuc r else sub_ℕ (2 ^ 32) (suc r)

module _ (lower_rune : Char → Char) (environ : String → String) where
  unfoldable pub load : Settings
  unfolding wrap_int32
  load = record {
    host = getenv environ "HOST" "0.0.0.0";
    port = getenv_int environ "PORT" (pos 8085);
    ws_connect_token = trim_space (environ "WS_CONNECT_TOKEN");
    ingest_token_secret =
        first_non_empty ((environ "INGEST_TOKEN_SECRET") ∷ (environ "CALL_EVENTS_SECRET") ∷ []);
    ingest_token_ttl_ms = getenv_int environ "INGEST_TOKEN_TTL_MS" (pos 900000);
    allow_call_no_token = truthy lower_rune (environ "ALLOW_CALL_EVENTS_WITHOUT_TOKEN");
    database_url =
        first_non_empty ((environ "SUPABASE_DATABASE_URL") ∷ (environ "DATABASE_URL") ∷ []);
    pg_pool_max = wrap_int32 (getenv_int environ "PG_POOL_MAX" (pos 10));
    pg_pool_min = wrap_int32 (getenv_int environ "PG_POOL_MIN" (pos 0));
    pg_ssl =
        (truthy lower_rune (environ "SUPABASE_REQUIRE_SSL"))
        || ((environ "PGSSLMODE") == "require");
    enforce_tls = truthy lower_rune (environ "ENFORCE_TLS");
    allowed_origins = parse_origins (environ "ALLOWED_ORIGINS");
    max_connections = getenv_int environ "MAX_CONNECTIONS" (pos 4000);
    max_per_ip = getenv_int environ "MAX_PER_IP" (pos 2000);
    heartbeat_check_ms = getenv_int environ "HEARTBEAT_CHECK_INTERVAL_MS" (pos 8000);
    client_heartbeat_timeout_ms = getenv_int environ "CLIENT_HEARTBEAT_TIMEOUT_MS" (pos 90000);
    ws_ping_interval_ms = getenv_int environ "WS_PING_INTERVAL_MS" (pos 25000);
    device_takeover_cooldown_ms = getenv_int environ "DEVICE_TAKEOVER_COOLDOWN_MS" (pos 3000);
    max_admin_viewer_targets = getenv_int environ "MAX_ADMIN_VIEWER_TARGETS" (pos 32);
    max_viewers_per_client = getenv_int environ "MAX_VIEWERS_PER_CLIENT" (pos 8);
    rate_capacity = getenv_int environ "SIGNALING_RATE_CAPACITY" (pos 300);
    rate_refill_per_sec = getenv_int environ "SIGNALING_RATE_REFILL_PER_SEC" (pos 120);
    enable_taskbar_telemetry = not (falsy lower_rune (environ "ENABLE_TASKBAR_TELEMETRY"));
    enable_taskbar_ingest_logs = truthy lower_rune (environ "ENABLE_TASKBAR_INGEST_LOGS");
    audit_dashboard_url = trim_space (environ "AUDIT_DASHBOARD_URL");
    audit_superadmin_service_secret = trim_space (environ "AUDIT_SUPERADMIN_SERVICE_SECRET");
    seed_super_admin = truthy lower_rune (environ "SEED_SUPER_ADMIN");
    bootstrap_org = getenv environ "BOOTSTRAP_ADMIN_ORG" "default";
    bootstrap_username = getenv environ "BOOTSTRAP_ADMIN_USERNAME" "admin";
    bootstrap_password = getenv environ "BOOTSTRAP_ADMIN_PASSWORD" "";
    bootstrap_full_name = getenv environ "BOOTSTRAP_ADMIN_FULL_NAME" "Super Admin";
    wipe_db_on_start = truthy lower_rune (environ "SIGNALING_WIPE_DB");
    production =
        ((environ "NODE_ENV") == "production") || (truthy lower_rune (environ "GO_ENV_PRODUCTION"));
    ice_servers_json =
        first_non_empty ((environ "ICE_SERVERS_JSON") ∷ (environ "ANYWHERE_ICE_SERVERS_JSON") ∷ []);
    ice_turn_source = trim_space (environ "ICE_TURN_SOURCE");
    cloudflare_turn_key_id = trim_space (environ "CLOUDFLARE_TURN_KEY_ID");
    cloudflare_turn_key_api_token = trim_space (environ "CLOUDFLARE_TURN_KEY_API_TOKEN");
    cloudflare_turn_key_id2 = trim_space (environ "CLOUDFLARE_TURN_KEY_ID_2");
    cloudflare_turn_key_api_token2 = trim_space (environ "CLOUDFLARE_TURN_KEY_API_TOKEN_2");
    turn_stun_url = getenv environ "TURN_STUN_URL" "";
    turn_udp_url = getenv environ "TURN_UDP_URL" "";
    turn_tcp_url = getenv environ "TURN_TCP_URL" "";
    turn_tls_url = getenv environ "TURN_TLS_URL" "";
    turn_tls_tcp_url = getenv environ "TURN_TLSTCP_URL" "";
    turn_username = getenv environ "TURN_USERNAME" "";
    turn_credential = getenv environ "TURN_CREDENTIAL" "";
    turn_secret = getenv environ "TURN_SECRET" "";
    ice_phase_one_ms = getenv_int environ "ICE_PHASE_ONE_MS" (pos 5000);
    stream_turn_viewer_threshold = getenv_int environ "STREAM_TURN_VIEWER_THRESHOLD" (pos 2);
    stream_turn_admin_targets_threshold =
        getenv_int environ "STREAM_TURN_ADMIN_TARGETS_THRESHOLD" (pos 4);
    stream_sfu_viewer_threshold = getenv_int environ "STREAM_SFU_VIEWER_THRESHOLD" (pos 3);
    stream_sfu_admin_targets_threshold =
        getenv_int environ "STREAM_SFU_ADMIN_TARGETS_THRESHOLD" (pos 8);
    enable_cloudflare_sfu = truthy lower_rune (environ "ENABLE_CLOUDFLARE_SFU");
    cloudflare_realtime_app_id = trim_space (environ "CLOUDFLARE_REALTIME_APP_ID");
    cloudflare_realtime_api_token = trim_space (
        first_non_empty (
          (environ "CLOUDFLARE_REALTIME_API_TOKEN") ∷ (environ "CLOUDFLARE_CALLS_API_TOKEN") ∷ []));
    cloudflare_realtime_app_id2 = trim_space (environ "CLOUDFLARE_REALTIME_APP_ID_2");
    cloudflare_realtime_api_token2 = trim_space (
        first_non_empty (
          (environ "CLOUDFLARE_REALTIME_API_TOKEN_2")
          ∷ (environ "CLOUDFLARE_CALLS_API_TOKEN_2")
          ∷ []));
    media_provider_cooldown_ms = getenv_int environ "MEDIA_PROVIDER_COOLDOWN_MS" (pos 45000);
    media_provider_probe_interval_ms =
        getenv_int environ "MEDIA_PROVIDER_PROBE_INTERVAL_MS" (pos 90000);
  }
