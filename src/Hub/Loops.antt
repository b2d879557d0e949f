-- ===== src/Hub/Loops.antt =====
-- internal/hub/hub.go: the start of the hub, its welcome, the reading of messages, and the turns
-- of its timers.
use go_signing_server_anywhe.Prelude.{
  ℕ, String, true, not, ◌&&◌, Option, none, some, [], ◌∷◌, map, ltb, if◌then◌else◌, nat_eq, int_eq,
  string_eq,
}
use go_signing_server_anywhe.Prelude.Map.{get}
use go_signing_server_anywhe.Text.{is_empty}
use go_signing_server_anywhe.Util.{max_message_bytes}
use go_signing_server_anywhe.Config.Load.{Settings}
use go_signing_server_anywhe.Db.Tables.{Store}
use go_signing_server_anywhe.Db.Admins.{purge_expired_sessions}
use go_signing_server_anywhe.Db.Grants.{expire}
use go_signing_server_anywhe.Db.Organizations.{seed_default_super_admin}
use go_signing_server_anywhe.Db.SignIn.{reset_all_on_startup, soft_reconcile_on_startup}
use go_signing_server_anywhe.Ice.Plan.{Manager, welcome_plan}
use go_signing_server_anywhe.Hub.Types.{Hub, Config, Conn, send_conn, update_conn}
use go_signing_server_anywhe.Hub.Types.Json.{Msg, str, arr, obj}
use go_signing_server_anywhe.Hub.World.{World, Env, say, error_reply}
use go_signing_server_anywhe.Hub.Roster.{to_obj, to_arr}
use go_signing_server_anywhe.Hub.Links.{purge_orphan_viewer_links}
use go_signing_server_anywhe.Hub.Transport.{to_map, entry_value}
use go_signing_server_anywhe.Hub.Dispatch.{Server, Services, handle_message}

-- hub.New
unfoldable pub new_hub : Config → Hub
new_hub cfg = record {
  cfg = cfg;
  conns = [];
  ip_count = [];
  last_device_takeover = [];
  admin_viewer_links = [];
  client_viewer_links = [];
  sfu = [];
}

-- The part of Run before it listens; `none` is its error. A failed seed is only logged.
unfoldable pub start_up : Env → Settings → Store → Option Store
start_up env c s =
    let reset =
      if c.wipe_db_on_start then reset_all_on_startup s else soft_reconcile_on_startup s in
    if not s.up
    then none
    else if c.seed_super_admin && not (is_empty c.bootstrap_password)
    then some (
        seed_default_super_admin env.lower_rune env.scrypt_key env.salt c.bootstrap_org
          c.bootstrap_username c.bootstrap_full_name c.bootstrap_password reset)
    else some reset

-- sendWelcome
unfoldable pub send_welcome : Manager → String → Hub → Hub
send_welcome m sid h =
    let plan = welcome_plan m in
    send_conn sid
      (("type", str "welcome")
        ∷ ("socketId", str sid)
        ∷ ("iceServers", arr (to_arr (map entry_value plan.ice_servers_full)))
        ∷ ("streamTransport", obj (to_obj (to_map plan)))
        ∷ [])
      h

-- What readLoop reads: the number of its bytes, and the message where it is
-- one; `null` reads as the message without fields.
pub record Frame : Type 0 where
  pub size : ℕ
  pub parsed : Option Msg

abbrev pub alive : Conn → Conn
alive c = record c { is_alive = true }

unfoldable pub dispatch_frame :
    ℕ → Env → Services → String → Option Conn → Option Msg → Server → Option Server
dispatch_frame clock env x sid none m v = some v
dispatch_frame clock env x sid (some c) none v =
    some (record v { world = say sid (error_reply "INVALID_MESSAGE") v.world })
dispatch_frame clock env x sid (some c) (some msg) v = handle_message clock env x sid c msg v

-- One round of readLoop.
unfoldable pub read_frame : ℕ → Env → Services → String → Frame → Server → Option Server
unfolding dispatch_frame
read_frame clock env x sid f v =
    let w : World = record v.world { hub = update_conn sid alive v.world.hub } in
    let marked : Server = record v { world = w } in
    if ltb max_message_bytes f.size
    then some (record v { world = say sid (error_reply "MESSAGE_TOO_LARGE") w })
    else dispatch_frame clock env x sid (get sid w.hub.conns) f.parsed marked

-- The turns of sessionCleanupLoop, relayExpiryLoop and viewerLinksCleanupLoop.
unfoldable pub session_cleanup_turn : ℕ → Store → Store
session_cleanup_turn now s = purge_expired_sessions now s

unfoldable pub relay_expiry_turn : ℕ → Store → Store
relay_expiry_turn now s =
    if s.up
    then record s {
      remote_access = expire now s.remote_access;
      stream_relay = expire now s.stream_relay;
    }
    else s

unfoldable pub viewer_links_cleanup_turn : Hub → Hub
viewer_links_cleanup_turn h = (purge_orphan_viewer_links h).0
