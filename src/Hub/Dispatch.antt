-- ===== src/Hub/Dispatch.antt =====
-- internal/hub/handlers.go, hub.go: one message of a connection, from its type to its handler.
pub mod Refused
pub mod Keeping
pub mod Guarded
use go_signing_server_anywhe.Prelude.{
  ℕ, zero, suc, ◌+◌, ◌-◌, ◌*◌, ◌/◌, ◌%◌, ◌^◌, ◌≤◌, ◌<◌, String, ◌≡◌, refl, sym, ap, ◌∙◌, ◌≢◌, ◌↔◌,
  ◌⊎◌, inl, inr, Bool, true, false, not, ◌&&◌, ◌||◌, Option, none, some, List, [], ◌∷◌, ◌++◌, map,
  arith, eq_iff, ltb, leb, nat_beq, if◌then◌else◌, ltb→lt, lt→ltb, leb→le, le→leb, nat_beq_iff,
  tests, Bool-cases, Option-cases, ℤ, pos, negsuc, pos_part, neg_part, sub_ℕ, ◌+ℤ◌, ◌-ℤ◌, ◌≤ℤ◌,
  ◌<ℤ◌, ltb_ℤ, leb_ℤ, int_beq, int_beq_iff, Eq, ◌==◌, ◌!=◌, nat_eq, int_eq, string_eq, string_beq,
  string_beq_iff, beq_refl, length, take, keep, count, length-append, length-keep-le,
  length-keep-count, keep-append, has, add, remove, IsSetList, has-add, has-remove, add-IsSetList,
  remove-IsSetList, remove_absent, length-remove, length-remove-le,
}
use go_signing_server_anywhe.Prelude.Map.{
  get, put, del, get-put, get-del, holds, get-holds, holds-put, holds-del, IsMap, put-IsMap,
  del-IsMap,
}
use Prim.Native.String.{◌++◌ as str_append}
use go_signing_server_anywhe.Text.{is_empty}
use go_signing_server_anywhe.Text.Bytes.{bytes, Bytes}
use go_signing_server_anywhe.Util.{
  msg_type, as_token, message_skips_rate_limit, webrtc_relay_types, max_message_bytes,
}
use go_signing_server_anywhe.RateLimit.{TokenBucket, take_tokens}
use go_signing_server_anywhe.Auth.Password.{hash_password}
use go_signing_server_anywhe.Text.Case.{text}
use go_signing_server_anywhe.Auditproxy.{AuditEnv, Exchange}
use go_signing_server_anywhe.Db.Tables.{Store}
use go_signing_server_anywhe.Db.Clients.{update_client_heartbeat}
use go_signing_server_anywhe.Ice.Plan.{Manager}
use go_signing_server_anywhe.Ice.Pool.{CloudflareLane}
use go_signing_server_anywhe.Hub.Types.{Hub, Conn, send_conn, update_conn}
use go_signing_server_anywhe.Hub.Types.Json.{Msg, Value, str, bool, arr, obj, field}
use go_signing_server_anywhe.Hub.World.{World, Env, say, error_reply, handle_admin_logout}
use go_signing_server_anywhe.Hub.Roster.{to_obj, to_arr}
use go_signing_server_anywhe.Hub.Lifecycle.{disconnect}
use go_signing_server_anywhe.Hub.Connect.{handle_admin_connect_to_client}
use go_signing_server_anywhe.Hub.Relay.{
  relay_signaling, handle_client_device_info, handle_client_active_screen,
}
use go_signing_server_anywhe.Hub.Viewing.{
  handle_admin_stop_viewing, handle_admin_focus_client_app, handle_admin_remove_client,
  handle_admin_force_update_client, handle_admin_get_clients,
}
use go_signing_server_anywhe.Hub.Security.{handle_admin_reset_password}
use go_signing_server_anywhe.Hub.Transfer.Requests.{
  handle_admin_create_transfer_request, handle_admin_respond_transfer_request,
  handle_admin_update_client_org,
}
use go_signing_server_anywhe.Hub.Grants.{handle_remote_access, handle_stream_relay}
use go_signing_server_anywhe.Hub.SignIn.{handle_client_auth}
use go_signing_server_anywhe.Hub.Accounts.{handle_admin_login, handle_admin_register}
use go_signing_server_anywhe.Hub.Settings.{
  answer_orgs, public_list_orgs, handle_admin_get_org_leads, handle_admin_get_ui_features,
  handle_admin_set_ui_features,
}
use go_signing_server_anywhe.Hub.Settings.Window.{
  handle_admin_get_stream_window, handle_admin_set_stream_window,
}
use go_signing_server_anywhe.Hub.Settings.Lists.{
  handle_admin_list_resettable_admins, answer_transfer_requests,
}
use go_signing_server_anywhe.Hub.Legacy.{
  handle_legacy_register, handle_legacy_get_clients, handle_legacy_connect, handle_ice_path_report,
  handle_stream_transport_upgrade,
}
use go_signing_server_anywhe.Hub.Sfu.{Reply, handle_sfu_api}
use go_signing_server_anywhe.Hub.Sfu.Publishing.{
  handle_sfu_register_publisher, handle_media_provider_failed,
}
use go_signing_server_anywhe.Hub.Audit.{
  audit_proxy_list, audit_proxy_review, audit_proxy_groups_get, audit_proxy_groups_mutate,
}

-- The hub with its database and its ice manager.
pub record Server : Type 0 where
  pub world : World
  pub ice : Manager

-- auth.HashPassword, whose stored form is ASCII.
unfoldable pub hash_text : Env → String → Option String
hash_text env password = elim (hash_password env.scrypt_key env.salt (bytes password)) [
  | none ↦ none
  | some stored ↦ some (text stored)
]

abbrev pub unknown_type : String → Msg
unknown_type typ =
    ("type", str "error")
    ∷ ("error", str "UNKNOWN_TYPE")
    ∷ ("message", str (str_append "Unknown message type: " typ))
    ∷ []

-- The types of remote access and stream relay messages.
unfoldable pub remote_access_types : List String
remote_access_types =
    "remote-access-request" ∷ "approve-remote-access" ∷ "deny-remote-access"
    ∷ "get-my-remote-access-requests" ∷ "get-pending-remote-access-requests" ∷ []

unfoldable pub stream_relay_types : List String
stream_relay_types =
    "stream-relay-request" ∷ "approve-stream-relay" ∷ "deny-stream-relay"
    ∷ "get-my-stream-relay-requests" ∷ "get-pending-stream-relay-requests"
    ∷ "get-active-stream-relay" ∷ []

-- A handler of the table below.
abbrev pub Handler : Type 0
Handler = Server → Option Server

-- A handler that changes the world only.
abbrev pub on_world : (World → World) → Handler
on_world f v = some (record v { world = f v.world })

abbrev pub on_hub : (Hub → Hub) → Handler
on_hub f v = some (record v { world = record v.world { hub = f v.world.hub } })

abbrev pub on_media : (Manager → Hub → Manager × Hub) → Handler
on_media f v =
    let (m, h) = f v.ice v.world.hub in
    some (record { world = record v.world { hub = h }; ice = m })

-- A handler that can end the program.
abbrev pub on_world_or_panic : (World → Option World) → Handler
on_world_or_panic f v = elim (f v.world) [ none ↦ none | some w ↦ some (record v { world = w }) ]

-- The entry of a type in a table.
unfoldable pub handler_for : String → List (String × Handler) → Option Handler
handler_for typ [] = none
handler_for typ ((t, f) ∷ table) = if typ == t then some f else handler_for typ table

unfoldable pub entries_for : List String → Handler → List (String × Handler)
entries_for [] f = []
entries_for (t ∷ ts) f = (t, f) ∷ entries_for ts f

-- What is outside of one message: the call of the SFU's API, and the audit service.
pub record Services : Type 0 where
  pub call : String → String → Msg → CloudflareLane → Reply × ℕ
  pub audit : AuditEnv
  pub exchange : String → String → String → Option Msg → Exchange

-- The last cases of the switch: what clients, older agents and viewers send.
unfoldable pub legacy_handlers :
    Env → Services → String → Conn → Msg → Server → List (String × Handler)
legacy_handlers env x sid c msg v =
    (
      "heartbeat",
      on_world (λ w.
          say sid (("type", str "heartbeat-ack") ∷ [])
            (record w { store = update_client_heartbeat sid env.now w.store })),
    )
    ∷ ("register", on_world (handle_legacy_register env sid msg))
    ∷ ("get-clients", on_world (handle_legacy_get_clients env sid))
    ∷ (
      "connect-to-client",
      on_world (
          if not (is_empty (as_token (field msg "token")))
          then handle_admin_connect_to_client env v.ice sid msg
          else handle_legacy_connect env sid msg),
    )
    ∷ ("admin-stop-viewing", on_world (handle_admin_stop_viewing env sid msg))
    ∷ ("admin-focus-client-app", on_world (handle_admin_focus_client_app env sid msg))
    ∷ ("start-sharing", on_world (λ w. w))
    ∷ ("stop-sharing", on_world (λ w. w))
    ∷ ("disconnect", on_world (disconnect env sid))
    ∷ []

-- The cases from the reports of clients on.
unfoldable pub media_handlers :
    Env → Services → String → Conn → Msg → Server → List (String × Handler)
unfolding entries_for remote_access_types stream_relay_types legacy_handlers
media_handlers env x sid c msg v =
    ("client-active-screen", on_hub (handle_client_active_screen sid c msg))
      ∷ ("client-device-info", on_hub (handle_client_device_info sid c msg))
      ∷ ("ice-path-report", on_world (handle_ice_path_report env v.ice sid c msg))
      ∷ (
        "request-stream-transport-upgrade",
        on_world (handle_stream_transport_upgrade env v.ice sid c msg),
      )
      ∷ ("sfu-api", on_media (λ m h. handle_sfu_api x.call env.now m sid c msg h))
      ∷ ("sfu-register-publisher", on_hub (handle_sfu_register_publisher sid c msg))
      ∷ ("media-provider-failed", on_media (λ m h. handle_media_provider_failed env.now m c msg h))
      ∷ entries_for remote_access_types (on_world (handle_remote_access env sid (msg_type msg) msg))
    ++ entries_for stream_relay_types (on_world (handle_stream_relay env sid (msg_type msg) msg))
    ++ legacy_handlers env x sid c msg v

-- The switch of `handleMessage`; `v` is the server that the connection `c` was read from.
unfoldable pub handlers : Env → Services → String → Conn → Msg → Server → List (String × Handler)
unfolding hash_text entries_for webrtc_relay_types media_handlers
handlers env x sid c msg v =
    ("public-list-orgs", on_world (public_list_orgs env sid))
      ∷ ("client-auth", on_world (handle_client_auth env sid msg))
      ∷ ("admin-register", on_world (handle_admin_register env sid msg))
      ∷ ("admin-login", on_world (handle_admin_login env sid msg))
      ∷ ("admin-logout", on_world (handle_admin_logout sid msg))
      ∷ ("admin-get-orgs", on_world (answer_orgs env "admin-get-orgs-response" sid msg))
      ∷ ("admin-get-org-leads", on_world (handle_admin_get_org_leads env sid msg))
      ∷ ("admin-get-clients", on_world (handle_admin_get_clients env sid msg))
      ∷ (
        "admin-get-org-summaries",
        on_world (answer_orgs env "admin-get-org-summaries-response" sid msg),
      )
      ∷ ("admin-get-transfer-requests", on_world (answer_transfer_requests env sid msg))
      ∷ (
        "admin-create-transfer-request",
        on_world (handle_admin_create_transfer_request env sid msg),
      )
      ∷ (
        "admin-respond-transfer-request",
        on_world (handle_admin_respond_transfer_request env sid msg),
      )
      ∷ ("admin-get-ui-features", on_world (handle_admin_get_ui_features env sid msg))
      ∷ ("admin-set-ui-features", on_world_or_panic (handle_admin_set_ui_features env sid msg))
      ∷ ("admin-list-resettable-admins", on_world (handle_admin_list_resettable_admins env sid msg))
      ∷ ("admin-reset-password", on_world (handle_admin_reset_password (hash_text env) env sid msg))
      ∷ ("admin-get-stream-window", on_world (handle_admin_get_stream_window env sid msg))
      ∷ ("admin-set-stream-window", on_world (handle_admin_set_stream_window env sid msg))
      ∷ ("admin-update-client-org", on_world (handle_admin_update_client_org env sid msg))
      ∷ ("admin-remove-client", on_world (handle_admin_remove_client env sid msg))
      ∷ ("admin-force-update-client", on_world (handle_admin_force_update_client env sid msg))
      ∷ ("admin-audit-org-access-list", on_world (audit_proxy_list x.audit x.exchange env sid msg))
      ∷ (
        "admin-audit-org-access-review",
        on_world (audit_proxy_review x.audit x.exchange env sid msg),
      )
      ∷ ("admin-audit-groups-get", on_world (audit_proxy_groups_get x.audit x.exchange env sid msg))
      ∷ (
        "admin-audit-groups-mutate",
        on_world (audit_proxy_groups_mutate x.audit x.exchange env sid msg),
      )
      ∷ entries_for webrtc_relay_types (on_world (relay_signaling env sid c msg))
    ++ media_handlers env x sid c msg v

-- A message whose rate was paid for.
unfoldable pub serve_type : Env → Services → String → Conn → Msg → Handler
unfolding handler_for handlers
serve_type env x sid c msg v =
    let typ = msg_type msg in
    if is_empty typ
    then some (record v { world = say sid (error_reply "INVALID_TYPE") v.world })
    else elim (handler_for typ (handlers env x sid c msg v)) [
      | none ↦ some (record v { world = say sid (unknown_type typ) v.world })
      | some f ↦ f v
    ]

unfoldable pub with_bucket : TokenBucket → String → Server → Server
with_bucket b sid v = record v {
  world = record v.world { hub = update_conn sid (λ c. record c { bucket = b }) v.world.hub };
}

-- The clock of the bucket is in nanoseconds.
unfoldable pub handle_message : ℕ → Env → Services → String → Conn → Msg → Handler
unfolding serve_type with_bucket
handle_message clock env x sid c msg v =
    let (b, passed) = take_tokens 1 clock c.bucket in
    let charged = with_bucket b sid v in
    if message_skips_rate_limit (msg_type msg)
    then serve_type env x sid c msg v
    else if passed
    then serve_type env x sid (record c { bucket = b }) msg charged
    else some (record charged { world = say sid (error_reply "RATE_LIMITED") charged.world })
