-- ===== src/Hub/Connect.antt =====
-- Connecting an admin to a client (internal/hub/handlers.go).
pub mod Limits
use go_signing_server_anywhe.Prelude.{
  ℕ, zero, suc, ◌+◌, ◌-◌, ◌*◌, ◌/◌, ◌%◌, ◌^◌, ◌≤◌, ◌<◌, String, ◌≡◌, refl, sym, ap, ◌∙◌, ◌≢◌, ◌↔◌,
  ◌⊎◌, inl, inr, Bool, true, false, not, ◌&&◌, ◌||◌, Option, none, some, List, [], ◌∷◌, ◌++◌, map,
  arith, eq_iff, ltb, leb, nat_beq, if◌then◌else◌, ltb→lt, lt→ltb, leb→le, le→leb, nat_beq_iff,
  tests, Bool-cases, Option-cases, ℤ, pos, negsuc, pos_part, neg_part, sub_ℕ, ◌+ℤ◌, ◌-ℤ◌, ◌≤ℤ◌,
  ◌<ℤ◌, ltb_ℤ, leb_ℤ, int_beq, int_beq_iff, Eq, ◌==◌, ◌!=◌, nat_eq, int_eq, string_eq, string_beq,
  string_beq_iff, beq_refl, length, take, keep, count, length-append, length-keep-le,
  length-keep-count, keep-append, has, add, remove, IsSetList, has-add, has-remove, add-IsSetList,
  remove-IsSetList, remove_absent, length-remove, length-remove-le,
}
use go_signing_server_anywhe.Prelude.Map.{
  get, put, del, get-put, get-del, holds, get-holds, holds-put, holds-del, IsMap, put-IsMap,
  del-IsMap,
}
use Prim.Native.String.{◌++◌ as str_append}
use go_signing_server_anywhe.Util.{to_int64, as_non_empty_string}
use go_signing_server_anywhe.Db.Tables.{Store, AdminRow, ClientRow, find_where, is_disabled}
use go_signing_server_anywhe.Db.Clients.{
  get_client_by_id, get_client_by_org_and_full_name, create_session,
}
use go_signing_server_anywhe.Db.Grants.{get_active}
use go_signing_server_anywhe.StreamWindow.{
  Policy, Verdict, verdict, no_zone, default_policy, normalize, deny_message,
}
use go_signing_server_anywhe.Hub.Types.{Hub, Conn, ConnKind, client, kind_eq, send_conn}
use go_signing_server_anywhe.Hub.Types.Json.{Msg, str, bool, int, field}
use go_signing_server_anywhe.Hub.Links.{
  link_viewer, unlink_viewer, admin_already_viewing, count_admin_targets, count_client_viewers,
  unlink_admin_from_stale_client_sockets, unlink_admin_from_client, admin_name, agent_disconnected,
  is_of_kind,
}
use go_signing_server_anywhe.Hub.World.{World, Env, say, refusal, success, require_admin}
use go_signing_server_anywhe.Hub.Roster.{conn_of_client, is_scoped_role}
use go_signing_server_anywhe.Hub.Transport.{
  session_transport_plan, enrich_transport_plan, stream_transport_fields,
}
use go_signing_server_anywhe.Ice.Plan.{Manager, TransportPlan}

-- resolveLiveClient: a socket that serves the client, or else the one that its row names.
unfoldable pub resolve_live_client : ClientRow → Hub → Option String
resolve_live_client c h = elim (conn_of_client c.id h.conns) [
  | some (sid, _) ↦ some sid
  | none ↦ elim c.socket_id [
    | none ↦ none
    | some sid ↦ elim (get sid h.conns) [ none ↦ none | some _ ↦ some sid ]
  ]
]

-- orgAdminAllowsAuditGroupClient
unfoldable pub audit_group_allows : Env → AdminRow → ℤ → Store → Bool
audit_group_allows env a client_id s =
    let asked = elim (env.audit_allows a.admin_id client_id) as (λ _. Bool) [
      | none ↦ true
      | some allowed ↦ allowed
    ] in
    elim (get_client_by_id client_id s) [ none ↦ asked | some c ↦ (c.org_id == a.org_id) || asked ]

-- GetOrgAdminStreamWindow; `none` is an error.
unfoldable pub get_org_admin_stream_window : Store → Option Policy
get_org_admin_stream_window s =
    if s.up
    then some (elim s.stream_window [ none ↦ default_policy | some p ↦ normalize p ])
    else none

-- orgAdminStreamConnectAllowed: a window that cannot be read, or whose zone is unknown, is open.
-- Where it is shut, the message that says so.
unfoldable pub stream_window_closed : Env → Store → Option String
unfolding get_org_admin_stream_window
stream_window_closed env s = elim (get_org_admin_stream_window s) [
  | none ↦ none
  | some p ↦ elim (env.window_now p) [
    | no_zone ↦ none
    | verdict ok ↦ if ok then none else some (deny_message p)
  ]
]

abbrev pub connect_response : String
connect_response = "connect-response"

abbrev pub connected_fields : ClientRow → String → ℤ → Msg
connected_fields c client_sid session_id =
    ("sessionId", int session_id)
    ∷ ("clientId", int c.id)
    ∷ ("clientFullName", str c.full_name)
    ∷ ("clientSocketId", str client_sid)
    ∷ []

unfoldable pub connecting_message : String → String
connecting_message name = str_append "Connecting to " (str_append "\"" (str_append name "\"..."))

-- GetActiveStreamRelay, for the roles that may hold a grant
unfoldable pub has_relay : Env → AdminRow → Store → Bool
has_relay env a s =
    is_scoped_role a.role
    && s.up
    && (elim (get_active a.admin_id env.now s.stream_relay) [ none ↦ false | some _ ↦ true ])

-- What follows the checks: the session, the link, and the three messages.
unfoldable pub start_viewing :
    Env → Manager → String → AdminRow → ClientRow → String → World → World
unfolding has_relay connecting_message
start_viewing env m sid a c client_sid w =
    let plan =
      session_transport_plan m env.now sid c.id (admin_already_viewing sid client_sid w.hub)
        (has_relay env a w.store) w.hub in
    let client_plan = enrich_transport_plan m env.now w.hub c.id "publisher" plan in
    let admin_plan = enrich_transport_plan m env.now w.hub c.id "subscriber" plan in
    let (session_id, store) = create_session c.org_id c.id (some a.admin_id) w.store in
    let linked : World = record { hub = link_viewer sid client_sid w.hub; store = store } in
    let prepared =
      say client_sid
        (("type", str "prepare-peer")
          ∷ ("agentName", str a.full_name)
          ∷ ("agentSocketId", str sid)
          ∷ ("sessionId", int session_id)
          ∷ stream_transport_fields client_plan)
        linked in
    let offered =
      say sid
        (success "start-offer"
          (connected_fields c client_sid session_id ++ stream_transport_fields admin_plan))
        prepared in
    say sid
      (success connect_response (
        connected_fields c client_sid session_id
        ++ ("message", str (connecting_message c.full_name)) ∷ stream_transport_fields admin_plan))
      offered

-- The two limits, for who is not yet viewing.
unfoldable pub link_within_limits :
    Env → Manager → String → AdminRow → ClientRow → String → World → World
unfolding start_viewing
link_within_limits env m sid a c client_sid w =
    let refuse =
      λ (code : String). say sid (refusal connect_response code ++ ("clientId", int c.id) ∷ []) w in
    if not (admin_already_viewing sid client_sid w.hub)
      && leb w.hub.cfg.max_admin_viewer_targets (count_admin_targets sid w.hub)
    then refuse "ADMIN_VIEWER_LIMIT"
    else if not (admin_already_viewing sid client_sid w.hub)
        && leb w.hub.cfg.max_viewers_per_client (count_client_viewers client_sid w.hub)
    then refuse "CLIENT_VIEWER_LIMIT"
    else start_viewing env m sid a c client_sid w

-- A client that may be viewed: its live socket, the clean-up of stale links, the limits.
unfoldable pub view_client : Env → Manager → String → AdminRow → ClientRow → World → World
unfolding link_within_limits resolve_live_client
view_client env m sid a c w = elim (resolve_live_client c w.hub) [
  | none ↦ say sid (refusal connect_response "CLIENT_UNAVAILABLE") w
  | some client_sid ↦
      link_within_limits env m sid a c client_sid
        (record w { hub = unlink_admin_from_stale_client_sockets sid c.id client_sid w.hub })
]

-- The checks on a client that was found.
unfoldable pub connect_to : Env → Manager → String → AdminRow → ClientRow → World → World
unfolding view_client audit_group_allows stream_window_closed
connect_to env m sid a c w =
    if is_disabled c
    then say sid (refusal connect_response "CLIENT_UNAVAILABLE") w
    else if (a.role != "super_admin") && (c.org_id != a.org_id)
    then say sid (refusal connect_response "FORBIDDEN") w
    else if is_scoped_role a.role && not (audit_group_allows env a c.id w.store)
    then say sid
        (refusal connect_response "FORBIDDEN"
          ++ ("message", str "This member is not in any audit group assigned to you.")
            ∷ ("clientId", int c.id)
            ∷ [])
        w
    else (elim (if a.role == "org_admin" then stream_window_closed env w.store else none) [
      | some why ↦
          say sid
            (refusal connect_response "STREAM_WINDOW_CLOSED"
              ++ ("message", str why) ∷ ("clientId", int c.id) ∷ [])
            w
      | none ↦ view_client env m sid a c w
    ])

-- The client that a message names by its id, or else by its name.
unfoldable pub named_client : AdminRow → Msg → Store → Option ClientRow
named_client a msg s =
    let (id, ok) = to_int64 (field msg "clientId") in
    let name = as_non_empty_string (field msg "clientFullName") 200 in
    if ok
    then get_client_by_id id s
    else if name != ""
    then get_client_by_org_and_full_name a.org_id name s
    else none

-- The body after `requireAdmin`; `sensitiveAccessAllowed` always allows.
unfoldable pub connect : Env → Manager → String → AdminRow → Msg → World → World
unfolding connect_to named_client
connect env m sid a msg w = elim (named_client a msg w.store) [
  | none ↦ say sid (refusal connect_response "CLIENT_UNAVAILABLE") w
  | some c ↦ connect_to env m sid a c w
]

unfoldable pub handle_admin_connect_to_client : Env → Manager → String → Msg → World → World
unfolding connect
handle_admin_connect_to_client env m sid msg w =
    let (who, w') = require_admin env sid msg w in
    elim who [ none ↦ w' | some a ↦ connect env m sid a msg w' ]
