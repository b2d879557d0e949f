-- ===== src/Hub/Viewing.antt =====
-- What an admin does to a client besides connecting (internal/hub/handlers.go).
pub mod Removal
use go_signing_server_anywhe.Prelude.{
  String, Bool, true, false, not, ◌&&◌, ◌||◌, Option, none, some, List, [], ◌∷◌, map, ltb,
  if◌then◌else◌, ℤ, pos, ltb_ℤ, ◌==◌, ◌!=◌, nat_eq, int_eq, string_eq,
}
use go_signing_server_anywhe.Prelude.Map.{get}
use go_signing_server_anywhe.Util.{to_int64, as_non_empty_string}
use go_signing_server_anywhe.Db.Tables.{Store, AdminRow, ClientRow}
use go_signing_server_anywhe.Db.Clients.{
  get_client_by_id, get_clients_for_org, get_all_clients_grouped, disable_client,
}
use go_signing_server_anywhe.Db.Transfers.{reconcile_client_orgs}
use go_signing_server_anywhe.Hub.Types.{
  Conn, Conns, client, ClientIdentity, kind_eq, send_conn, close_ws,
}
use go_signing_server_anywhe.Hub.Types.Json.{Msg, Value, null, str, bool, int, arr, field}
use go_signing_server_anywhe.Hub.Links.{
  unlink_viewer, admin_already_viewing, unlink_admin_from_client, admin_name, agent_disconnected,
  is_of_kind,
}
use go_signing_server_anywhe.Hub.World.{World, Env, say, refusal, success, require_admin}
use go_signing_server_anywhe.Hub.Roster.{
  broadcast_clients, filter_by_audit_scope, map_admin_client_row, is_scoped_role, to_arr,
}

abbrev pub stop_response : String
stop_response = "admin-stop-viewing-response"

-- The second way of `handleAdminStopViewing`: one socket.
unfoldable pub stop_socket : String → String → World → World
stop_socket sid client_sid w =
    let unlinked = unlink_viewer sid client_sid w.hub in
    let told =
      if is_of_kind client (get client_sid w.hub.conns)
      then send_conn client_sid (agent_disconnected sid (admin_name (get sid w.hub.conns))) unlinked
      else unlinked in
    say sid (success stop_response []) (record w { hub = told })

unfoldable pub stop_by_socket : String → Msg → World → World
unfolding stop_socket
stop_by_socket sid msg w =
    let client_sid = as_non_empty_string (field msg "clientSocketId") 200 in
    if client_sid == ""
    then say sid (("type", str stop_response) ∷ ("success", bool false) ∷ []) w
    else stop_socket sid client_sid w

-- The body after `requireAdmin`: by the client's id, or else by one socket.
unfoldable pub stop_viewing : String → Msg → World → World
unfolding stop_by_socket
stop_viewing sid msg w =
    let (id, ok) = to_int64 (field msg "clientId") in
    let (h, n) = unlink_admin_from_client sid id w.hub in
    if ok && ltb_ℤ (pos 0) id && ltb 0 n
    then say sid (success stop_response (("unlinked", int (pos n)) ∷ [])) (record w { hub = h })
    else stop_by_socket sid msg (if ok && ltb_ℤ (pos 0) id then record w { hub = h } else w)

unfoldable pub handle_admin_stop_viewing : Env → String → Msg → World → World
unfolding stop_viewing
handle_admin_stop_viewing env sid msg w =
    let (who, w') = require_admin env sid msg w in
    elim who [ none ↦ w' | some _ ↦ stop_viewing sid msg w' ]

abbrev pub focus_response : String
focus_response = "admin-focus-client-app-response"

-- The socket that the client's row names.
unfoldable pub socket_of_row : ℤ → Store → Option String
socket_of_row id s = elim (get_client_by_id id s) [ none ↦ none | some c ↦ c.socket_id ]

unfoldable pub focus : String → Msg → World → World
unfolding socket_of_row
focus sid msg w =
    let (id, ok) = to_int64 (field msg "clientId") in
    if not ok
    then say sid (refusal focus_response "INVALID_INPUT") w
    else (elim (socket_of_row id w.store) [
      | none ↦ say sid (refusal focus_response "CLIENT_UNAVAILABLE") w
      | some client_sid ↦
          if not (admin_already_viewing sid client_sid w.hub)
          then say sid (refusal focus_response "NOT_VIEWING") w
          else say sid (success focus_response [])
              (say client_sid (("type", str "focus-client-app") ∷ []) w)
    ])

unfoldable pub handle_admin_focus_client_app : Env → String → Msg → World → World
unfolding focus
handle_admin_focus_client_app env sid msg w =
    let (who, w') = require_admin env sid msg w in
    elim who [ none ↦ w' | some _ ↦ focus sid msg w' ]

abbrev pub remove_response : String
remove_response = "admin-remove-client-response"

-- A client that may be removed: its row, its socket, the roster.
unfoldable pub remove_row : Env → String → ClientRow → World → World
remove_row env sid c w =
    let disabled : World = record w { store = disable_client c.id w.store } in
    let closed : World = elim c.socket_id [
      | none ↦ disabled
      | some client_sid ↦ record disabled {
        hub =
            close_ws client_sid (send_conn client_sid (success "client-disabled" []) disabled.hub);
      }
    ] in
    broadcast_clients env c.org_id (say sid (success remove_response []) closed)

-- The body after `requireAdmin`.
unfoldable pub remove_client : Env → String → AdminRow → Msg → World → World
unfolding remove_row
remove_client env sid a msg w =
    let (id, ok) = to_int64 (field msg "clientId") in
    if (a.role != "super_admin") && (a.role != "org_admin")
    then say sid (refusal remove_response "FORBIDDEN") w
    else if not ok
    then say sid (refusal remove_response "INVALID_INPUT") w
    else (elim (get_client_by_id id w.store) [
      | none ↦ say sid (refusal remove_response "NOT_FOUND") w
      | some c ↦
          if (a.role == "org_admin") && (c.org_id != a.org_id)
          then say sid (refusal remove_response "FORBIDDEN") w
          else remove_row env sid c w
    ])

unfoldable pub handle_admin_remove_client : Env → String → Msg → World → World
unfolding remove_client
handle_admin_remove_client env sid msg w =
    let (who, w') = require_admin env sid msg w in
    elim who [ none ↦ w' | some a ↦ remove_client env sid a msg w' ]

-- resolveLiveClientConn: who is found as a client, by its socket or else by its id.
unfoldable pub client_identity : Conn → Option ClientIdentity
client_identity c = if kind_eq c.kind client then c.client else none

unfoldable pub client_by_number : ℤ → Conns → Option (String × ClientIdentity)
unfolding client_identity
client_by_number id [] = none
client_by_number id ((sid, c) ∷ rest) = elim (client_identity c) [
  | none ↦ client_by_number id rest
  | some who ↦ if who.id == id then some (sid, who) else client_by_number id rest
]

unfoldable pub client_on_socket : String → Conns → Option (String × ClientIdentity)
client_on_socket sid conns = elim (get sid conns) [
  | none ↦ none
  | some c ↦ elim (client_identity c) [ none ↦ none | some who ↦ some (sid, who) ]
]

unfoldable pub resolve_live_client_conn : String → ℤ → Conns → Option (String × ClientIdentity)
unfolding client_by_number client_on_socket
resolve_live_client_conn sid id conns =
    elim (if sid != "" then client_on_socket sid conns else none) [
      | some found ↦ some found
      | none ↦ if ltb_ℤ (pos 0) id then client_by_number id conns else none
    ]

abbrev pub force_response : String
force_response = "admin-force-update-client-response"

-- The body after `requireAdmin`.
unfoldable pub force_update : String → AdminRow → Msg → World → World
unfolding resolve_live_client_conn
force_update sid a msg w =
    let client_sid = as_non_empty_string (field msg "clientSocketId") 200 in
    let (id, _) = to_int64 (field msg "clientId") in
    if a.role != "super_admin"
    then say sid (refusal force_response "FORBIDDEN") w
    else (elim (resolve_live_client_conn client_sid id w.hub.conns) [
      | none ↦ say sid (refusal force_response "CLIENT_NOT_FOUND") w
      | some (target, who) ↦
          say sid
            (success force_response
              (("clientName", str who.full_name) ∷ ("clientId", int who.id) ∷ []))
            (say target (("type", str "force-update") ∷ []) w)
    ])

unfoldable pub handle_admin_force_update_client : Env → String → Msg → World → World
unfolding force_update
handle_admin_force_update_client env sid msg w =
    let (who, w') = require_admin env sid msg w in
    elim who [ none ↦ w' | some a ↦ force_update sid a msg w' ]

unfoldable pub is_null : Value → Bool
is_null null = true
is_null _ = false

-- The organization whose clients an admin asks for.
unfoldable pub target_org : AdminRow → Msg → ℤ
target_org a msg =
    let (id, ok) = to_int64 (field msg "orgId") in
    if (a.role == "super_admin") && ok then id else a.org_id

unfoldable pub listed_rows : AdminRow → Msg → Store → Option (List ClientRow)
unfolding is_null target_org
listed_rows a msg s =
    if ((a.role == "it_ops") || (a.role == "super_admin")) && is_null (field msg "orgId")
    then get_all_clients_grouped s
    else get_clients_for_org (target_org a msg) s

-- The body after `requireAdmin`.
unfoldable pub get_clients : Env → String → AdminRow → Msg → World → World
unfolding listed_rows
get_clients env sid a msg w =
    let reconciled = record w { store = reconcile_client_orgs w.store } in
    elim (listed_rows a msg reconciled.store) [
      | none ↦
          say sid (("type", str "admin-get-clients-response") ∷ ("success", bool false) ∷ [])
            reconciled
      | some rows ↦
          let shown =
            if is_scoped_role a.role
            then filter_by_audit_scope env a.admin_id a.org_id rows
            else rows in
          say sid
            (success "admin-get-clients-response" (
              ("clients", arr (to_arr (map (map_admin_client_row w.hub reconciled.store) shown)))
              ∷ ("orgId", int (target_org a msg))
              ∷ []))
            reconciled
    ]

unfoldable pub handle_admin_get_clients : Env → String → Msg → World → World
unfolding get_clients
handle_admin_get_clients env sid msg w =
    let (who, w') = require_admin env sid msg w in
    elim who [ none ↦ w' | some a ↦ get_clients env sid a msg w' ]
