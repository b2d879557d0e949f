-- ===== src/Hub/Roster.antt =====
-- The roster of clients as admins see it (internal/hub/handlers.go, handlers_audit_remote.go).
use go_signing_server_anywhe.Prelude.{
  ℕ, String, Bool, true, ◌&&◌, ◌||◌, Option, none, some, List, [], ◌∷◌, ◌++◌, map, if◌then◌else◌, ℤ,
  pos, ltb_ℤ, ◌==◌, ◌!=◌, nat_eq, int_eq, string_eq, keep, has,
}
use go_signing_server_anywhe.Db.Tables.{Store, ClientRow}
use go_signing_server_anywhe.Db.Clients.{get_clients_for_org, organization_name}
use go_signing_server_anywhe.Hub.Types.{
  Hub, Conn, Conns, client, admin, AdminIdentity, ScreenSource, kind_eq, send_conn,
}
use go_signing_server_anywhe.Hub.Types.Json.{
  Msg, Value, null, str, bool, int, arr, obj, Items, nil, item, Fields, end, entry,
}
use go_signing_server_anywhe.Hub.Links.{serves_client}
use go_signing_server_anywhe.Hub.World.{World, Env}

-- The first connection in the order of the map that serves a client.
unfoldable pub conn_of_client : ℤ → Conns → Option (String × Conn)
unfolding serves_client
conn_of_client id [] = none
conn_of_client id ((sid, c) ∷ rest) =
    if serves_client id (some c) then some (sid, c) else conn_of_client id rest

unfoldable pub effective_status : Conns → ClientRow → String
effective_status conns row = elim (conn_of_client row.id conns) [
  | none ↦ "offline"
  | some _ ↦ "sharing"
]

-- A Go map or slice as a JSON value.
unfoldable pub to_obj : Msg → Fields
to_obj [] = end
to_obj ((k, v) ∷ m) = entry k v (to_obj m)

unfoldable pub to_arr : List Value → Items
to_arr [] = nil
to_arr (v ∷ vs) = item v (to_arr vs)

unfoldable pub source_value : ScreenSource → Value
source_value s =
    let base = ("id", str s.id) ∷ ("name", str s.name) ∷ [] in
    obj (to_obj (elim s.index [ none ↦ base | some i ↦ base ++ ("index", int i) ∷ [] ]))

unfoldable pub screen_sources_json : Conns → ℤ → List Value
unfolding source_value
screen_sources_json conns id = elim (conn_of_client id conns) [
  | none ↦ []
  | some (sid, c) ↦ map source_value c.screen_sources
]

unfoldable pub client_app_version : Conns → ℤ → String
client_app_version conns id = elim (conn_of_client id conns) [
  | none ↦ ""
  | some (sid, c) ↦ c.app_version
]

-- Here the connection has to be of the client kind too.
unfoldable pub client_device_info : Conns → ℤ → Msg
client_device_info [] id = []
client_device_info ((sid, c) ∷ rest) id =
    if kind_eq c.kind client && serves_client id (some c)
    then c.device_info
    else client_device_info rest id

unfoldable pub opt_int : Option ℕ → Value
opt_int none = null
opt_int (some n) = int (pos n)

unfoldable pub opt_str : Option String → Value
opt_str none = null
opt_str (some s) = str s

-- mapAdminClientRow; the rows of a list carry no socket id, so that field is empty there.
unfoldable pub map_admin_client_row : Hub → Store → ClientRow → Value
unfolding screen_sources_json client_app_version client_device_info to_obj to_arr opt_int opt_str
map_admin_client_row h s c = obj (
    to_obj (
      ("id", int c.id)
      ∷ ("fullName", str c.full_name)
      ∷ ("status", str (effective_status h.conns c))
      ∷ ("orgId", int c.org_id)
      ∷ ("orgName", opt_str (organization_name c.org_id s.organizations))
      ∷ ("claimedOrgName", opt_str c.claimed_org_name)
      ∷ ("lastHeartbeatMs", int (pos c.last_heartbeat))
      ∷ ("lastOnlineMs", opt_int c.last_online_at)
      ∷ ("lastOfflineMs", opt_int c.last_offline_at)
      ∷ ("screenSources", arr (to_arr (screen_sources_json h.conns c.id)))
      ∷ ("appVersion", str (client_app_version h.conns c.id))
      ∷ ("socketId", str "")
      ∷ ("deviceInfo", obj (to_obj (client_device_info h.conns c.id)))
      ∷ []))

-- filterClientsByAuditGroupOrgAdminScope, on the rows whose maps it filters.
unfoldable pub in_scope : List ℤ → ℤ → ClientRow → Bool
in_scope allowed org_id c = (c.org_id == org_id) || (ltb_ℤ (pos 0) c.id && has c.id allowed)

unfoldable pub filter_by_audit_scope : Env → ℤ → ℤ → List ClientRow → List ClientRow
unfolding in_scope
filter_by_audit_scope env admin_id org_id rows = elim (env.audit_scope admin_id) [
  | none ↦ rows
  | some allowed ↦ keep (in_scope allowed org_id) rows
]

unfoldable pub is_scoped_role : String → Bool
is_scoped_role role = (role == "org_admin") || (role == "it_ops")

-- What one admin is shown of the rows of an organization; `none` where nothing is sent.
unfoldable pub rows_for : Env → Conns → ℤ → List ClientRow → AdminIdentity → Option (List ClientRow)
unfolding is_scoped_role filter_by_audit_scope
rows_for env conns org_id rows a =
    if is_scoped_role a.role && (a.org_id != org_id)
    then none
    else let out =
        if a.role == "it_ops"
        then keep (λ c. effective_status conns c == "sharing") rows
        else rows in
      some
        (if is_scoped_role a.role then filter_by_audit_scope env a.admin_id a.org_id out else out)

unfoldable pub shown_to : Env → Conns → ℤ → List ClientRow → Conn → Option (List ClientRow)
shown_to env conns org_id rows c =
    if kind_eq c.kind admin
    then (elim c.admin [ none ↦ none | some a ↦ rows_for env conns org_id rows a ])
    else none

-- The loop over the connections.
unfoldable pub broadcast_rows : Env → ℤ → List ClientRow → Store → Conns → Hub → Hub
broadcast_rows env org_id rows s [] h = h
broadcast_rows env org_id rows s ((sid, c) ∷ rest) h =
    broadcast_rows env org_id rows s rest (elim (shown_to env h.conns org_id rows c) [
      | none ↦ h
      | some out ↦
          send_conn sid
            (("type", str "admin-clients-updated")
              ∷ ("success", bool true)
              ∷ ("orgId", int org_id)
              ∷ ("clients", arr (to_arr (map (map_admin_client_row h s) out)))
              ∷ [])
            h
    ])

-- broadcastClientsListToAdmins
unfoldable pub broadcast_clients : Env → ℤ → World → World
unfolding broadcast_rows rows_for
broadcast_clients env org_id w = elim (get_clients_for_org org_id w.store) [
  | none ↦ w
  | some rows ↦ record w { hub = broadcast_rows env org_id rows w.store w.hub.conns w.hub }
]
