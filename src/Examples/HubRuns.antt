-- ===== src/Examples/HubRuns.antt =====
-- Runs of the hub.
use go_signing_server_anywhe.Prelude.{
  ℕ, suc, ◌+◌, ◌≤◌, String, ◌≡◌, refl, ◌≢◌, true, false, not, ◌&&◌, none, some, [], ◌∷◌, arith,
  if◌then◌else◌, pos, ◌+ℤ◌, int_beq, ◌==◌, nat_eq, int_eq, string_eq, string_beq, keep,
}
use go_signing_server_anywhe.Prelude.Map.{get, holds, IsMap}
use go_signing_server_anywhe.Db.Tables.{find_where}
use go_signing_server_anywhe.Db.Admins.{get_admin_by_session_token, revoke_all_admin_sessions}
use go_signing_server_anywhe.Db.Transfers.{has_id, get_transfer_request, settle, move_client}
use go_signing_server_anywhe.Hub.Types.{Hub}
use go_signing_server_anywhe.Hub.Types.Json.{Msg, str, int, null, field}
use go_signing_server_anywhe.Hub.Links.{
  link_viewer, unlink_admin_from_stale_client_sockets, unlink_admin_from_client, serves_client,
  purge_orphan_viewer_links, is_live_socket,
}
use go_signing_server_anywhe.Hub.Links.Clean.{
  IsLinked, Cuts, superseded, unlink_stale-Cuts, unlink_client-Cuts,
}
use go_signing_server_anywhe.Hub.Links.Purge.{purge-Cuts, edges}
use go_signing_server_anywhe.Hub.Lifecycle.{
  Request, reserve, reserved, disconnect, evict, ip_slots, slots_of, client_ip, ws_token_ok,
  origin_allowed, is_local_host,
}
use go_signing_server_anywhe.Hub.Lifecycle.Counting.{on_ip}
use go_signing_server_anywhe.Hub.Lifecycle.Slots.{
  admits, here, next, Slots, Reach-bound, evict_leaks,
}
use go_signing_server_anywhe.Hub.Lifecycle.Departure.{cut_by, disconnect-Cuts}
use go_signing_server_anywhe.Hub.Transfer.Requests.{answer_transfer, transfer_client}
use go_signing_server_anywhe.Hub.Transfer.Outcome.{permitted, answered, refused_row, closed_as}
use go_signing_server_anywhe.Hub.Transfer.Authority.{answer_transfer-store, answer_transfer_once}
use go_signing_server_anywhe.Hub.Transfer.Creation.{moves_at_once, transfer_client-clients}
use go_signing_server_anywhe.Hub.Connect.{handle_admin_connect_to_client}
use go_signing_server_anywhe.Hub.Connect.Limits.{WithinLimits, connect-WithinLimits}
use go_signing_server_anywhe.Hub.Relay.{relayed}
use go_signing_server_anywhe.Hub.Relay.Sender.{relayed-marks, or_claimed, signed_name}
use go_signing_server_anywhe.Hub.World.{World}
use go_signing_server_anywhe.Hub.Grants.{remote_access, stream_relay}
use go_signing_server_anywhe.Hub.Grants.Approval.{is_approved, approved_by_super_admin}
use go_signing_server_anywhe.Util.{to_int64}
use go_signing_server_anywhe.Db.Clients.{get_client_by_id, disable_client}
use go_signing_server_anywhe.Hub.Viewing.{remove_client}
use go_signing_server_anywhe.Hub.Viewing.Removal.{may_remove, remove_client-store}
use go_signing_server_anywhe.Hub.Security.{revoke_admin_sessions_and_disconnect}
use go_signing_server_anywhe.Hub.Security.SignedOut.{signed_out}
use go_signing_server_anywhe.Text.{is_empty, trim_space, trim_left, trim_right, is_space, before}
use go_signing_server_anywhe.Examples.Data.{
  an_env, a_grant, client_conn, admin_conn, idle_hub, viewing_hub, orphan_hub, a_client, a_lead,
  a_super, a_transfer, a_store, idle_world, viewing_world, connect_msg, a_manager, idle_hub_within,
  viewing_hub_within,
}

connect-WithinLimits_example :
    WithinLimits
      (handle_admin_connect_to_client an_env a_manager "s-admin" connect_msg idle_world).hub
connect-WithinLimits_example =
    connect-WithinLimits an_env a_manager "s-admin" connect_msg idle_world idle_hub_within

client_found : get "s-client" viewing_hub.conns ≡ some client_conn
unfolding link_viewer get string_beq
client_found = refl

disconnect-Cuts_example :
    Cuts
      (cut_by client_conn.kind "s-client")
      viewing_hub
      (disconnect an_env "s-client" viewing_world).hub
disconnect-Cuts_example =
    disconnect-Cuts an_env "s-client" viewing_world client_conn client_found
      viewing_hub_within.links

orphan_links : IsLinked orphan_hub
orphan_links = record {
  same = viewing_hub_within.links.same;
  admins = viewing_hub_within.links.admins;
}

purge-Cuts_example :
    Cuts
      (λ a c. not (is_live_socket orphan_hub.conns c))
      orphan_hub
      (purge_orphan_viewer_links orphan_hub).0
    × (edges (purge_orphan_viewer_links orphan_hub).0.admin_viewer_links
          + (purge_orphan_viewer_links orphan_hub).1
        ≡ edges orphan_hub.admin_viewer_links)
purge-Cuts_example = purge-Cuts orphan_hub orphan_links

unlink_stale-Cuts_example :
    Cuts
      (λ a c. "s-admin" == a && superseded viewing_hub.conns (pos 7) "s-new" c)
      viewing_hub
      (unlink_admin_from_stale_client_sockets "s-admin" (pos 7) "s-new" viewing_hub)
unlink_stale-Cuts_example =
    unlink_stale-Cuts "s-admin" (pos 7) "s-new" viewing_hub viewing_hub_within.links

unlink_client-Cuts_example :
    Cuts
      (λ a c. "s-admin" == a && serves_client (pos 7) (get c viewing_hub.conns))
      viewing_hub
      (unlink_admin_from_client "s-admin" (pos 7) viewing_hub).0
unlink_client-Cuts_example =
    unlink_client-Cuts "s-admin" (pos 7) viewing_hub viewing_hub_within.links

abbrev empty_hub : Hub
empty_hub = record idle_hub { conns = []; ip_count = [] }

abbrev a_request : Request
a_request = record {
  query_token = "";
  header_token = "";
  origin = "";
  host = "localhost";
  forwarded_proto = "";
  forwarded_for = "";
  remote_host = "10.0.0.1";
}

abbrev nobody : String → ℕ
nobody j = 0

empty_hub-Slots : Slots empty_hub nobody
unfolding slots_of get on_ip
empty_hub-Slots = record {
  counted = λ ip f. refl;
  bounded = λ ip. omega arith;
  sockets = record {};
}

admitted : (reserve a_request empty_hub).1 ≡ reserved "10.0.0.1"
unfolding reserve client_ip ws_token_ok origin_allowed is_local_host slots_of get string_beq
    is_empty trim_space trim_left trim_right is_space before
admitted = refl

Reach-bound_example :
    let h = (reserve a_request empty_hub).0 in
    let p = λ (j : String). (if "10.0.0.1" == j then suc (nobody j) else nobody j) in
    (ip_slots "10.0.0.1" h ≡ on_ip "10.0.0.1" h.conns + p "10.0.0.1")
    × (on_ip "10.0.0.1" h.conns + p "10.0.0.1" ≤ h.cfg.max_per_ip)
unfolding is_empty
Reach-bound_example =
    Reach-bound "10.0.0.1" empty_hub-Slots (next here (admits a_request "10.0.0.1" admitted)) refl

idle_found : get "s-client" idle_world.hub.conns ≡ some client_conn
unfolding get string_beq
idle_found = refl

idle_world-IsMap : IsMap idle_world.hub.conns
unfolding holds string_beq
idle_world-IsMap = (refl, (refl, record {}))

evict_leaks_example :
    let w' = record idle_world { hub = evict a_client idle_world.hub } in
    (disconnect an_env "s-client" w' ≡ w')
    × (ip_slots client_conn.ip w'.hub ≡ ip_slots client_conn.ip idle_world.hub)
    × (on_ip client_conn.ip w'.hub.conns + 1 ≡ on_ip client_conn.ip idle_world.hub.conns)
evict_leaks_example =
    evict_leaks an_env idle_world a_client "s-client" client_conn refl idle_found idle_world-IsMap

answer_transfer-store_example :
    (answer_transfer an_env "s-admin" a_super a_transfer "approve" idle_world).store
    ≡ answered an_env.now a_super a_transfer "approve" a_store
answer_transfer-store_example =
    answer_transfer-store an_env "s-admin" a_super a_transfer "approve" idle_world

super_permitted : permitted a_super a_transfer a_store ≡ true
unfolding permitted string_beq
super_permitted = refl

read_again :
    get_transfer_request
      (pos 11)
      (answer_transfer an_env "s-admin" a_super a_transfer "reject" idle_world).store
    ≡ some (settle "rejected" (pos 9) 5000 a_transfer)
unfolding answered permitted refused_row closed_as settle get_transfer_request find_where string_beq
    int_beq
read_again = rw (answer_transfer-store an_env "s-admin" a_super a_transfer "reject" idle_world) refl

answer_transfer_once_example :
    let w' = answer_transfer an_env "s-admin" a_super a_transfer "reject" idle_world in
    (answer_transfer an_env "s-admin" a_lead
      (settle "rejected" (pos 9) 5000 a_transfer)
      "approve"
      w').store
    ≡ w'.store
answer_transfer_once_example =
    answer_transfer_once an_env an_env "s-admin" "s-admin" a_super a_lead a_transfer
      (settle "rejected" (pos 9) 5000 a_transfer) "reject" "approve" idle_world super_permitted
      read_again

transfer_client-clients_example :
    (transfer_client an_env "s-admin" a_super a_client (pos 2) idle_world).store.clients ≡ (
      if moves_at_once a_super a_client (pos 2)
      then (elim (move_client (pos 7) (pos 2) (pos 9) 5000 a_store) [
        | none ↦ a_store.clients
        | some s ↦ s.clients
      ])
      else a_store.clients)
transfer_client-clients_example =
    transfer_client-clients an_env "s-admin" a_super a_client (pos 2) idle_world

abbrev spoofed : Msg
spoofed =
    ("type", str "offer")
    ∷ ("fromSocketId", str "s-other")
    ∷ ("fromName", str "Root")
    ∷ ("targetSocketId", str "s-client")
    ∷ []

relayed-marks_example :
    let m = relayed 5000 "s-admin" admin_conn spoofed in
    (field m "fromSocketId" ≡ str "s-admin")
    × (field m "seq" ≡ int (pos 0 +ℤ pos 1))
    × (field m "targetSocketId" ≡ null)
    × (field m "fromName" ≡ or_claimed (signed_name admin_conn) (field spoofed "fromName"))
relayed-marks_example = relayed-marks 5000 "s-admin" admin_conn spoofed

other_signs_in :
    get_admin_by_session_token "token-9" 6000
      (revoke_admin_sessions_and_disconnect (pos 3) idle_world).store
    ≡ some a_super
unfolding get_admin_by_session_token revoke_admin_sessions_and_disconnect revoke_all_admin_sessions
    find_where keep string_beq int_beq
other_signs_in = refl

signed_out_example : a_super.admin_id ≢ pos 3
signed_out_example = signed_out (pos 3) "token-9" 6000 idle_world a_super other_signs_in

abbrev remove_msg : Msg
remove_msg = ("type", str "admin-remove-client") ∷ ("clientId", int (pos 7)) ∷ []

removed_number : to_int64 (field remove_msg "clientId") ≡ (pos 7, true)
unfolding to_int64 field get string_beq
removed_number = refl

removed_client : get_client_by_id (pos 7) a_store ≡ some a_client
unfolding get_client_by_id find_where has_id int_beq
removed_client = refl

remove_client-store_example :
    (remove_client an_env "s-admin" a_lead remove_msg idle_world).store
    ≡ (if may_remove a_lead a_client then disable_client (pos 7) a_store else a_store)
remove_client-store_example =
    remove_client-store an_env "s-admin" a_lead remove_msg idle_world (pos 7) a_client
      removed_number removed_client

abbrev approve_msg : Msg
approve_msg = ("type", str "approve-remote-access") ∷ ("requestId", int (pos 21)) ∷ []

abbrev asking_world : World
asking_world = record idle_world {
  store = record a_store { remote_access = a_grant ∷ []; stream_relay = a_grant ∷ [] };
}

lead_role : string_beq a_lead.role "super_admin" ≡ false
unfolding string_beq
lead_role = refl

approved_by_super_admin_example :
    (keep is_approved
        (remote_access an_env "s-admin" "approve-remote-access" a_lead approve_msg
          asking_world).store.remote_access
      ≡ keep is_approved asking_world.store.remote_access)
    × (keep is_approved
          (stream_relay an_env "s-admin" "approve-remote-access" a_lead approve_msg
            asking_world).store.stream_relay
        ≡ keep is_approved asking_world.store.stream_relay)
approved_by_super_admin_example =
    approved_by_super_admin an_env "s-admin" "approve-remote-access" a_lead approve_msg asking_world
      lead_role
