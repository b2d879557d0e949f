-- ===== src/Hub/Lifecycle/Departure.antt =====
-- The links of a connection that is gone (internal/hub/handlers.go, disconnect).
use go_signing_server_anywhe.Prelude.{
  String, ◌≡◌, refl, ◌∙◌, inl, inr, Bool, false, not, ◌&&◌, some, List, [], ◌∷◌, arith,
  if◌then◌else◌, Option-cases, ℤ, ◌==◌, nat_eq, int_eq, string_eq, string_beq_iff, has,
}
use go_signing_server_anywhe.Prelude.Map.{get, del}
use go_signing_server_anywhe.Db.Tables.{Store, ClientRow}
use go_signing_server_anywhe.Db.Clients.{set_client_offline_by_socket, get_clients_for_org}
use go_signing_server_anywhe.Hub.Types.{
  Hub, Conn, Conns, ConnKind, unknown, client, admin, legacy_agent, kind_eq, send_conn,
}
use go_signing_server_anywhe.Hub.Links.{targets, unlink_viewer, agent_disconnected, admin_name}
use go_signing_server_anywhe.Hub.Links.Edges.{linked, linked-remove_edge}
use go_signing_server_anywhe.Hub.Links.Clean.{IsLinked, Cuts, send_conn-links}
use go_signing_server_anywhe.Hub.World.{World, Env}
use go_signing_server_anywhe.Hub.Roster.{broadcast_clients, broadcast_rows, shown_to}
use go_signing_server_anywhe.Hub.Lifecycle.{
  unlink_admins, unlink_clients, leave, leave_client, disconnect,
}

-- Two hubs with the same links.
abbrev pub SameLinks : Hub → Hub → Type 0
SameLinks h h' =
    (h'.admin_viewer_links ≡ h.admin_viewer_links)
    × (h'.client_viewer_links ≡ h.client_viewer_links)

broadcast_rows-links :
    (env : Env) (org : ℤ) (rows : List ClientRow) (s : Store) (cs : Conns) (h : Hub)
    → SameLinks h (broadcast_rows env org rows s cs h)
unfolding broadcast_rows
broadcast_rows-links env org rows s [] h = (refl, refl)
broadcast_rows-links env org rows s ((sid, c) ∷ cs) h =
    elim (Option-cases (shown_to env h.conns org rows c)) [
      | inl e ↦ rw (e, broadcast_rows) (broadcast_rows-links env org rows s cs h)
      | inr (out, e) ↦
          rw (e, broadcast_rows)
            (let (p, q) = broadcast_rows-links env org rows s cs (send_conn sid _ h) in
              let (p', q') = send_conn-links sid _ h in (p ∙ p', q ∙ q'))
    ]

pub broadcast_clients-links :
    (env : Env) (org : ℤ) (w : World) → SameLinks w.hub (broadcast_clients env org w).hub
unfolding broadcast_clients
broadcast_clients-links env org w = elim (Option-cases (get_clients_for_org org w.store)) [
  | inl e ↦ rw (e, broadcast_clients) (refl, refl)
  | inr (rows, e) ↦
      rw (e, broadcast_clients) (broadcast_rows-links env org rows w.store w.hub.conns w.hub)
]

-- Unlinking a list of admins from one client.
unlink_admins-linked :
    (as' : List String) (sid : String) (h : Hub) (a c : String)
    → (linked a c (unlink_admins as' sid h).admin_viewer_links
        ≡ (not (has a as' && sid == c) && linked a c h.admin_viewer_links))
      × (linked c a (unlink_admins as' sid h).client_viewer_links
          ≡ (not (has a as' && sid == c) && linked c a h.client_viewer_links))
unfolding unlink_admins has unlink_viewer
unlink_admins-linked [] sid h a c = (refl, refl)
unlink_admins-linked (x ∷ xs) sid h a c =
    let (p, q) = unlink_admins-linked xs sid (unlink_viewer x sid h) a c in
    (
      ground (arith, p, linked-remove_edge x sid a c h.admin_viewer_links),
      ground (arith, q, linked-remove_edge sid x c a h.client_viewer_links),
    )

unlink_clients-linked :
    (cs : List String) (sid name : String) (h : Hub) (a c : String)
    → (linked a c (unlink_clients cs sid name h).admin_viewer_links
        ≡ (not (has c cs && sid == a) && linked a c h.admin_viewer_links))
      × (linked c a (unlink_clients cs sid name h).client_viewer_links
          ≡ (not (has c cs && sid == a) && linked c a h.client_viewer_links))
unfolding unlink_clients has unlink_viewer
unlink_clients-linked [] sid name h a c = (refl, refl)
unlink_clients-linked (x ∷ xs) sid name h a c =
    let told = send_conn x (agent_disconnected sid name) h in
    let (p, q) = unlink_clients-linked xs sid name (unlink_viewer sid x told) a c in
    let (p', q') = send_conn-links x (agent_disconnected sid name) h in
    (
      ground (arith, p, p', linked-remove_edge sid x a c told.admin_viewer_links),
      ground (arith, q, q', linked-remove_edge x sid c a told.client_viewer_links),
    )

-- A client's part of `disconnect`: all its links go, and no other.
leave_client_step :
    (env : Env) (sid : String) (w w' : World)
    → SameLinks w.hub w'.hub
    → IsLinked w.hub
    → Cuts
        (λ a c. sid == c)
        w.hub
        (unlink_admins (targets sid w'.hub.client_viewer_links) sid w'.hub)
unfolding linked
leave_client_step env sid w w' same ok a c =
    let l = unlink_admins-linked (targets sid w'.hub.client_viewer_links) sid w'.hub a c in
    (
      ground (arith, l, same, ok.same a c, string_beq_iff sid c),
      ground (arith, l, same, ok.same a c, string_beq_iff sid c),
    )

leave_client-Cuts :
    (env : Env) (sid : String) (w : World)
    → IsLinked w.hub
    → Cuts (λ a c. sid == c) w.hub (leave_client env sid w).hub
unfolding leave_client
leave_client-Cuts env sid w ok =
    elim (Option-cases (set_client_offline_by_socket sid env.now w.store).0) [
      | inl e ↦
          rw (e, leave_client)
            (leave_client_step env sid w
              (record w { store = (set_client_offline_by_socket sid env.now w.store).1 })
              (refl, refl) ok)
      | inr (row, e) ↦
          rw (e, leave_client)
            (leave_client_step env sid w
              (broadcast_clients env row.org_id (record {
                hub = record w.hub { sfu = del row.id w.hub.sfu };
                store = (set_client_offline_by_socket sid env.now w.store).1;
              }))
              (broadcast_clients-links env row.org_id (record {
                hub = record w.hub { sfu = del row.id w.hub.sfu };
                store = (set_client_offline_by_socket sid env.now w.store).1;
              }))
              ok)
    ]

leave_admin-Cuts :
    (sid name : String) (h : Hub)
    → IsLinked h
    → Cuts (λ a c. sid == a) h (unlink_clients (targets sid h.admin_viewer_links) sid name h)
unfolding linked
leave_admin-Cuts sid name h ok a c =
    let l = unlink_clients-linked (targets sid h.admin_viewer_links) sid name h a c in
    (
      ground (arith, l, ok.same a c, string_beq_iff sid a),
      ground (arith, l, ok.same a c, string_beq_iff sid a),
    )

-- Which edges a connection of a kind takes with it.
unfoldable pub cut_by : ConnKind → String → String → String → Bool
cut_by client sid a c = sid == c
cut_by admin sid a c = sid == a
cut_by _ sid a c = false

leave-IsLinked : (sid : String) (c : Conn) (h : Hub) → IsLinked h → IsLinked (leave sid c h)
unfolding leave
leave-IsLinked sid c h ok = record { same = ok.same; admins = ok.admins }

-- What follows the first critical section, by the kind of the connection.
departed : Env → String → Conn → ConnKind → World → World
departed env sid c k left =
    if kind_eq k client
    then leave_client env sid left
    else if kind_eq k admin
    then record left {
      hub =
          unlink_clients (targets sid left.hub.admin_viewer_links) sid (admin_name (some c))
            left.hub;
    }
    else left

disconnect_found :
    (env : Env) (sid : String) (w : World) (c : Conn)
    → get sid w.hub.conns ≡ some c
    → disconnect env sid w ≡ departed env sid c c.kind (record w { hub = leave sid c w.hub })
unfolding disconnect departed
disconnect_found env sid w c e = rw (e, disconnect) refl

departed_kind :
    (env : Env) (sid : String) (w : World) (c : Conn) (k : ConnKind)
    → IsLinked w.hub
    → Cuts (cut_by k sid) w.hub (departed env sid c k (record w { hub = leave sid c w.hub })).hub
unfolding cut_by kind_eq departed leave
departed_kind env sid w c client ok =
    leave_client-Cuts env sid (record w { hub = leave sid c w.hub }) (leave-IsLinked sid c w.hub ok)
departed_kind env sid w c admin ok =
    leave_admin-Cuts sid (admin_name (some c)) (leave sid c w.hub) (leave-IsLinked sid c w.hub ok)
departed_kind env sid w c unknown ok = λ a b. (refl, ok.same a b)
departed_kind env sid w c legacy_agent ok = λ a b. (refl, ok.same a b)

-- On the links of a hub that agree with each other, `disconnect` of a connection in `h.conns`
-- takes out of both maps the edges at its socket that its kind answers for, and no other edge: a
-- client's edges, an admin's edges, and none of a connection of another kind.
pub disconnect-Cuts :
    (env : Env) (sid : String) (w : World) (c : Conn)
    → get sid w.hub.conns ≡ some c
    → IsLinked w.hub
    → Cuts (cut_by c.kind sid) w.hub (disconnect env sid w).hub
disconnect-Cuts env sid w c e ok =
    rw (disconnect_found env sid w c e) (departed_kind env sid w c c.kind ok)
