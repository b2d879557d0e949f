-- ===== src/Hub/Connect/Limits.antt =====
-- The limits on who views whom (internal/hub/handlers.go, hub.go).
use go_signing_server_anywhe.Prelude.{
  ◌<◌, String, ◌≡◌, ◌∙◌, ◌⊎◌, inl, inr, Bool, true, not, ◌&&◌, none, List, [], ◌∷◌, arith, leb,
  if◌then◌else◌, Bool-cases, Option-cases, ℤ, ◌==◌, ◌!=◌, nat_eq, int_eq, string_eq,
}
use go_signing_server_anywhe.Prelude.Map.{get, put-IsMap}
use go_signing_server_anywhe.Db.Tables.{AdminRow, ClientRow, is_disabled}
use go_signing_server_anywhe.Db.Admins.{get_admin_by_session_token}
use go_signing_server_anywhe.Hub.Types.{Hub, Conn, client, send_conn, update_conn}
use go_signing_server_anywhe.Text.{is_empty}
use go_signing_server_anywhe.Util.{as_token}
use go_signing_server_anywhe.Hub.Roster.{is_scoped_role}
use go_signing_server_anywhe.Hub.Types.Json.{Msg, field}
use go_signing_server_anywhe.Hub.Links.{
  targets, add_edge, drop_targets, drop_links, link_viewer, notify_clients, is_stale,
  unlink_admin_from_stale_client_sockets, admin_already_viewing, count_admin_targets,
  count_client_viewers, is_of_kind,
}
use go_signing_server_anywhe.Hub.Links.Edges.{linked}
use go_signing_server_anywhe.Hub.Links.Clean.{
  IsLinked, Cuts-same, link_viewer-linked, store_set-IsMap, drop_links-Cuts,
}
use go_signing_server_anywhe.Hub.World.{World, Env, say, require_admin}
use go_signing_server_anywhe.Hub.Connect.{
  start_viewing, link_within_limits, view_client, resolve_live_client, connect_to, connect,
  handle_admin_connect_to_client, named_client, audit_group_allows, stream_window_closed,
}
use go_signing_server_anywhe.Ice.Plan.{Manager}
use go_signing_server_anywhe.Hub.Links.Counts.{AtMost, drop_links-AtMost, add_edge-AtMost}

-- The links agree with each other and keep the limits of the configuration.
pub record WithinLimits (h : Hub) : Type 0 where
  pub links : IsLinked h
  pub for_admin : AtMost h.cfg.max_admin_viewer_targets h.admin_viewer_links
  pub by_client : AtMost h.cfg.max_viewers_per_client h.client_viewer_links

update_conn-WithinLimits :
    (sid : String) (f : Conn → Conn) (h : Hub) → WithinLimits h → WithinLimits (update_conn sid f h)
unfolding update_conn
update_conn-WithinLimits sid f h ok = elim (Option-cases (get sid h.conns)) [
  | inl e ↦ rw (e, update_conn) ok
  | inr (c, e) ↦
      rw (e, update_conn)
        (record {
          links = record { same = ok.links.same; admins = ok.links.admins };
          for_admin = ok.for_admin;
          by_client = ok.by_client;
        })
]

send_conn-WithinLimits :
    (sid : String) (m : Msg) (h : Hub) → WithinLimits h → WithinLimits (send_conn sid m h)
unfolding send_conn
send_conn-WithinLimits sid m h ok = update_conn-WithinLimits sid _ h ok

say-WithinLimits :
    (sid : String) (m : Msg) (w : World) → WithinLimits w.hub → WithinLimits (say sid m w).hub
unfolding send_conn
say-WithinLimits sid m w ok = update_conn-WithinLimits sid _ w.hub ok

notify_clients-WithinLimits :
    (sids : List String) (m : Msg) (h : Hub)
    → WithinLimits h
    → WithinLimits (notify_clients sids m h)
unfolding notify_clients send_conn
notify_clients-WithinLimits [] m h ok = ok
notify_clients-WithinLimits (sid ∷ sids) m h ok =
    notify_clients-WithinLimits sids m _ (elim (Bool-cases (is_of_kind client (get sid h.conns))) [
      | inl e ↦ rw e (update_conn-WithinLimits sid _ h ok)
      | inr e ↦ rw e ok
    ])

drop_links-WithinLimits :
    (gone : String → Bool) (a : String) (h : Hub)
    → WithinLimits h
    → WithinLimits (drop_links gone a h)
drop_links-WithinLimits gone a h ok =
    let cuts = drop_links-Cuts gone a h ok.links in
    let (b, b') = drop_links-AtMost gone a h _ _ ok.for_admin ok.by_client in
    unfold drop_links in
    record {
      links = record {
        same = λ a' c. Cuts-same (λ x y. a == x && gone y) h (drop_links gone a h) a' c cuts;
        admins =
            store_set-IsMap a
              (drop_targets gone a (targets a h.admin_viewer_links) h.client_viewer_links).0
              h.admin_viewer_links ok.links.admins;
      };
      for_admin = b;
      by_client = b';
    }

unlink_stale-WithinLimits :
    (a : String) (id : ℤ) (live : String) (h : Hub)
    → WithinLimits h
    → WithinLimits (unlink_admin_from_stale_client_sockets a id live h)
unfolding unlink_admin_from_stale_client_sockets
unlink_stale-WithinLimits a id live h ok = elim (Option-cases (get a h.admin_viewer_links)) [
  | inl e ↦ rw (e, unlink_admin_from_stale_client_sockets) ok
  | inr (set, e) ↦
      rw (e, unlink_admin_from_stale_client_sockets)
        (notify_clients-WithinLimits _ _ _
          (drop_links-WithinLimits (is_stale h.conns id live) a h ok))
]

-- The room that the handler has made sure of before it links.
unfoldable pub Room : String → String → Hub → Type 0
Room a c h =
    (admin_already_viewing a c h ≡ true)
    ⊎ ((count_admin_targets a h < h.cfg.max_admin_viewer_targets)
        × (count_client_viewers c h < h.cfg.max_viewers_per_client))

pub link_viewer-WithinLimits :
    (a c : String) (h : Hub) → WithinLimits h → Room a c h → WithinLimits (link_viewer a c h)
unfolding Room admin_already_viewing count_admin_targets count_client_viewers linked
link_viewer-WithinLimits a c h ok room =
    let l = link_viewer-linked a c h ok.links in
    let for_admin =
      add_edge-AtMost h.cfg.max_admin_viewer_targets a c h.admin_viewer_links
        (elim room [ inl v ↦ inl v | inr (p, q) ↦ inr p ]) ok.for_admin in
    let by_client =
      add_edge-AtMost h.cfg.max_viewers_per_client c a h.client_viewer_links
        (elim room [ inl v ↦ inl (ok.links.same a c ∙ v) | inr (p, q) ↦ inr q ]) ok.by_client in
    unfold link_viewer in
    record {
      links = record {
        same = λ a' c'. (l a' c').1;
        admins = unfold add_edge in put-IsMap a _ h.admin_viewer_links ok.links.admins;
      };
      for_admin = for_admin;
      by_client = by_client;
    }

start_viewing-WithinLimits :
    (env : Env) (m : Manager) (sid : String) (a : AdminRow) (c : ClientRow) (csid : String)
    (w : World)
    → WithinLimits w.hub
    → Room sid csid w.hub
    → WithinLimits (start_viewing env m sid a c csid w).hub
unfolding start_viewing
start_viewing-WithinLimits env m sid a c csid w ok room = send_conn-WithinLimits sid _ _ (
    send_conn-WithinLimits sid _ _
      (send_conn-WithinLimits csid _ _ (link_viewer-WithinLimits sid csid w.hub ok room)))

link_within-WithinLimits :
    (env : Env) (m : Manager) (sid : String) (a : AdminRow) (c : ClientRow) (csid : String)
    (w : World)
    → WithinLimits w.hub
    → WithinLimits (link_within_limits env m sid a c csid w).hub
unfolding link_within_limits Room
link_within-WithinLimits env m sid a c csid w ok =
    let v = admin_already_viewing sid csid w.hub in
    let full = leb w.hub.cfg.max_admin_viewer_targets (count_admin_targets sid w.hub) in
    let crowded = leb w.hub.cfg.max_viewers_per_client (count_client_viewers csid w.hub) in
    elim (Bool-cases (not v && full)) [
      | inl e ↦ rw e (say-WithinLimits sid _ w ok)
      | inr e ↦ rw e (elim (Bool-cases (not v && crowded)) [
        | inl f ↦ rw f (say-WithinLimits sid _ w ok)
        | inr f ↦ rw f (
            start_viewing-WithinLimits env m sid a c csid w ok (elim (Bool-cases v) [
              | inl t ↦ inl t
              | inr t ↦ inr (ground (arith, e, f, t), ground (arith, e, f, t))
            ]))
      ])
    ]

view_client-WithinLimits :
    (env : Env) (m : Manager) (sid : String) (a : AdminRow) (c : ClientRow) (w : World)
    → WithinLimits w.hub
    → WithinLimits (view_client env m sid a c w).hub
unfolding view_client
view_client-WithinLimits env m sid a c w ok = elim (Option-cases (resolve_live_client c w.hub)) [
  | inl e ↦ rw (e, view_client) (say-WithinLimits sid _ w ok)
  | inr (csid, e) ↦
      rw (e, view_client)
        (link_within-WithinLimits env m sid a c csid
          (record w { hub = unlink_admin_from_stale_client_sockets sid c.id csid w.hub })
          (unlink_stale-WithinLimits sid c.id csid w.hub ok))
]

connect_to-WithinLimits :
    (env : Env) (m : Manager) (sid : String) (a : AdminRow) (c : ClientRow) (w : World)
    → WithinLimits w.hub
    → WithinLimits (connect_to env m sid a c w).hub
unfolding connect_to
connect_to-WithinLimits env m sid a c w ok = elim (Bool-cases (is_disabled c)) [
  | inl e ↦ rw e (say-WithinLimits sid _ w ok)
  | inr e ↦ rw e (elim (Bool-cases ((a.role != "super_admin") && (c.org_id != a.org_id))) [
    | inl f ↦ rw f (say-WithinLimits sid _ w ok)
    | inr f ↦
        rw f
          (elim (Bool-cases
            (is_scoped_role a.role && not (audit_group_allows env a c.id w.store))) [
              | inl g ↦ rw g (say-WithinLimits sid _ w ok)
              | inr g ↦
                  rw g
                    (elim (Option-cases
                      (if a.role == "org_admin" then stream_window_closed env w.store else none)) [
                        | inl n ↦ rw (n, connect_to) (view_client-WithinLimits env m sid a c w ok)
                        | inr (why, n) ↦ rw (n, connect_to) (say-WithinLimits sid _ w ok)
                      ])
            ])
  ])
]

require_admin-WithinLimits :
    (env : Env) (sid : String) (msg : Msg) (w : World)
    → WithinLimits w.hub
    → WithinLimits (require_admin env sid msg w).1.hub
unfolding require_admin
require_admin-WithinLimits env sid msg w ok =
    let token = as_token (field msg "token") in
    elim (Bool-cases (is_empty token)) [
      | inl e ↦ rw e (say-WithinLimits sid _ w ok)
      | inr e ↦ rw e (elim (Option-cases (get_admin_by_session_token token env.now w.store)) [
        | inl n ↦ rw (n, require_admin) (say-WithinLimits sid _ w ok)
        | inr (a, n) ↦ rw (n, require_admin) (update_conn-WithinLimits sid _ w.hub ok)
      ])
    ]

-- From a hub whose links agree with each other and keep the limits of the configuration, a
-- request to connect, whoever sends it and however it ends, leaves such a hub: the two ends of
-- the links agree, and every admin and every client is within the limits.
pub connect-WithinLimits :
    (env : Env) (m : Manager) (sid : String) (msg : Msg) (w : World)
    → WithinLimits w.hub
    → WithinLimits (handle_admin_connect_to_client env m sid msg w).hub
unfolding handle_admin_connect_to_client connect
connect-WithinLimits env m sid msg w ok =
    let w' = (require_admin env sid msg w).1 in
    let ok' = require_admin-WithinLimits env sid msg w ok in
    elim (Option-cases (require_admin env sid msg w).0) [
      | inl e ↦ rw (e, handle_admin_connect_to_client) ok'
      | inr (a, e) ↦
          rw (e, handle_admin_connect_to_client)
            (elim (Option-cases (named_client a msg w'.store)) [
              | inl n ↦ rw (n, connect) (say-WithinLimits sid _ w' ok')
              | inr (c, n) ↦ rw (n, connect) (connect_to-WithinLimits env m sid a c w' ok')
            ])
    ]
