-- ===== src/Hub/Links.antt =====
-- The viewer links: who views whom (internal/hub/hub.go, hub_viewers.go).
-- A link of an admin's socket and a client's socket is an edge, kept from both ends.
pub mod Edges
pub mod Clean
pub mod Purge
pub mod Counts
use go_signing_server_anywhe.Prelude.{
  ℕ, zero, suc, ◌+◌, ◌-◌, ◌*◌, ◌/◌, ◌%◌, ◌^◌, ◌≤◌, ◌<◌, String, ◌≡◌, refl, sym, ap, ◌∙◌, ◌≢◌, ◌↔◌,
  ◌⊎◌, inl, inr, Bool, true, false, not, ◌&&◌, ◌||◌, Option, none, some, List, [], ◌∷◌, ◌++◌, map,
  arith, eq_iff, ltb, leb, nat_beq, if◌then◌else◌, ltb→lt, lt→ltb, leb→le, nat_beq_iff, tests,
  Bool-cases, Option-cases, ℤ, pos, negsuc, pos_part, neg_part, sub_ℕ, ◌+ℤ◌, ◌-ℤ◌, ◌≤ℤ◌, ◌<ℤ◌,
  ltb_ℤ, leb_ℤ, int_beq, int_beq_iff, Eq, ◌==◌, ◌!=◌, nat_eq, int_eq, string_eq, string_beq,
  string_beq_iff, beq_refl, length, take, keep, count, length-append, length-keep-le,
  length-keep-count, keep-append, has, add, remove, IsSetList, has-add, has-remove, add-IsSetList,
  remove-IsSetList, remove_absent, length-remove, length-remove-le,
}
use go_signing_server_anywhe.Prelude.Map.{
  get, put, del, get-put, get-del, holds, get-holds, holds-put, holds-del, IsMap, put-IsMap,
  del-IsMap,
}
use go_signing_server_anywhe.Hub.Types.{
  Hub, Conn, Conns, LinkMap, ClientIdentity, AdminIdentity, ConnKind, client, kind_eq, send_conn,
}
use go_signing_server_anywhe.Hub.Types.Json.{Msg, Value, str}

-- The inner map, which is nil and reads as empty where the key is missing.
unfoldable pub targets : String → LinkMap → List String
targets k m = elim (get k m) [ none ↦ [] | some s ↦ s ]

unfoldable pub add_edge : String → String → LinkMap → LinkMap
add_edge k x m = put k (add x (targets k m)) m

-- A set is stored again, or its key deleted when nothing is left of it.
unfoldable pub store_set : String → List String → LinkMap → LinkMap
store_set k [] m = del k m
store_set k (x ∷ s) m = put k (x ∷ s) m

unfoldable pub remove_edge : String → String → LinkMap → LinkMap
remove_edge k x m = elim (get k m) [ none ↦ m | some s ↦ store_set k (remove x s) m ]

unfoldable pub link_viewer : String → String → Hub → Hub
link_viewer admin_sid client_sid h = record h {
  admin_viewer_links = add_edge admin_sid client_sid h.admin_viewer_links;
  client_viewer_links = add_edge client_sid admin_sid h.client_viewer_links;
}

unfoldable pub unlink_viewer : String → String → Hub → Hub
unlink_viewer admin_sid client_sid h = record h {
  admin_viewer_links = remove_edge admin_sid client_sid h.admin_viewer_links;
  client_viewer_links = remove_edge client_sid admin_sid h.client_viewer_links;
}

unfoldable pub count_admin_targets : String → Hub → ℕ
count_admin_targets admin_sid h = length (targets admin_sid h.admin_viewer_links)

unfoldable pub count_client_viewers : String → Hub → ℕ
count_client_viewers client_sid h = length (targets client_sid h.client_viewer_links)

unfoldable pub admin_already_viewing : String → String → Hub → Bool
admin_already_viewing admin_sid client_sid h =
    has client_sid (targets admin_sid h.admin_viewer_links)

unfoldable pub is_live_socket : Conns → String → Bool
is_live_socket conns sid = elim (get sid conns) [ none ↦ false | some _ ↦ true ]

-- `c != nil && c.client != nil && c.client.ID == id`
unfoldable pub serves_client : ℤ → Option Conn → Bool
serves_client id none = false
serves_client id (some c) = elim c.client [ none ↦ false | some who ↦ who.id == id ]

-- The loop that the three clean-ups share: the targets that `gone` names leave the admin's set,
-- and the admin leaves theirs. The result holds the targets that stay.
unfoldable pub drop_targets :
    (String → Bool) → String → List String → LinkMap → List String × LinkMap
drop_targets gone admin_sid [] cvl = ([], cvl)
drop_targets gone admin_sid (c ∷ cs) cvl =
    let (kept, cvl') =
      drop_targets gone admin_sid cs (if gone c then remove_edge c admin_sid cvl else cvl) in
    ((if gone c then kept else c ∷ kept), cvl')

-- One clean-up of the set of one admin.
unfoldable pub drop_links : (String → Bool) → String → Hub → Hub
unfolding drop_targets
drop_links gone admin_sid h =
    let (kept, cvl) =
      drop_targets gone admin_sid (targets admin_sid h.admin_viewer_links) h.client_viewer_links in
    record h {
      admin_viewer_links = store_set admin_sid kept h.admin_viewer_links;
      client_viewer_links = cvl;
    }

-- An entry of the outer map, left out where its set is empty.
unfoldable pub cons_set : String → List String → LinkMap → LinkMap
cons_set k [] m = m
cons_set k (x ∷ s) m = (k, x ∷ s) ∷ m

-- The outer loop of `purgeOrphanViewerLinks`, over the entries of `adminViewerLinks`.
unfoldable pub purge_entries : (String → Bool) → LinkMap → LinkMap → ℕ → LinkMap × LinkMap × ℕ
purge_entries gone [] cvl removed = ([], cvl, removed)
purge_entries gone ((admin_sid, set) ∷ rest) cvl removed =
    let (kept, cvl') = drop_targets gone admin_sid set cvl in
    let (avl, cvl'', n) = purge_entries gone rest cvl' (removed + count gone set) in
    (cons_set admin_sid kept avl, cvl'', n)

unfoldable pub purge_orphan_viewer_links : Hub → Hub × ℕ
unfolding purge_entries
purge_orphan_viewer_links h =
    let (avl, cvl, n) =
      purge_entries (λ sid. not (is_live_socket h.conns sid)) h.admin_viewer_links
        h.client_viewer_links 0 in
    (record h { admin_viewer_links = avl; client_viewer_links = cvl }, n)

-- What `unlinkAdminFromStaleClientSockets` drops: the client's other sockets, and dead ones.
unfoldable pub is_stale : Conns → ℤ → String → String → Bool
is_stale conns client_id live_sid old_sid =
    old_sid != live_sid
    && (serves_client client_id (get old_sid conns) || not (is_live_socket conns old_sid))

-- The name under which an admin's socket is announced to a client.
unfoldable pub admin_name : Option Conn → String
admin_name none = "Admin"
admin_name (some c) = elim c.admin [ none ↦ "Admin" | some a ↦ a.full_name ]

abbrev pub agent_disconnected : String → String → Msg
agent_disconnected admin_sid name =
    ("type", str "agent-disconnected")
    ∷ ("agentSocketId", str admin_sid)
    ∷ ("agentName", str name)
    ∷ []

-- `c != nil && c.kind == kind`
unfoldable pub is_of_kind : ConnKind → Option Conn → Bool
is_of_kind kind none = false
is_of_kind kind (some c) = kind_eq c.kind kind

-- The loop over `notify`: each socket that still is a client's is told.
unfoldable pub notify_clients : List String → Msg → Hub → Hub
notify_clients [] m h = h
notify_clients (sid ∷ sids) m h =
    notify_clients sids m (if is_of_kind client (get sid h.conns) then send_conn sid m h else h)

unfoldable pub unlink_admin_from_stale_client_sockets : String → ℤ → String → Hub → Hub
unfolding drop_links is_stale
unlink_admin_from_stale_client_sockets admin_sid client_id live_sid h =
    elim (get admin_sid h.admin_viewer_links) [
      | none ↦ h
      | some set ↦
          let notify =
            keep (λ sid. (sid != live_sid) && serves_client client_id (get sid h.conns)) set in
          notify_clients notify (agent_disconnected admin_sid (admin_name (get admin_sid h.conns)))
            (drop_links (is_stale h.conns client_id live_sid) admin_sid h)
    ]

-- The result counts the links that were dropped.
unfoldable pub unlink_admin_from_client : String → ℤ → Hub → Hub × ℕ
unfolding drop_links
unlink_admin_from_client admin_sid client_id h = elim (get admin_sid h.admin_viewer_links) [
  | none ↦ (h, 0)
  | some set ↦
      let gone = λ (sid : String). serves_client client_id (get sid h.conns) in
      let notify = keep gone set in
      (
        notify_clients notify (agent_disconnected admin_sid (admin_name (get admin_sid h.conns)))
            (drop_links gone admin_sid h),
        length notify,
      )
]
