-- ===== src/Hub/Links/Clean.antt =====
-- What the linking operations do to the edges (internal/hub/hub.go, hub_viewers.go).
use go_signing_server_anywhe.Prelude.{
  String, ◌≡◌, refl, sym, ◌∙◌, inl, inr, Bool, true, false, not, ◌&&◌, ◌||◌, none, some, List, [],
  ◌∷◌, arith, if◌then◌else◌, Option-cases, ℤ, ◌==◌, nat_eq, int_eq, string_eq, string_beq_iff, keep,
  has,
}
use go_signing_server_anywhe.Prelude.Map.{get, holds, IsMap, put-IsMap, del-IsMap}
use go_signing_server_anywhe.Hub.Types.{Hub, Conns, ConnKind, LinkMap, send_conn, update_conn}
use go_signing_server_anywhe.Hub.Types.Json.{Msg}
use go_signing_server_anywhe.Hub.Links.{
  targets, store_set, drop_targets, drop_links, link_viewer, unlink_viewer, notify_clients,
  is_stale, is_live_socket, serves_client, is_of_kind, unlink_admin_from_stale_client_sockets,
  unlink_admin_from_client,
}
use go_signing_server_anywhe.Hub.Links.Edges.{
  linked, linked-store_set, linked-add_edge, linked-remove_edge, linked_absent, drop_targets-kept,
  linked-drop_targets,
}

-- The two maps hold the same edges, and each admin has one entry.
pub record IsLinked (h : Hub) : Type 0 where
  pub same : (a c : String) → linked c a h.client_viewer_links ≡ linked a c h.admin_viewer_links
  pub admins : IsMap h.admin_viewer_links

-- From `h` to `h'` exactly the edges that `gone` names were cut, at both ends.
abbrev pub Cuts : (String → String → Bool) → Hub → Hub → Type 0
Cuts gone h h' =
    (a c : String)
    → (linked a c h'.admin_viewer_links ≡ (not (gone a c) && linked a c h.admin_viewer_links))
      × (linked c a h'.client_viewer_links ≡ (not (gone a c) && linked a c h.admin_viewer_links))

pub Cuts-same :
    (gone : String → String → Bool) (h h' : Hub) (a c : String)
    → Cuts gone h h'
    → linked c a h'.client_viewer_links ≡ linked a c h'.admin_viewer_links
Cuts-same gone h h' a c cuts = (cuts a c).1 ∙ sym (cuts a c).0

pub link_viewer-linked :
    (a c : String) (h : Hub)
    → IsLinked h
    → (a' c' : String)
    → let h' = link_viewer a c h in
      (linked a' c' h'.admin_viewer_links
        ≡ ((a == a' && c == c') || linked a' c' h.admin_viewer_links))
      × (linked c' a' h'.client_viewer_links ≡ linked a' c' h'.admin_viewer_links)
unfolding link_viewer
link_viewer-linked a c h ok a' c' =
    let l = linked-add_edge a c a' c' h.admin_viewer_links in
    let r = linked-add_edge c a c' a' h.client_viewer_links in
    (l, ground (arith, l, r, ok.same a' c'))

pub unlink_viewer-Cuts :
    (a c : String) (h : Hub)
    → IsLinked h
    → Cuts (λ a' c'. a == a' && c == c') h (unlink_viewer a c h)
unfolding unlink_viewer
unlink_viewer-Cuts a c h ok a' c' =
    let l = linked-remove_edge a c a' c' h.admin_viewer_links in
    let r = linked-remove_edge c a c' a' h.client_viewer_links in
    (l, ground (arith, l, r, ok.same a' c'))

pub has-keep :
    (p : String → Bool) (x : String) (xs : List String) → has x (keep p xs) ≡ (p x && has x xs)
unfolding has keep
has-keep p x [] = ground arith
has-keep p x (y ∷ xs) = ground (arith, has-keep p x xs, string_beq_iff y x)

pub store_set-IsMap :
    (k : String) (s : List String) (m : LinkMap) → IsMap m → IsMap (store_set k s m)
unfolding store_set
store_set-IsMap k [] m h = del-IsMap k m h
store_set-IsMap k (x ∷ s) m h = put-IsMap k (x ∷ s) m h

-- One admin's clean-up cuts exactly the edges that it names.
pub drop_links-Cuts :
    (gone : String → Bool) (a : String) (h : Hub)
    → IsLinked h
    → Cuts (λ a' c. a == a' && gone c) h (drop_links gone a h)
unfolding drop_links linked
drop_links-Cuts gone a h ok a' c =
    let set = targets a h.admin_viewer_links in
    (
      ground (
        arith,
        linked-store_set a a' c (drop_targets gone a set h.client_viewer_links).0
            h.admin_viewer_links,
        drop_targets-kept gone a set h.client_viewer_links,
        has-keep (λ x. not (gone x)) c set,
        string_beq_iff a a',
      ),
      ground (
        arith,
        linked-drop_targets gone a set h.client_viewer_links c a',
        ok.same a' c,
        string_beq_iff a a',
      ),
    )

-- Sending leaves the links alone.
pub send_conn-links :
    (sid : String) (m : Msg) (h : Hub)
    → ((send_conn sid m h).admin_viewer_links ≡ h.admin_viewer_links)
      × ((send_conn sid m h).client_viewer_links ≡ h.client_viewer_links)
unfolding send_conn update_conn
send_conn-links sid m h = ground arith

pub notify_clients-links :
    (sids : List String) (m : Msg) (h : Hub)
    → ((notify_clients sids m h).admin_viewer_links ≡ h.admin_viewer_links)
      × ((notify_clients sids m h).client_viewer_links ≡ h.client_viewer_links)
unfolding notify_clients
notify_clients-links [] m h = (refl, refl)
notify_clients-links (sid ∷ sids) m h = ground (
  arith,
  notify_clients-links sids m
      (if is_of_kind ConnKind.client (get sid h.conns) then send_conn sid m h else h),
  send_conn-links sid m h,
)

Cuts-none :
    (gone : String → Bool) (a : String) (h : Hub)
    → IsLinked h
    → get a h.admin_viewer_links ≡ none
    → Cuts (λ a' c. a == a' && gone c) h h
Cuts-none gone a h ok e a' c = (
  ground (arith, linked_absent a c h.admin_viewer_links e, string_beq_iff a a'),
  ground (arith, linked_absent a c h.admin_viewer_links e, string_beq_iff a a', ok.same a' c),
)

Cuts-notify :
    (gone : String → String → Bool) (h h' : Hub) (sids : List String) (m : Msg)
    → Cuts gone h h'
    → Cuts gone h (notify_clients sids m h')
Cuts-notify gone h h' sids m cuts a c =
    let (p, q) = notify_clients-links sids m h' in (rw p (cuts a c).0, rw q (cuts a c).1)

-- A socket other than the live one that is gone, or that serves this client.
unfoldable pub superseded : Conns → ℤ → String → String → Bool
superseded conns id live sid = if sid == live then false else (elim (get sid conns) [
  | none ↦ true
  | some c ↦ elim c.client [ none ↦ false | some who ↦ who.id == id ]
])

is_stale-superseded :
    (conns : Conns) (id : ℤ) (live sid : String)
    → is_stale conns id live sid ≡ superseded conns id live sid
unfolding is_stale superseded serves_client is_live_socket holds
is_stale-superseded conns id live sid = ground arith

unlink_is_stale-Cuts :
    (a : String) (id : ℤ) (live : String) (h : Hub)
    → IsLinked h
    → Cuts
        (λ a' c. a == a' && is_stale h.conns id live c)
        h
        (unlink_admin_from_stale_client_sockets a id live h)
unfolding unlink_admin_from_stale_client_sockets
unlink_is_stale-Cuts a id live h ok = elim (Option-cases (get a h.admin_viewer_links)) [
  | inl e ↦
      rw (e, unlink_admin_from_stale_client_sockets) (Cuts-none (is_stale h.conns id live) a h ok e)
  | inr (set, e) ↦
      rw (e, unlink_admin_from_stale_client_sockets)
        (Cuts-notify (λ a' c. a == a' && is_stale h.conns id live c) h
          (drop_links (is_stale h.conns id live) a h) _ _
          (drop_links-Cuts (is_stale h.conns id live) a h ok))
]

-- On links that agree with each other, the clean-up before a connect cuts at both ends exactly the
-- edges of that admin to sockets other than the live one that are gone or serve the client. The
-- admin's edges to the live socket and to other clients stay, and so do the edges of other admins.
pub unlink_stale-Cuts :
    (a : String) (id : ℤ) (live : String) (h : Hub)
    → IsLinked h
    → Cuts
        (λ a' c. a == a' && superseded h.conns id live c)
        h
        (unlink_admin_from_stale_client_sockets a id live h)
unlink_stale-Cuts a id live h ok a' c =
    rw⁻¹ (is_stale-superseded h.conns id live c) (unlink_is_stale-Cuts a id live h ok a' c)

-- On links that agree with each other, stopping to view a client cuts at both ends exactly the
-- edges of that admin to the sockets that serve the client.
pub unlink_client-Cuts :
    (a : String) (id : ℤ) (h : Hub)
    → IsLinked h
    → Cuts
        (λ a' c. a == a' && serves_client id (get c h.conns))
        h
        (unlink_admin_from_client a id h).0
unfolding unlink_admin_from_client
unlink_client-Cuts a id h ok = elim (Option-cases (get a h.admin_viewer_links)) [
  | inl e ↦
      rw (e, unlink_admin_from_client) (Cuts-none (λ c. serves_client id (get c h.conns)) a h ok e)
  | inr (set, e) ↦
      rw (e, unlink_admin_from_client)
        (Cuts-notify (λ a' c. a == a' && serves_client id (get c h.conns)) h
          (drop_links (λ c. serves_client id (get c h.conns)) a h) _ _
          (drop_links-Cuts (λ c. serves_client id (get c h.conns)) a h ok))
]
