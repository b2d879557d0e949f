-- ===== src/Hub/Links/Purge.antt =====
-- The background purge of the viewer links (internal/hub/hub_viewers.go).
use go_signing_server_anywhe.Prelude.{
  ℕ, ◌+◌, String, ◌≡◌, refl, Bool, false, not, ◌&&◌, List, [], ◌∷◌, arith, if◌then◌else◌, ◌==◌,
  nat_eq, int_eq, string_eq, string_beq_iff, length, keep, count, has,
}
use go_signing_server_anywhe.Prelude.Map.{get, holds, get-holds, IsMap}
use go_signing_server_anywhe.Hub.Types.{Hub, LinkMap}
use go_signing_server_anywhe.Hub.Links.{
  targets, drop_targets, cons_set, purge_entries, purge_orphan_viewer_links, is_live_socket,
}
use go_signing_server_anywhe.Hub.Links.Edges.{
  linked, linked-drop_targets, linked_absent, drop_targets-kept,
}
use go_signing_server_anywhe.Hub.Links.Clean.{IsLinked, Cuts, has-keep}

-- How many edges a map holds.
unfoldable pub edges : LinkMap → ℕ
edges [] = 0
edges ((k, s) ∷ m) = length s + edges m

linked-cons :
    (k j x : String) (s : List String) (m : LinkMap)
    → linked j x ((k, s) ∷ m) ≡ (if k == j then has x s else linked j x m)
unfolding linked targets get
linked-cons k j x s m = ground arith

linked-cons_set :
    (k j x : String) (s : List String) (m : LinkMap)
    → linked k x m ≡ false
    → linked j x (cons_set k s m) ≡ (if k == j then has x s else linked j x m)
unfolding cons_set has
linked-cons_set k j x [] m e = ground (arith, string_beq_iff k j)
linked-cons_set k j x (y ∷ s) m e = linked-cons k j x (y ∷ s) m

edges-cons_set :
    (k : String) (s : List String) (m : LinkMap) → edges (cons_set k s m) ≡ length s + edges m
unfolding edges cons_set
edges-cons_set k [] m = omega arith
edges-cons_set k (x ∷ s) m = omega arith

linked-nil : (j x : String) → linked j x [] ≡ false
unfolding linked targets get has
linked-nil j x = refl

linked-holds : (k x : String) (m : LinkMap) → holds k m ≡ false → linked k x m ≡ false
linked-holds k x m e = linked_absent k x m (get-holds k m e)

length-split :
    (p : String → Bool) (xs : List String)
    → length (keep (λ x. not (p x)) xs) + count p xs ≡ length xs
unfolding keep count
length-split p [] = refl
length-split p (x ∷ xs) = ground (arith, length-split p xs)

module _ (gone : String → Bool) where
  purge_admins :
      (m cvl : LinkMap) (n : ℕ) (j y : String)
      → IsMap m
      → linked j y (purge_entries gone m cvl n).0 ≡ (not (gone y) && linked j y m)
  unfolding purge_entries
  purge_admins [] cvl n j y h = ground (arith, linked-nil j y)
  purge_admins ((k, s) ∷ m) cvl n j y h =
      let (kept, cvl') = drop_targets gone k s cvl in
      let n' = n + count gone s in
      ground (
        arith,
        linked-cons_set k j y kept (purge_entries gone m cvl' n').0,
        linked-cons k j y s m,
        linked-holds k y m h.0,
        purge_admins m cvl' n' j y h.1,
        purge_admins m cvl' n' k y h.1,
        drop_targets-kept gone k s cvl,
        has-keep (λ c. not (gone c)) y s,
        string_beq_iff k j,
      )

  purge_clients :
      (m cvl : LinkMap) (n : ℕ) (c a : String)
      → IsMap m
      → linked c a (purge_entries gone m cvl n).1 ≡ (not (gone c && linked a c m) && linked c a cvl)
  unfolding purge_entries
  purge_clients [] cvl n c a h = ground (arith, linked-nil a c)
  purge_clients ((k, s) ∷ m) cvl n c a h =
      let (kept, cvl') = drop_targets gone k s cvl in
      let n' = n + count gone s in
      ground (
        arith,
        linked-cons k a c s m,
        linked-holds k c m h.0,
        purge_clients m cvl' n' c a h.1,
        linked-drop_targets gone k s cvl c a,
        string_beq_iff k a,
      )

  purge_edges :
      (m cvl : LinkMap) (n : ℕ)
      → edges (purge_entries gone m cvl n).0 + (purge_entries gone m cvl n).2 ≡ edges m + n
  unfolding purge_entries edges
  purge_edges [] cvl n = refl
  purge_edges ((k, s) ∷ m) cvl n =
      let (kept, cvl') = drop_targets gone k s cvl in
      ground (
        arith,
        edges-cons_set k (drop_targets gone k s cvl).0
            (purge_entries gone m (drop_targets gone k s cvl).1 (n + count gone s)).0,
        purge_edges m (drop_targets gone k s cvl).1 (n + count gone s),
        drop_targets-kept gone k s cvl,
        length-split gone s,
      )

-- On links that agree with each other, the purge cuts exactly the edges whose client socket is
-- gone, and reports how many it cut.
pub purge-Cuts :
    (h : Hub)
    → IsLinked h
    → Cuts (λ a c. not (is_live_socket h.conns c)) h (purge_orphan_viewer_links h).0
      × (edges (purge_orphan_viewer_links h).0.admin_viewer_links + (purge_orphan_viewer_links h).1
          ≡ edges h.admin_viewer_links)
unfolding purge_orphan_viewer_links
purge-Cuts h ok =
    let gone = λ (c : String). not (is_live_socket h.conns c) in
    (
      (λ a c. (
        purge_admins gone h.admin_viewer_links h.client_viewer_links 0 a c ok.admins,
        ground (
          arith,
          purge_clients gone h.admin_viewer_links h.client_viewer_links 0 c a ok.admins,
          ok.same a c,
        ),
      )),
      ground (arith, purge_edges gone h.admin_viewer_links h.client_viewer_links 0),
    )
