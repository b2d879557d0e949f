-- ===== src/Hub/Links/Counts.antt =====
-- How long the entries of the link maps are (internal/hub/hub.go, hub_viewers.go).
use go_signing_server_anywhe.Prelude.{
  ℕ, ◌≤◌, ◌<◌, String, ◌≡◌, refl, ap, ◌⊎◌, inl, inr, Bool, true, not, some, List, [], ◌∷◌, arith,
  if◌then◌else◌, Bool-cases, Option-cases, ◌==◌, nat_eq, int_eq, string_eq, string_beq, length,
  length-keep-le, has, add, remove, length-remove-le,
}
use go_signing_server_anywhe.Prelude.Map.{get, put, del, get-put, get-del}
use go_signing_server_anywhe.Hub.Types.{Hub, LinkMap}
use go_signing_server_anywhe.Hub.Links.{
  targets, add_edge, store_set, remove_edge, drop_targets, drop_links,
}
use go_signing_server_anywhe.Hub.Links.Edges.{drop_targets-kept}

-- No entry of the map is longer than a limit.
abbrev pub AtMost : ℕ → LinkMap → Type 0
AtMost n m = (k : String) → length (targets k m) ≤ n

targets-put :
    (k j : String) (s : List String) (m : LinkMap)
    → targets j (put k s m) ≡ (if k == j then s else targets j m)
unfolding targets
targets-put k j s m = ground (arith, get-put k j s m)

targets-del :
    (k j : String) (m : LinkMap) → targets j (del k m) ≡ (if k == j then [] else targets j m)
unfolding targets
targets-del k j m = ground (arith, get-del k j m)

put-AtMost :
    (n : ℕ) (k : String) (s : List String) (m : LinkMap)
    → length s ≤ n
    → AtMost n m
    → AtMost n (put k s m)
put-AtMost n k s m l b j =
    rw (targets-put k j s m)
      (elim (Bool-cases (string_beq k j)) [ inl e ↦ rw e l | inr e ↦ rw e (b j) ])

store_set-AtMost :
    (n : ℕ) (k : String) (s : List String) (m : LinkMap)
    → length s ≤ n
    → AtMost n m
    → AtMost n (store_set k s m)
unfolding store_set
store_set-AtMost n k [] m l b j =
    rw (targets-del k j m)
      (elim (Bool-cases (string_beq k j)) [ inl e ↦ rw e l | inr e ↦ rw e (b j) ])
store_set-AtMost n k (x ∷ s) m l b j = put-AtMost n k (x ∷ s) m l b j

targets_present : (k : String) (m : LinkMap) (s : List String) → get k m ≡ some s → targets k m ≡ s
unfolding targets
targets_present k m s e = rw (e, targets) refl

remove_edge-AtMost :
    (n : ℕ) (k x : String) (m : LinkMap) → AtMost n m → AtMost n (remove_edge k x m)
unfolding remove_edge
remove_edge-AtMost n k x m b = elim (Option-cases (get k m)) [
  | inl e ↦ rw (e, remove_edge) b
  | inr (s, e) ↦
      rw (e, remove_edge)
        (store_set-AtMost n k (remove x s) m
          (omega (arith, length-remove-le x s, ap length (targets_present k m s e), b k)) b)
]

drop_targets-AtMost :
    (n : ℕ) (gone : String → Bool) (a : String) (cs : List String) (cvl : LinkMap)
    → AtMost n cvl
    → AtMost n (drop_targets gone a cs cvl).1
unfolding drop_targets
drop_targets-AtMost n gone a [] cvl b = b
drop_targets-AtMost n gone a (c ∷ cs) cvl b = elim (Bool-cases (gone c)) [
  | inl e ↦
      rw e (drop_targets-AtMost n gone a cs (remove_edge c a cvl) (remove_edge-AtMost n c a cvl b))
  | inr e ↦ rw e (drop_targets-AtMost n gone a cs cvl b)
]

pub drop_links-AtMost :
    (gone : String → Bool) (a : String) (h : Hub) (n n' : ℕ)
    → AtMost n h.admin_viewer_links
    → AtMost n' h.client_viewer_links
    → AtMost n (drop_links gone a h).admin_viewer_links
      × AtMost n' (drop_links gone a h).client_viewer_links
unfolding drop_links
drop_links-AtMost gone a h n n' b b' =
    let set = targets a h.admin_viewer_links in
    (
      store_set-AtMost n a _ h.admin_viewer_links
          (omega (
            arith,
            ap length (drop_targets-kept gone a set h.client_viewer_links),
            length-keep-le (λ c. not (gone c)) set,
            b a,
          ))
          b,
      drop_targets-AtMost n' gone a set h.client_viewer_links b',
    )

-- An edge is added where it is already, or where there is room for one more.
pub add_edge-AtMost :
    (n : ℕ) (k x : String) (m : LinkMap)
    → (has x (targets k m) ≡ true) ⊎ (length (targets k m) < n)
    → AtMost n m
    → AtMost n (add_edge k x m)
unfolding add_edge add
add_edge-AtMost n k x m room b =
    put-AtMost n k (add x (targets k m)) m (ground (arith, room, b k)) b
