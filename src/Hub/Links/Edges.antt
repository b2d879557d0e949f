-- ===== src/Hub/Links/Edges.antt =====
-- The link maps as sets of edges (internal/hub/hub.go, hub_viewers.go).
use go_signing_server_anywhe.Prelude.{
  String, ◌≡◌, refl, ap, inl, inr, Bool, false, not, ◌&&◌, ◌||◌, none, some, List, [], ◌∷◌, arith,
  if◌then◌else◌, Bool-cases, Option-cases, ◌==◌, nat_eq, int_eq, string_eq, string_beq_iff, keep,
  has, add, remove, has-add, has-remove,
}
use go_signing_server_anywhe.Prelude.Map.{get, put, del, get-put, get-del}
use go_signing_server_anywhe.Hub.Types.{LinkMap}
use go_signing_server_anywhe.Hub.Links.{targets, add_edge, store_set, remove_edge, drop_targets}

-- The edge from `k` to `x` is in the map.
unfoldable pub linked : String → String → LinkMap → Bool
linked k x m = has x (targets k m)

pub linked-put :
    (k j x : String) (s : List String) (m : LinkMap)
    → linked j x (put k s m) ≡ (if k == j then has x s else linked j x m)
unfolding linked targets
linked-put k j x s m = ground (arith, get-put k j s m)

pub linked-del :
    (k j x : String) (m : LinkMap) → linked j x (del k m) ≡ (if k == j then false else linked j x m)
unfolding linked targets has
linked-del k j x m = ground (arith, get-del k j m)

pub linked-store_set :
    (k j x : String) (s : List String) (m : LinkMap)
    → linked j x (store_set k s m) ≡ (if k == j then has x s else linked j x m)
unfolding store_set has
linked-store_set k j x [] m = linked-del k j x m
linked-store_set k j x (y ∷ s) m = linked-put k j x (y ∷ s) m

pub linked_lem : (k x : String) (m : LinkMap) → linked k x m ≡ has x (targets k m)
unfolding linked
linked_lem k x m = refl

pub linked-add_edge :
    (k x j y : String) (m : LinkMap)
    → linked j y (add_edge k x m) ≡ ((k == j && x == y) || linked j y m)
unfolding add_edge
linked-add_edge k x j y m = ground (
  arith,
  linked-put k j y (add x (targets k m)) m,
  has-add x y (targets k m),
  string_beq_iff k j,
  linked_lem k y m,
)

pub linked_absent : (k x : String) (m : LinkMap) → get k m ≡ none → linked k x m ≡ false
unfolding linked targets has
linked_absent k x m e = rw (e, targets) refl

pub linked_present :
    (k x : String) (m : LinkMap) (s : List String) → get k m ≡ some s → linked k x m ≡ has x s
unfolding linked targets
linked_present k x m s e = rw (e, targets) refl

pub linked-remove_edge :
    (k x j y : String) (m : LinkMap)
    → linked j y (remove_edge k x m) ≡ (not (k == j && x == y) && linked j y m)
unfolding remove_edge
linked-remove_edge k x j y m = elim (Option-cases (get k m)) [
  | inl e ↦ rw (e, remove_edge) (ground (arith, string_beq_iff k j, linked_absent k y m e))
  | inr (s, e) ↦
      rw (e, remove_edge)
        (ground (
          arith,
          linked-store_set k j y (remove x s) m,
          has-remove x y s,
          string_beq_iff k j,
          linked_present k y m s e,
        ))
]

-- The loop of the clean-ups: what stays of the targets, and what is cut from the other side.
pub drop_targets-kept :
    (gone : String → Bool) (a : String) (cs : List String) (cvl : LinkMap)
    → (drop_targets gone a cs cvl).0 ≡ keep (λ c. not (gone c)) cs
unfolding drop_targets keep
drop_targets-kept gone a [] cvl = refl
drop_targets-kept gone a (c ∷ cs) cvl = elim (Bool-cases (gone c)) [
  | inl e ↦ rw e (drop_targets-kept gone a cs (remove_edge c a cvl))
  | inr e ↦ rw e (ap (λ l. c ∷ l) (drop_targets-kept gone a cs cvl))
]

pub linked-drop_targets :
    (gone : String → Bool) (a : String) (cs : List String) (cvl : LinkMap) (j y : String)
    → linked j y (drop_targets gone a cs cvl).1
      ≡ (not (has j cs && gone j && a == y) && linked j y cvl)
unfolding drop_targets has
linked-drop_targets gone a [] cvl j y = refl
linked-drop_targets gone a (c ∷ cs) cvl j y = elim (Bool-cases (gone c)) [
  | inl e ↦ rw e (
      ground (
        arith,
        linked-drop_targets gone a cs (remove_edge c a cvl) j y,
        linked-remove_edge c a j y cvl,
        string_beq_iff c j,
      ))
  | inr e ↦ rw e (ground (arith, linked-drop_targets gone a cs cvl j y, string_beq_iff c j))
]
