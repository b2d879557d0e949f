-- ===== src/Ice/Plan/Merge.antt =====
-- The merged list of servers (internal/ice/manager.go, mergeIceLists).
use go_signing_server_anywhe.Prelude.{
  String, ◌≡◌, refl, ap, inl, inr, Bool, true, false, not, ◌&&◌, ◌||◌, List, [], ◌∷◌, ◌++◌, map,
  arith, Bool-cases, nat_eq, int_eq, string_eq, string_beq_iff, has, IsSetList,
}
use go_signing_server_anywhe.Text.{is_empty}
use go_signing_server_anywhe.Ice.Plan.Servers.{
  ServerEntry, server_key, merge_list, merge_parts, merge_ice_lists,
}

abbrev pub keys : List ServerEntry → List String
keys es = map server_key es

has-append_keys : (k : String) (xs ys : List String) → has k (xs ++ ys) ≡ (has k xs || has k ys)
unfolding has
has-append_keys k [] ys = refl
has-append_keys k (x ∷ xs) ys = ground (arith, has-append_keys k xs ys)

-- What one list adds: the keys that it takes are new, differ from each other and are not empty.
merge_list-keys :
    (es : List ServerEntry) (seen : List String) (k : String)
    → (has k (keys (merge_list es seen).0)
        ≡ (has k (keys es) && not (is_empty k) && not (has k seen)))
      × (has k (merge_list es seen).1 ≡ (has k seen || (has k (keys es) && not (is_empty k))))
unfolding merge_list has
merge_list-keys [] seen k = (refl, ground arith)
merge_list-keys (e ∷ es) seen k =
    let s = merge_list-keys es seen k in
    let t = merge_list-keys es (server_key e ∷ seen) k in
    (
      ground (arith, s, t, string_beq_iff (server_key e) k),
      ground (arith, s, t, string_beq_iff (server_key e) k),
    )

merge_list-IsSetList :
    (es : List ServerEntry) (seen : List String) → IsSetList (keys (merge_list es seen).0)
unfolding merge_list has
merge_list-IsSetList [] seen = record {}
merge_list-IsSetList (e ∷ es) seen =
    let skip = merge_list-IsSetList es seen in
    let taken = merge_list-IsSetList es (server_key e ∷ seen) in
    let k = merge_list-keys es (server_key e ∷ seen) (server_key e) in
    elim (Bool-cases (is_empty (server_key e))) [
      | inl b ↦ rw b skip
      | inr b ↦ rw b (elim (Bool-cases (has (server_key e) seen)) [
        | inl s ↦ rw s skip
        | inr s ↦ rw s (ground (arith, k, string_beq_iff (server_key e) (server_key e)), taken)
      ])
    ]

map-append : (xs ys : List ServerEntry) → keys (xs ++ ys) ≡ keys xs ++ keys ys
map-append [] ys = refl
map-append (x ∷ xs) ys = ap (λ r. server_key x ∷ r) (map-append xs ys)

append_keys-IsSetList :
    (xs ys : List String)
    → IsSetList xs
    → IsSetList ys
    → ((k : String) → has k xs ≡ true → has k ys ≡ false)
    → IsSetList (xs ++ ys)
unfolding has
append_keys-IsSetList [] ys s t d = t
append_keys-IsSetList (x ∷ xs) ys (fresh, s) t d = (
  ground (arith, has-append_keys x xs ys, d x, string_beq_iff x x),
  append_keys-IsSetList xs ys s t (λ k h. d k (ground (arith, h))),
)

-- Whether a key is among the keys of the parts.
unfoldable pub has_part : String → List (List ServerEntry) → Bool
has_part k [] = false
has_part k (p ∷ ps) = has k (keys p) || has_part k ps

merge_parts-keys :
    (ps : List (List ServerEntry)) (seen : List String) (k : String)
    → has k (keys (merge_parts ps seen)) ≡ (has_part k ps && not (is_empty k) && not (has k seen))
unfolding merge_parts has has_part
merge_parts-keys [] seen k = refl
merge_parts-keys (p ∷ ps) seen k =
    let (out, seen') = merge_list p seen in
    let (q, r) = merge_list-keys p seen k in
    ground (
      arith,
      ap (λ xs. has k xs) (map-append out (merge_parts ps seen')),
      has-append_keys k (keys out) (keys (merge_parts ps seen')),
      q,
      r,
      merge_parts-keys ps seen' k,
    )

merge_parts-IsSetList :
    (ps : List (List ServerEntry)) (seen : List String) → IsSetList (keys (merge_parts ps seen))
unfolding merge_parts
merge_parts-IsSetList [] seen = record {}
merge_parts-IsSetList (p ∷ ps) seen =
    let (out, seen') = merge_list p seen in
    rw (map-append out (merge_parts ps seen')) (
      append_keys-IsSetList (keys out) (keys (merge_parts ps seen')) (merge_list-IsSetList p seen)
        (merge_parts-IsSetList ps seen')
        (λ k h. ground (arith, h, merge_list-keys p seen k, merge_parts-keys ps seen' k)))

has_none : (k : String) → has k [] ≡ false
unfolding has
has_none k = refl

-- The merged list has no two servers with one key, and its keys are the keys of the parts, less
-- the empty one.
pub merge_ice_lists-exact :
    (parts : List (List ServerEntry))
    → IsSetList (keys (merge_ice_lists parts))
      × ((k : String)
          → has k (keys (merge_ice_lists parts)) ≡ (has_part k parts && not (is_empty k)))
unfolding merge_ice_lists
merge_ice_lists-exact parts =
    (merge_parts-IsSetList parts [], λ k. ground (arith, merge_parts-keys parts [] k, has_none k))
