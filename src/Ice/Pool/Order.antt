-- ===== src/Ice/Pool/Order.antt =====
-- The order in which the lanes are tried (internal/ice/cloudflare_provider.go, LaneOrder).
use go_signing_server_anywhe.Prelude.{
  ℕ, ◌≡◌, refl, inl, inr, true, false, not, ◌&&◌, ◌||◌, List, [], ◌∷◌, ◌++◌, arith, nat_beq,
  nat_beq_iff, Bool-cases, ◌!=◌, nat_eq, int_eq, string_eq, has, IsSetList,
}
use go_signing_server_anywhe.Ice.Pool.{
  CloudflareLane, ProviderPool, lane_configured, add_lane, add_lanes, add_preferred, lane_order,
}

has-append : (a : ℕ) (xs ys : List ℕ) → has a (xs ++ ys) ≡ (has a xs || has a ys)
unfolding has
has-append a [] ys = refl
has-append a (x ∷ xs) ys = ground (arith, has-append a xs ys)

append-IsSetList :
    (a : ℕ) (xs : List ℕ) → IsSetList xs → has a xs ≡ false → IsSetList (xs ++ a ∷ [])
unfolding has
append-IsSetList a [] s h = (refl, record {})
append-IsSetList a (x ∷ xs) (fresh, s) h = (
  ground (arith, has-append x xs (a ∷ []), nat_beq_iff a x, nat_beq_iff x a),
  append-IsSetList a xs s (ground arith),
)

-- What holds of the lanes that are gathered so far.
Gathered : List CloudflareLane → List ℕ → Type 0
Gathered lanes out = IsSetList out × ((x : ℕ) → has x out ≡ true → lane_configured x lanes ≡ true)

has-add_lane :
    (lanes : List CloudflareLane) (lane x : ℕ) (out : List ℕ)
    → has x (add_lane lanes lane out)
      ≡ (has x out || (nat_beq lane x && lane_configured lane lanes))
unfolding add_lane has
has-add_lane lanes lane x out = ground (arith, has-append x out (lane ∷ []), nat_beq_iff lane x)

add_lane-IsSetList :
    (lanes : List CloudflareLane) (lane : ℕ) (out : List ℕ)
    → IsSetList out
    → IsSetList (add_lane lanes lane out)
unfolding add_lane
add_lane-IsSetList lanes lane out s = elim (Bool-cases (lane_configured lane lanes)) [
  | inr c ↦ rw c s
  | inl c ↦ rw c (elim (Bool-cases (has lane out)) [
    | inl h ↦ rw h s
    | inr h ↦ rw h (append-IsSetList lane out s h)
  ])
]

add_preferred-IsSetList :
    (lanes : List CloudflareLane) (lane : ℕ) (out : List ℕ)
    → IsSetList out
    → IsSetList (add_preferred lanes lane out)
unfolding add_preferred
add_preferred-IsSetList lanes lane out s = elim (Bool-cases (lane != 0)) [
  | inl h ↦ rw h (add_lane-IsSetList lanes lane out s)
  | inr h ↦ rw h s
]

add_lanes-IsSetList :
    (lanes ls : List CloudflareLane) (out : List ℕ)
    → IsSetList out
    → IsSetList (add_lanes lanes ls out)
unfolding add_lanes
add_lanes-IsSetList lanes [] out s = s
add_lanes-IsSetList lanes (l ∷ ls) out s =
    add_lanes-IsSetList lanes ls (add_lane lanes l.lane out) (add_lane-IsSetList lanes l.lane out s)

has-add_lanes :
    (lanes ls : List CloudflareLane) (x : ℕ) (out : List ℕ)
    → has x (add_lanes lanes ls out)
      ≡ (has x out || (lane_configured x ls && lane_configured x lanes))
unfolding add_lanes lane_configured
has-add_lanes lanes [] x out = ground arith
has-add_lanes lanes (l ∷ ls) x out = ground (
  arith,
  has-add_lanes lanes ls x (add_lane lanes l.lane out),
  has-add_lane lanes l.lane x out,
  nat_beq_iff l.lane x,
)

has-add_preferred :
    (lanes : List CloudflareLane) (lane x : ℕ) (out : List ℕ)
    → has x (add_preferred lanes lane out)
      ≡ (has x out || (nat_beq lane x && lane_configured lane lanes && not (nat_beq lane 0)))
unfolding add_preferred
has-add_preferred lanes lane x out = ground (arith, has-add_lane lanes lane x out)

has_nil : (x : ℕ) → has x [] ≡ false
unfolding has
has_nil x = refl

-- The lanes to try are the configured ones, each once, whatever is preferred.
pub lane_order-exact :
    (p : ProviderPool) (preferred : ℕ)
    → IsSetList (lane_order p preferred)
      × ((x : ℕ) → has x (lane_order p preferred) ≡ lane_configured x p.lanes)
unfolding lane_order
lane_order-exact p preferred = (
  add_lanes-IsSetList p.lanes p.lanes _ (
      add_preferred-IsSetList p.lanes p.prefer _
        (add_preferred-IsSetList p.lanes preferred [] (record {}))),
  λ x. ground (
    arith,
    has-add_lanes p.lanes p.lanes x
        (add_preferred p.lanes p.prefer (add_preferred p.lanes preferred [])),
    has-add_preferred p.lanes p.prefer x (add_preferred p.lanes preferred []),
    has-add_preferred p.lanes preferred x [],
    nat_beq_iff p.prefer x,
    nat_beq_iff preferred x,
    has_nil x,
  ),
)
