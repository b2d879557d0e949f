-- ===== src/Ice/Pool/Failover.antt =====
-- Trying one lane after another (internal/ice/realtime_pool.go).
use go_signing_server_anywhe.Prelude.{
  ℕ, ◌+◌, ◌≡◌, refl, ◌∙◌, ◌≢◌, inl, inr, true, false, Option, none, some, List, [], ◌∷◌, arith,
  nat_beq, if◌then◌else◌, nat_beq_iff, Bool-cases, Option-cases, ◌==◌, nat_eq, int_eq, string_eq,
  has, IsSetList,
}
use go_signing_server_anywhe.Ice.Pool.{
  ProviderPool, RealtimeOp, is_usable, has_realtime, mark_failure, lane_by_id, lane_order,
  run_lanes, run_realtime, lane_configured,
}
use go_signing_server_anywhe.Ice.Pool.Health.{mark_failure-other, mark_failure-lanes}
use go_signing_server_anywhe.Ice.Pool.Order.{lane_order-exact}

-- A lane that is usable stays so while time goes by.
is_usable-later :
    (p : ProviderPool) (now d lane : ℕ)
    → is_usable p now lane ≡ true
    → is_usable p (now + d) lane ≡ true
unfolding is_usable
is_usable-later p now d lane h = ground arith

module _ {ℓ} {A : Type ℓ} (op : RealtimeOp A) where
  -- The call of a lane at a time, with how long it takes: none where the lane is not configured for
  -- calls or is cooling down.
  unfoldable pub try : ProviderPool → ℕ → ℕ → Option (Option A × ℕ)
  try p now lane =
      if is_usable p now lane
      then (elim (lane_by_id lane p.lanes) [
        | none ↦ none
        | some l ↦ if has_realtime l then some (op l) else none
      ])
      else none

  -- What a call gives, or what is left to try once it is over.
  unfoldable pub or_later : ℕ → ℕ → Option (Option A × ℕ) → (ℕ → Option (A × ℕ)) → Option (A × ℕ)
  or_later now lane none rest = rest now
  or_later now lane (some r) rest = elim r.0 [
    | none ↦ rest (now + r.1)
    | some out ↦ some (out, lane)
  ]

  -- The first lane that answers, each lane being asked when the calls before it are over. The
  -- health of the lanes is that of `p` all along.
  unfoldable pub first_answer : ProviderPool → ℕ → List ℕ → Option (A × ℕ)
  unfolding try or_later
  first_answer p now [] = none
  first_answer p now (lane ∷ rest) = or_later now lane (try p now lane) (λ t. first_answer p t rest)

  try-other :
      (t lane now other : ℕ) (p : ProviderPool)
      → (lane == other) ≡ false
      → try (mark_failure t lane p) now other ≡ try p now other
  unfolding try
  try-other t lane now other p h =
      rw (mark_failure-other t now lane other p h, mark_failure-lanes t lane p) refl

  or_later-same :
      (now lane : ℕ) (o : Option (Option A × ℕ)) (f g : ℕ → Option (A × ℕ))
      → ((t : ℕ) → f t ≡ g t)
      → or_later now lane o f ≡ or_later now lane o g
  unfolding or_later
  or_later-same now lane none f g h = h now
  or_later-same now lane (some r) f g h = elim (Option-cases r.0) [
    | inl e ↦ rw e (h (now + r.1))
    | inr (out, e) ↦ rw e refl
  ]

  first_answer-other :
      (t lane : ℕ) (p : ProviderPool) (order : List ℕ) (now : ℕ)
      → has lane order ≡ false
      → first_answer (mark_failure t lane p) now order ≡ first_answer p now order
  unfolding first_answer has
  first_answer-other t lane p [] now h = refl
  first_answer-other t lane p (x ∷ xs) now h =
      rw (try-other t lane now x p (ground (arith, nat_beq_iff x lane, nat_beq_iff lane x))) (
        or_later-same now x (try p now x) _ _
          (λ u. first_answer-other t lane p xs u (ground arith)))

  run_lanes-first :
      (order : List ℕ) (now : ℕ) (p : ProviderPool)
      → IsSetList order
      → (run_lanes op now order p).0 ≡ first_answer p now order
  unfolding run_lanes first_answer or_later try
  run_lanes-first [] now p s = refl
  run_lanes-first (lane ∷ rest) now p (fresh, s) = elim (Option-cases (lane_by_id lane p.lanes)) [
    | inl e ↦ ground (arith, e, run_lanes-first rest now p s)
    | inr (l, e) ↦
        let over = now + (op l).1 in
        ground (
          arith,
          e,
          run_lanes-first rest now p s,
          run_lanes-first rest over (mark_failure over lane p) s,
          first_answer-other over lane p rest over fresh,
        )
  ]

  -- `RunRealtime` answers what the first lane in its order answers that is usable when its turn
  -- comes, the calls before it having taken their time. The failures on the way, which change the
  -- health of their own lanes and the preferred lane, do not change what a later lane is asked.
  pub run_realtime-first :
      (now preferred : ℕ) (p : ProviderPool)
      → (run_realtime op now preferred p).0 ≡ first_answer p now (lane_order p preferred)
  unfolding run_realtime
  run_realtime-first now preferred p =
      run_lanes-first (lane_order p preferred) now p (lane_order-exact p preferred).0

  try-later :
      (p : ProviderPool) (now d lane : ℕ) (r : Option A × ℕ)
      → try p now lane ≡ some r
      → try p (now + d) lane ≡ some r
  unfolding try
  try-later p now d lane r h = ground (arith, is_usable-later p now d lane)

  or_later-answer :
      (now lane : ℕ) (out : A) (took : ℕ) (f : ℕ → Option (A × ℕ))
      → or_later now lane (some (some out, took)) f ≢ none
  unfolding or_later
  or_later-answer now lane out took f e = absurd (ground (arith, e))

  or_later-some :
      (now lane : ℕ) (o : Option (Option A × ℕ)) (f : ℕ → Option (A × ℕ))
      → f now ≢ none
      → ((d : ℕ) → f (now + d) ≢ none)
      → or_later now lane o f ≢ none
  unfolding or_later
  or_later-some now lane none f h k = h
  or_later-some now lane (some r) f h k = elim (Option-cases r.0) [
    | inl e ↦ rw e (k r.1)
    | inr (out, e) ↦ rw e (λ x. absurd (ground (arith, x)))
  ]

  some_lane_answers :
      (lane : ℕ) (out : A) (took : ℕ) (p : ProviderPool) (order : List ℕ) (now : ℕ)
      → try p now lane ≡ some (some out, took)
      → has lane order ≡ true
      → first_answer p now order ≢ none
  unfolding first_answer has
  some_lane_answers lane out took p [] now t h = absurd (ground arith)
  some_lane_answers lane out took p (x ∷ xs) now t h = elim (Bool-cases (nat_beq x lane)) [
    | inl b ↦
        rw ((nat_beq_iff x lane).0 b, t)
          (λ e. or_later-answer now lane out took (λ u. first_answer p u xs) e)
    | inr b ↦
        or_later-some now x (try p now x) _
          (some_lane_answers lane out took p xs now t (ground (arith, b)))
          (λ d.
            some_lane_answers lane out took p xs (now + d) (try-later p now d lane _ t)
              (ground (arith, b)))
  ]

  -- `RunRealtime` fails only where no lane can answer: with a configured lane that is usable as it
  -- starts and whose call succeeds, it has an answer, however long the calls before it take.
  pub run_realtime-answers :
      (now preferred lane : ℕ) (out : A) (took : ℕ) (p : ProviderPool)
      → lane_configured lane p.lanes ≡ true
      → try p now lane ≡ some (some out, took)
      → (run_realtime op now preferred p).0 ≢ none
  run_realtime-answers now preferred lane out took p c t = rw (run_realtime-first now preferred p) (
      some_lane_answers lane out took p (lane_order p preferred) now t
        ((lane_order-exact p preferred).1 lane ∙ c))
