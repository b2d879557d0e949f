-- ===== src/Ice/Pool/Health.antt =====
-- The health of the lanes (internal/ice/cloudflare_provider.go).
use go_signing_server_anywhe.Prelude.{
  ℕ, ◌-◌, ◌≡◌, refl, ◌∙◌, inl, inr, true, false, some, arith, leb, if◌then◌else◌, nat_beq_iff,
  Option-cases, ◌==◌, nat_eq, int_eq, string_eq,
}
use go_signing_server_anywhe.Prelude.Map.{get, get-put}
use go_signing_server_anywhe.Ice.Pool.{
  ProviderPool, LaneHealth, is_usable, mark_success, mark_failure, failed_once,
}

-- The health that is read after a failure of a lane.
get-failed :
    (now lane other : ℕ) (h : LaneHealth) (p : ProviderPool)
    → get lane p.health ≡ some h
    → get other (mark_failure now lane p).health
      ≡ (if lane == other then some (failed_once now h) else get other p.health)
unfolding mark_failure
get-failed now lane other h p e =
    rw (e, mark_failure) (get-put lane other (failed_once now h) p.health)

get-ok :
    (now lane : ℕ) (h : LaneHealth) (p : ProviderPool)
    → get lane p.health ≡ some h
    → get lane (mark_success now lane p).health
      ≡ some (record h { healthy = true; fail_streak = 0; last_ok = now })
unfolding mark_success
get-ok now lane h p e =
    rw (e, mark_success) (get-put lane lane _ p.health ∙ ground (arith, nat_beq_iff lane lane))

usable_by :
    (p : ProviderPool) (now lane : ℕ) (h : LaneHealth)
    → get lane p.health ≡ some h
    → is_usable p now lane ≡ (if h.healthy then true else leb h.cooldown (now - h.last_fail))
unfolding is_usable
usable_by p now lane h e = rw (e, is_usable) refl

usable_same :
    (p q : ProviderPool) (now lane : ℕ)
    → get lane p.health ≡ get lane q.health
    → is_usable p now lane ≡ is_usable q now lane
unfolding is_usable
usable_same p q now lane e = rw (e, is_usable) refl

-- What is reported of one lane does not make another one usable or not.
pub mark_failure-other :
    (now t lane other : ℕ) (p : ProviderPool)
    → (lane == other) ≡ false
    → is_usable (mark_failure now lane p) t other ≡ is_usable p t other
mark_failure-other now t lane other p h =
    usable_same (mark_failure now lane p) p t other (elim (Option-cases (get lane p.health)) [
      | inl e ↦ unfold mark_failure in rw (e, mark_failure) refl
      | inr (x, e) ↦ rw (get-failed now lane other x p e, h) refl
    ])

pub mark_failure-lanes :
    (now lane : ℕ) (p : ProviderPool) → (mark_failure now lane p).lanes ≡ p.lanes
unfolding mark_failure
mark_failure-lanes now lane p = ground arith

get-failed_self :
    (now lane : ℕ) (h : LaneHealth) (p : ProviderPool)
    → get lane p.health ≡ some h
    → get lane (mark_failure now lane p).health ≡ some (failed_once now h)
get-failed_self now lane h p e =
    get-failed now lane lane h p e ∙ ground (arith, nat_beq_iff lane lane)

-- A lane of the pool whose last two reports are failures is usable exactly where its cool-down
-- has passed since the second, and a lane whose last report is a success is usable at any time.
pub reports-is_usable :
    (t1 t2 t3 now now' lane : ℕ) (h : LaneHealth) (p : ProviderPool)
    → get lane p.health ≡ some h
    → (is_usable (mark_failure t2 lane (mark_failure t1 lane p)) now lane
        ≡ leb h.cooldown (now - t2))
      × (is_usable (mark_success t3 lane (mark_failure t2 lane (mark_failure t1 lane p))) now' lane
          ≡ true)
unfolding failed_once
reports-is_usable t1 t2 t3 now now' lane h p e =
    let e1 = get-failed_self t1 lane h p e in
    let e2 = get-failed_self t2 lane _ (mark_failure t1 lane p) e1 in
    (usable_by _ now lane _ e2 ∙ ground arith, usable_by _ now' lane _ (get-ok t3 lane _ _ e2))
