-- ===== src/RateLimit.antt =====
-- internal/ratelimit/bucket.go: the token bucket of a connection.
-- A token is 10^9 units and time is in nanoseconds, so that `elapsed * refillPerSec` is a whole
-- number of units; the rounding of float64 is left out. The clock is an argument of each call.
pub mod Bounds
use go_signing_server_anywhe.Prelude.{
  ℕ, zero, suc, ◌+◌, ◌-◌, ◌*◌, ◌/◌, ◌%◌, ◌^◌, ◌≤◌, ◌<◌, String, ◌≡◌, refl, sym, ap, ◌∙◌, ◌≢◌, ◌↔◌,
  ◌⊎◌, inl, inr, Bool, true, false, not, ◌&&◌, ◌||◌, Option, none, some, List, [], ◌∷◌, ◌++◌, map,
  arith, eq_iff, ltb, leb, nat_beq, if◌then◌else◌, ltb→lt, lt→ltb, leb→le, nat_beq_iff, tests,
  Bool-cases, Option-cases, ℤ, pos, negsuc, pos_part, neg_part, sub_ℕ, ◌+ℤ◌, ◌-ℤ◌, ◌≤ℤ◌, ◌<ℤ◌,
  ltb_ℤ, leb_ℤ, int_beq, int_beq_iff, Eq, ◌==◌, ◌!=◌, nat_eq, int_eq, string_eq, string_beq,
  string_beq_iff, beq_refl, length, take, keep, count, length-append, length-keep-le,
  length-keep-count, keep-append, has, add, remove, IsSetList, has-add, has-remove, add-IsSetList,
  remove-IsSetList, remove_absent, length-remove, length-remove-le,
}

pub record TokenBucket : Type 0 where
  pub capacity : ℕ
  pub refill_per_sec : ℕ
  pub tokens : ℕ
  pub last : ℕ

abbrev pub second : ℕ
second = 1000000000

unfoldable pub new : ℕ → ℕ → ℕ → TokenBucket
new capacity refill_per_sec now = record {
  capacity = capacity * second;
  refill_per_sec = refill_per_sec;
  tokens = capacity * second;
  last = now;
}

unfoldable pub min : ℕ → ℕ → ℕ
min a b = if ltb a b then a else b

-- `Take(cost)`; the monotonic clock makes `now - last` exact.
unfoldable pub take_tokens : ℕ → ℕ → TokenBucket → TokenBucket × Bool
unfolding min
take_tokens cost now b =
    let elapsed = now - b.last in
    let tokens = min b.capacity (b.tokens + elapsed * b.refill_per_sec) in
    if ltb tokens (cost * second)
    then (record b { last = now; tokens = tokens }, false)
    else (record b { last = now; tokens = tokens - cost * second }, true)

-- The messages of a connection that are subject to the limit, each a `Take(1)` at its time.
-- The result counts those that pass.
unfoldable pub serve : TokenBucket → List ℕ → TokenBucket × ℕ
serve b [] = (b, 0)
serve b (now ∷ times) =
    let (b', passed) = take_tokens 1 now b in
    let (b'', n) = serve b' times in (b'', (if passed then suc n else n))
