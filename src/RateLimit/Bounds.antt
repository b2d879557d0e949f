-- ===== src/RateLimit/Bounds.antt =====
-- How many messages a bucket lets through (internal/ratelimit/bucket.go).
use go_signing_server_anywhe.Prelude.{
  ℕ, ◌+◌, ◌-◌, ◌*◌, ◌≤◌, ◌≡◌, List, [], ◌∷◌, arith, if◌then◌else◌, nat_eq, int_eq, string_eq,
}
use go_signing_server_anywhe.RateLimit.{TokenBucket, new, second, take_tokens, serve}

abbrev pub IsFull : TokenBucket → Type 0
IsFull b = b.tokens ≤ b.capacity

-- The times of the calls do not run backwards, and the last is `final`.
abbrev pub Ordered : ℕ → List ℕ → ℕ → Type 0
Ordered last [] final = last ≤ final
Ordered last (t ∷ times) final = (last ≤ t) × Ordered t times final

Ordered-le : (last : ℕ) (times : List ℕ) (final : ℕ) → Ordered last times final → last ≤ final
Ordered-le last [] final h = h
Ordered-le last (t ∷ times) final h = omega (arith, Ordered-le t times final h.1)

take_tokens-IsFull : (cost now : ℕ) (b : TokenBucket) → IsFull (take_tokens cost now b).0
unfolding take_tokens
take_tokens-IsFull cost now b = ground arith

-- What a call spends comes out of the old tokens and the refill.
take_tokens_pays :
    (now : ℕ) (b : TokenBucket)
    → (take_tokens 1 now b).0.tokens + (if (take_tokens 1 now b).1 then second else 0)
      ≤ b.tokens + (now - b.last) * b.refill_per_sec
unfolding take_tokens
take_tokens_pays now b = ground arith

take_tokens_keeps :
    (cost now : ℕ) (b : TokenBucket)
    → ((take_tokens cost now b).0.refill_per_sec ≡ b.refill_per_sec)
      × ((take_tokens cost now b).0.capacity ≡ b.capacity)
      × ((take_tokens cost now b).0.last ≡ now)
unfolding take_tokens
take_tokens_keeps cost now b = ground arith

refill_split : (a b c r : ℕ) → a ≤ b → b ≤ c → (b - a) * r + (c - b) * r ≡ (c - a) * r
refill_split a b c r h k = grind arith

-- A bucket lets through no more messages, at times that do not run backwards, than its tokens and what
-- it was refilled by until a final time pay for.
pub serve_bound :
    (b : TokenBucket) (times : List ℕ) (final : ℕ)
    → Ordered b.last times final
    → (serve b times).1 * second ≤ b.tokens + (final - b.last) * b.refill_per_sec
unfolding serve
serve_bound b [] final h = omega arith
serve_bound b (now ∷ times) final h =
    let keeps = take_tokens_keeps 1 now b in
    let rest = serve_bound (take_tokens 1 now b).0 times final (rw keeps.2 h.1) in
    ground (
      arith,
      rest,
      keeps,
      take_tokens_pays now b,
      refill_split b.last now final b.refill_per_sec h.0 (Ordered-le now times final h.1),
    )

-- A new connection gets through, in any time, at most its capacity of the messages that are
-- subject to the limit, and what the refill of that time pays for; the times of the messages do not
-- run backwards.
pub serve-new :
    (capacity refill start : ℕ) (times : List ℕ) (final : ℕ)
    → Ordered start times final
    → (serve (new capacity refill start) times).1 * second
      ≤ capacity * second + (final - start) * refill
unfolding new
serve-new capacity refill start times final h =
    serve_bound (new capacity refill start) times final h
