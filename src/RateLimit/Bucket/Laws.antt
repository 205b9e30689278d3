-- ===== src/RateLimit/Bucket/Laws.antt =====
-- What a token bucket of src/services/rate_limiter.py promises to the one who spends it.
use prd_api_wrapper.Prelude.{ℕ, ◌+◌, ◌-◌, ◌*◌, ◌≤◌, ◌≡◌, ap, List, [], ◌∷◌, arith, if◌then◌else◌}
use prd_api_wrapper.Exec.{Result, ok, raised}
use prd_api_wrapper.RateLimit.Bucket.{RateLimitDecision, TokenBucket, full, take}

-- No more tokens than the capacity.
abbrev pub IsValid : TokenBucket → Type 0
IsValid b = b.tokens ≤ full b

pub take-IsValid : (n now : ℕ) (b : TokenBucket) → IsValid (take n now b).1
unfolding take
take-IsValid n now b = ground arith

abbrev pub was_allowed : Result RateLimitDecision → ℕ
was_allowed (ok d) = if d.allowed then 1 else 0
was_allowed (raised e) = 0

-- How many single tokens are given out at the times listed.
unfoldable pub granted : List ℕ → TokenBucket → ℕ
granted [] b = 0
granted (now ∷ times) b = let (answer, b') = take 1 now b in was_allowed answer + granted times b'

-- The times never go back, from `start` on, and end by `stop`.
abbrev pub IsOrdered : ℕ → ℕ → List ℕ → Type 0
IsOrdered start stop [] = start ≤ stop
IsOrdered start stop (now ∷ times) = (start ≤ now) × IsOrdered now stop times

take_cost :
    (now : ℕ) (b : TokenBucket)
    → b.updated_at ≤ now
    → was_allowed (take 1 now b).0 * b.rate.per + (take 1 now b).1.tokens
      ≤ b.tokens + (now - b.updated_at) * b.rate.gained
unfolding take
take_cost now b h = ground arith

IsOrdered-le : (start stop : ℕ) (times : List ℕ) → IsOrdered start stop times → start ≤ stop
IsOrdered-le start stop [] h = h
IsOrdered-le start stop (now ∷ times) h = omega (arith, IsOrdered-le now stop times h.1)

-- The fields that `take` leaves alone, and the time that it sets.
pub take_fields :
    (n now : ℕ) (b : TokenBucket)
    → let b' = (take n now b).1 in
      (b'.capacity ≡ b.capacity) × (b'.rate ≡ b.rate) × (b'.updated_at ≡ now)
unfolding take
take_fields n now b = ground arith

elapsed : (a b c r : ℕ) → a ≤ b → b ≤ c → (c - b) * r + (b - a) * r ≡ (c - a) * r
elapsed a b c r h k =
    let e : c - b + (b - a) ≡ c - a = omega arith in omega (arith, ap (λ (t : ℕ). t * r) e)

granted_step :
    (times : List ℕ) (b b' : TokenBucket) (now stop w : ℕ)
    → b.updated_at ≤ now
    → now ≤ stop
    → w * b.rate.per + b'.tokens ≤ b.tokens + (now - b.updated_at) * b.rate.gained
    → b'.rate ≡ b.rate
    → b'.updated_at ≡ now
    → granted times b' * b'.rate.per ≤ b'.tokens + (stop - b'.updated_at) * b'.rate.gained
    → (w + granted times b') * b.rate.per ≤ b.tokens + (stop - b.updated_at) * b.rate.gained
granted_step times b b' now stop w le le' spent e u ih =
    let ih' : granted times b' * b.rate.per ≤ b'.tokens + (stop - now) * b.rate.gained =
      rw (← e, ← u) ih in
    omega (arith, elapsed b.updated_at now stop b.rate.gained le le')

-- Over any span of time, with checks in the order of time, a bucket gives out at most what it held
-- and what the span refilled.
pub granted_bound :
    (times : List ℕ) (b : TokenBucket) (stop : ℕ)
    → IsOrdered b.updated_at stop times
    → granted times b * b.rate.per ≤ b.tokens + (stop - b.updated_at) * b.rate.gained
unfolding granted
granted_bound [] b stop h = omega arith
granted_bound (now ∷ times) b stop h =
    let (answer, b') = take 1 now b in
    let (_, e, u) = take_fields 1 now b in
    granted_step times b b' now stop (was_allowed answer) h.0 (IsOrdered-le now stop times h.1)
      (take_cost now b h.0) e u (granted_bound times b' stop (rw u h.1))
