-- ===== src/RateLimit/Limiter/Laws.antt =====
-- The limiter of src/services/rate_limiter.py beside a bucket of each caller's own.
use prd_api_wrapper.Prelude.{
  ℕ, ◌+◌, ◌-◌, ◌*◌, ◌≤◌, ◌≡◌, refl, ap, true, false, Option, some, List, [], ◌∷◌, arith, str_eq,
  eq_iff, eq_refl, String, Bool-cases, inl, inr, ◌∙◌, if◌then◌else◌,
}
use prd_api_wrapper.Prelude.Dict.{lookup, lookup-insert}
use prd_api_wrapper.Exec.{Result}
use prd_api_wrapper.RateLimit.Bucket
use prd_api_wrapper.RateLimit.Bucket.{Rate, RateLimitDecision, TokenBucket, take, full}
use prd_api_wrapper.RateLimit.Bucket.Laws.{was_allowed, granted, IsOrdered, granted_bound}
use prd_api_wrapper.RateLimit.Limiter.{InMemoryRateLimiter, init, bucket_for, check}

-- The answers that one caller gets, among the checks listed.
unfoldable pub answers_for :
    String → List (String × ℕ) → InMemoryRateLimiter → List (Result RateLimitDecision)
answers_for key [] l = []
answers_for key ((k, now) ∷ checks) l =
    let (answer, l') = check k now l in
    let rest = answers_for key checks l' in if str_eq k key then answer ∷ rest else rest

-- The times of one caller's checks.
unfoldable pub times_of : String → List (String × ℕ) → List ℕ
times_of key [] = []
times_of key ((k, now) ∷ checks) =
    let rest = times_of key checks in if str_eq k key then now ∷ rest else rest

-- The answers of a bucket of one's own.
unfoldable pub answers : List ℕ → TokenBucket → List (Result RateLimitDecision)
answers [] b = []
answers (now ∷ times) b = let (answer, b') = take 1 now b in answer ∷ answers times b'

-- The same for a caller who may have no bucket yet: the first check makes it.
unfoldable pub answers_alone :
    ℕ → Rate → List ℕ → Option TokenBucket → List (Result RateLimitDecision)
answers_alone capacity rate [] o = []
answers_alone capacity rate (now ∷ times) o = answers (now ∷ times) (bucket_for capacity rate now o)

answers_alone-some :
    (capacity : ℕ) (rate : Rate) (times : List ℕ) (b : TokenBucket)
    → answers_alone capacity rate times (some b) ≡ answers times b
unfolding answers_alone answers bucket_for
answers_alone-some capacity rate [] b = refl
answers_alone-some capacity rate (now ∷ times) b = refl

lookup-check :
    (key k : String) (now : ℕ) (l : InMemoryRateLimiter)
    → lookup key (check k now l).1.buckets ≡ (
        if str_eq k key
        then some (take 1 now (bucket_for l.capacity l.rate now (lookup k l.buckets))).1
        else lookup key l.buckets)
unfolding check
lookup-check key k now l = lookup-insert k key _ l.buckets

module _ (key k : String) (now : ℕ) (checks : List (String × ℕ)) (l : InMemoryRateLimiter) where
  abbrev Alone : Type 0
  Alone =
      answers_for key checks (check k now l).1
      ≡ answers_alone l.capacity l.rate (times_of key checks) (lookup key (check k now l).1.buckets)

  abbrev AloneNext : Type 0
  AloneNext =
      answers_for key ((k, now) ∷ checks) l
      ≡ answers_alone l.capacity l.rate (times_of key ((k, now) ∷ checks)) (lookup key l.buckets)

  answers_for_other : str_eq k key ≡ false → Alone → AloneNext
  unfolding answers_for times_of
  answers_for_other other ih = rw other (ih ∙ rw (lookup-check, other))

answers_for_same :
    (key : String) (now : ℕ) (checks : List (String × ℕ)) (l : InMemoryRateLimiter)
    → Alone key key now checks l
    → AloneNext key key now checks l
unfolding answers_for times_of answers_alone answers
answers_for_same key now checks l ih =
    let self : str_eq key key ≡ true = eq_refl key in
    let charged = (take 1 now (bucket_for l.capacity l.rate now (lookup key l.buckets))).1 in
    let rest : answers_for key checks (check key now l).1 ≡ answers (times_of key checks) charged =
      ih
      ∙ rw (lookup-check, self)
          (answers_alone-some l.capacity l.rate (times_of key checks) charged) in
    rw self (rw rest (unfold check in refl))

-- However the checks of all callers interleave, each caller gets the answers that a bucket of its
-- own would give to its checks alone.
pub answers_for-eq-alone :
    (key : String) (checks : List (String × ℕ)) (l : InMemoryRateLimiter)
    → answers_for key checks l
      ≡ answers_alone l.capacity l.rate (times_of key checks) (lookup key l.buckets)
unfolding check
answers_for-eq-alone key [] l = unfold answers_for times_of answers_alone in refl
answers_for-eq-alone key ((k, now) ∷ checks) l = elim (Bool-cases (str_eq k key)) [
  | inl same ↦
      rw ((eq_iff k key).0 same)
        (answers_for_same key now checks l (answers_for-eq-alone key checks (check key now l).1))
  | inr other ↦
      answers_for_other key k now checks l other (answers_for-eq-alone key checks (check k now l).1)
]

-- How many of the answers let a request through.
unfoldable pub count_allowed : List (Result RateLimitDecision) → ℕ
count_allowed [] = 0
count_allowed (a ∷ rest) = was_allowed a + count_allowed rest

count_allowed-answers :
    (times : List ℕ) (b : TokenBucket) → count_allowed (answers times b) ≡ granted times b
unfolding count_allowed answers granted
count_allowed-answers [] b = refl
count_allowed-answers (now ∷ times) b =
    ap (λ (n : ℕ). was_allowed (take 1 now b).0 + n) (count_allowed-answers times (take 1 now b).1)

first_bound :
    (capacity : ℕ) (rate : Rate) (start stop : ℕ) (times : List ℕ)
    → IsOrdered start stop times
    → granted (start ∷ times) (Bucket.init capacity rate start) * rate.per
      ≤ capacity * rate.per + (stop - start) * rate.gained
unfolding Bucket.init
first_bound capacity rate start stop times ordered =
    granted_bound (start ∷ times) (Bucket.init capacity rate start) stop (omega arith, ordered)

-- A limiter that has just started lets each caller through at most as often as the burst and the
-- time since its first check allow, if its checks are in the order of time, however the checks of
-- other callers fall in between.
pub caller_bound :
    (key : String) (checks : List (String × ℕ)) (capacity : ℕ) (rate : Rate) (start stop : ℕ)
    (times : List ℕ)
    → times_of key checks ≡ start ∷ times
    → IsOrdered start stop times
    → count_allowed (answers_for key checks (init capacity rate)) * rate.per
      ≤ capacity * rate.per + (stop - start) * rate.gained
unfolding init answers_alone bucket_for lookup
caller_bound key checks capacity rate start stop times e ordered =
    rw (answers_for-eq-alone, e)
      (rw (count_allowed-answers (start ∷ times) (Bucket.init capacity rate start))
        (first_bound capacity rate start stop times ordered))
