-- ===== src/RateLimit/Limiter/Order.antt =====
-- What requests leave behind in the limiter of src/services/rate_limiter.py, up to the order in which
-- the callers were first seen, which is that of the dict.
use prd_api_wrapper.Prelude.{
  ℕ, String, ◌≡◌, refl, sym, ◌∙◌, Option, some, List, [], ◌∷◌, str_eq, eq_iff, Bool-cases, inl, inr,
}
use mathlib.Core.Quot
use mathlib.Core.Quot.{Quot, Quot-set}
use prd_api_wrapper.Prelude.Dict.{lookup, lookup-insert}
use prd_api_wrapper.RateLimit.Bucket.{Rate, TokenBucket, take}
use prd_api_wrapper.RateLimit.Limiter.{InMemoryRateLimiter, bucket_for, check}
use prd_api_wrapper.RateLimit.Limiter.Laws.{times_of, answers_for, answers_for-eq-alone}

-- The same buckets under the same names.
abbrev pub SameBuckets : InMemoryRateLimiter → InMemoryRateLimiter → Type 0
SameBuckets l m =
    (l.capacity ≡ m.capacity)
    × (l.rate ≡ m.rate)
    × ((key : String) → lookup key l.buckets ≡ lookup key m.buckets)

abbrev pub Limiters : Type 0
Limiters = Quot SameBuckets

-- The limiter after checks.
pub left_by : List (String × ℕ) → InMemoryRateLimiter → InMemoryRateLimiter
left_by [] l = l
left_by ((k, now) ∷ checks) l = left_by checks (check k now l).1

-- The bucket of one caller after its checks.
charged : ℕ → Rate → List ℕ → Option TokenBucket → Option TokenBucket
charged capacity rate [] o = o
charged capacity rate (now ∷ times) o =
    charged capacity rate times (some (take 1 now (bucket_for capacity rate now o)).1)

limits_left :
    (checks : List (String × ℕ)) (l : InMemoryRateLimiter)
    → ((left_by checks l).capacity ≡ l.capacity) × ((left_by checks l).rate ≡ l.rate)
unfolding left_by check
limits_left [] l = (refl, refl)
limits_left ((k, now) ∷ checks) l = limits_left checks (check k now l).1

lookup-left_by :
    (key : String) (checks : List (String × ℕ)) (l : InMemoryRateLimiter)
    → lookup key (left_by checks l).buckets
      ≡ charged l.capacity l.rate (times_of key checks) (lookup key l.buckets)
unfolding left_by check times_of charged
lookup-left_by key [] l = refl
lookup-left_by key ((k, now) ∷ checks) l = elim (Bool-cases (str_eq k key)) [
  | inl same ↦
      lookup-left_by key checks (check k now l).1
      ∙ rw (lookup-insert, same, (eq_iff k key).0 same) refl
  | inr other ↦ lookup-left_by key checks (check k now l).1 ∙ rw (lookup-insert, other) refl
]

left_by-SameBuckets :
    (checks others : List (String × ℕ)) (l m : InMemoryRateLimiter)
    → ((key : String) → times_of key checks ≡ times_of key others)
    → SameBuckets l m
    → SameBuckets (left_by checks l) (left_by others m)
left_by-SameBuckets checks others l m times (capacity, rate, same) =
    let (capacity_l, rate_l) = limits_left checks l in
    let (capacity_m, rate_m) = limits_left others m in
    (
      capacity_l ∙ capacity ∙ sym capacity_m,
      rate_l ∙ rate ∙ sym rate_m,
      λ key.
          lookup-left_by key checks l
          ∙ rw (capacity, rate, same key, times key) refl
          ∙ sym (lookup-left_by key others m),
    )

-- The checks, as a change of the limiter that forgets the order of its dict.
pub check_all : List (String × ℕ) → Limiters → Limiters
check_all checks =
    Quot.lift Quot-set (λ l. Quot.mk (left_by checks l))
      (λ l m same. Quot.sound (left_by-SameBuckets checks checks l m (λ key. refl) same))

-- If two orders of the checks of all callers give each caller its own checks at the same times in
-- the same order, they leave the same limiter, up to the order of its dict, and every caller gets
-- the same answers.
pub check_all_interleaved :
    (checks others : List (String × ℕ)) (l : InMemoryRateLimiter)
    → ((key : String) → times_of key checks ≡ times_of key others)
    → (check_all checks (Quot.mk l) ≡ check_all others (Quot.mk l))
      × ((key : String) → answers_for key checks l ≡ answers_for key others l)
unfolding check_all
check_all_interleaved checks others l times = (
  Quot.sound (left_by-SameBuckets checks others l l times (refl, refl, λ key. refl)),
  λ key.
      answers_for-eq-alone key checks l
      ∙ rw (times key) refl
      ∙ sym (answers_for-eq-alone key others l),
)
