-- ===== src/Resilience/Retry/Loop.antt =====
-- The rule for the retry loop: it ends within its attempts, in a state that the rule describes.
use prd_api_wrapper.Prelude.{
  ℕ, zero, suc, ◌+◌, ◌≤◌, ◌<◌, max, ◌≡◌, refl, ◌⊎◌, inl, inr, arith, some, none, Option, Bool-cases,
  not, ◌||◌, ltb, leb,
}
use mathlib.Core.Path.{subst}
use prd_api_wrapper.Errors.Handlers.{app, crash, invalid_request}
use prd_api_wrapper.Exec.{Result, ok, raised, Exec}
use prd_api_wrapper.Resilience.Retry.{
  RetryPolicy, Verdict, finish, again, judge, loop, run, delay_for,
}

pub Verdict-cases :
    {S T : Type 0} (v : Verdict S T)
    → ((r : Result T) × (s : S) × (v ≡ finish r s)) ⊎ ((s : S) × (v ≡ again s))
Verdict-cases (finish r s) = inl (r, s, refl)
Verdict-cases (again s) = inr (s, refl)

-- The loop goes on only below the last attempt allowed.
pub judge-again-lt :
    {S T : Type 0} (p : RetryPolicy S) (started attempt : ℕ) (o : Result T × S) (s' : S)
    → judge p started attempt o ≡ again s'
    → attempt < p.max_attempts
unfolding judge
judge-again-lt p started attempt (ok a, s) s' h = cc
judge-again-lt p started attempt (raised (app e), s) s' h = ground arith
judge-again-lt p started attempt (raised (crash m), s) s' h = cc
judge-again-lt p started attempt (raised (invalid_request m), s) s' h = cc

module _ {S T : Type 0} (p : RetryPolicy S) (operation : Exec S T) (started : ℕ) where
  -- From a state with `P n`, that is before attempt n + 1, to an end with `Q` of the attempts made.
  pub loop_rule :
      (P : ℕ → S → Type 0) (Q : ℕ → Result T × S → Type 0)
      → ((n : ℕ) (s : S)
          → P n s
          → (r : Result T) (s' : S) → judge p started (suc n) (operation s) ≡ finish r s'
          → Q (suc n) (r, s'))
      → ((n : ℕ) (s : S)
          → P n s
          → (s' : S) → judge p started (suc n) (operation s) ≡ again s'
          → P (suc n) s')
      → (fuel n : ℕ) (s : S) → p.max_attempts < fuel + n
      → (n ≡ 0) ⊎ (n < p.max_attempts)
      → P n s
      → (m : ℕ) × (o : Result T × S) × (loop fuel p operation started n s ≡ some o)
        × (0 < m)
        × (m ≤ max 1 p.max_attempts)
        × Q m o
  unfolding loop
  loop_rule P Q done more zero n s enough low h = absurd (omega arith)
  loop_rule P Q done more (suc fuel) n s enough low h =
      elim (Verdict-cases (judge p started (suc n) (operation s))) [
        | inl (r, s', e) ↦
            (suc n, (r, s'), rw (e, loop), omega arith, omega arith, done n s h r s' e)
        | inr (s', e) ↦
            let lt = judge-again-lt p started (suc n) (operation s) s' e in
            rw (e, loop)
              (loop_rule P Q done more fuel (suc n) s' (omega arith) (inr lt) (more n s h s' e))
      ]

-- The same for `run`, which has enough fuel.
module _ {S T : Type 0} (p : RetryPolicy S) (operation : Exec S T) (s : S) where
  pub run_rule :
      (P : ℕ → S → Type 0) (Q : ℕ → Result T × S → Type 0)
      → ((n : ℕ) (t : S)
          → P n t
          → (r : Result T) (t' : S) → judge p (p.clock s) (suc n) (operation t) ≡ finish r t'
          → Q (suc n) (r, t'))
      → ((n : ℕ) (t : S)
          → P n t
          → (t' : S) → judge p (p.clock s) (suc n) (operation t) ≡ again t'
          → P (suc n) t')
      → P 0 s
      → (m : ℕ) × (0 < m) × (m ≤ max 1 p.max_attempts) × Q m (run p operation s)
  unfolding run
  run_rule P Q done more h =
      let (m, o, e, pos, below, q) =
        loop_rule p operation (p.clock s) P Q done more (suc p.max_attempts) 0 s (omega arith)
          (inl refl) h in
      (m, pos, below, rw e q)

-- A property of the state that the operation, the sleep and the jitter keep is kept by the loop.
module _ {S : Type 0} (p : RetryPolicy S) (V : S → Type 0) where
  delay_for_keeps :
      ((s : S) → V s → V (p.jitter s).1)
      → (attempt : ℕ) (retry_after : Option ℕ) (s : S) → V s
      → V (delay_for p attempt retry_after s).1
  unfolding delay_for
  delay_for_keeps jitters attempt none s h = jitters s h
  delay_for_keeps jitters attempt (some r) s h = h

module _ {S T : Type 0} (p : RetryPolicy S) (V : S → Type 0) where
  abbrev pub Holds : Verdict S T → Type 0
  Holds (finish r s) = V s
  Holds (again s) = V s

  pub judge_keeps :
      ((s : S) → V s → V (p.jitter s).1)
      → ((d : ℕ) (s : S) → V s → V (p.sleep d s))
      → (started attempt : ℕ) (r : Result T) (s : S) → V s
      → Holds (judge p started attempt (r, s))
  unfolding judge
  judge_keeps jitters sleeps started attempt (ok a) s h = h
  judge_keeps jitters sleeps started attempt (raised (crash m)) s h = h
  judge_keeps jitters sleeps started attempt (raised (invalid_request m)) s h = h
  judge_keeps jitters sleeps started attempt (raised (app e)) s h =
      let (delay, after) = delay_for p attempt e.retry_after s in
      let waited = delay_for_keeps p V jitters attempt e.retry_after s h in
      elim (Bool-cases (not e.retryable || leb p.max_attempts attempt)) [
        | inl stop ↦ rw stop h
        | inr more ↦ elim (Bool-cases (ltb (p.budget + started) (p.clock after + delay))) [
          | inl over ↦ rw (more, over) waited
          | inr fits ↦ rw (more, fits) (sleeps delay after waited)
        ]
      ]

  pub run_keeps :
      ((s : S) → V s → V (p.jitter s).1)
      → ((d : ℕ) (s : S) → V s → V (p.sleep d s))
      → (operation : Exec S T) → ((s : S) → V s → V (operation s).1)
      → (s : S) → V s
      → V (run p operation s).1
  run_keeps jitters sleeps operation keeps s h =
      let (m, _, _, q) =
        run_rule p operation s (λ n t. V t) (λ m o. V o.1)
          (λ n t v r t' e. subst Holds e (
            judge_keeps jitters sleeps (p.clock s) (suc n) (operation t).0 (operation t).1
              (keeps t v)))
          (λ n t v t' e. subst Holds e (
            judge_keeps jitters sleeps (p.clock s) (suc n) (operation t).0 (operation t).1
              (keeps t v)))
          h in
      q

-- A loop that ends does so with the result of the attempt that it judged.
pub judge-finish-result :
    {S T : Type 0} (p : RetryPolicy S) (started attempt : ℕ) (r₀ r : Result T) (s s' : S)
    → judge p started attempt (r₀, s) ≡ finish r s'
    → r₀ ≡ r
unfolding judge
judge-finish-result p started attempt (ok a) r s s' h = cc
judge-finish-result p started attempt (raised (crash m)) r s s' h = cc
judge-finish-result p started attempt (raised (invalid_request m)) r s s' h = cc
judge-finish-result p started attempt (raised (app e)) r s s' h = ground arith
