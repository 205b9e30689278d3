-- ===== src/Resilience/Retry/Laws.antt =====
-- What `RetryPolicy` of src/services/resilience.py promises.
use prd_api_wrapper.Prelude.{
  ℕ, zero, suc, ◌+◌, ◌-◌, ◌*◌, ◌/◌, ◌^◌, ◌≤◌, ◌<◌, min, max, ◌≡◌, refl, ◌⊎◌, inl, inr, arith, true,
  false, Option, none, some, Bool-cases, ltb, leb,
}
use prd_api_wrapper.Errors.{AppError}
use prd_api_wrapper.Errors.Handlers.{app, crash, invalid_request}
use prd_api_wrapper.Exec.{Result, ok, raised, Exec}
use prd_api_wrapper.Resilience.Retry.{
  RetryPolicy, finish, again, judge, loop, run, delay_for, jitter_scale,
}
use prd_api_wrapper.Resilience.Retry.Loop.{run_rule}

scaled-le : (cap j : ℕ) → j ≤ jitter_scale → cap * j / jitter_scale ≤ cap
scaled-le cap j h = let m : cap * j ≤ cap * jitter_scale = grind arith in omega arith

-- `random.random()` is in [0, 1).
abbrev pub JitterInRange : {S : Type 0} → RetryPolicy S → Type 0
JitterInRange {S} p = (s : S) → (p.jitter s).0 < jitter_scale

-- For a jitter in [0, 1) no wait exceeds the ceiling. A wait that the provider asked for is the one
-- asked for, up to the ceiling; any other is at most the backoff, which doubles with each attempt.
pub delay_for_bounds :
    {S : Type 0} (p : RetryPolicy S) (attempt : ℕ) (retry_after : Option ℕ) (s : S)
    → JitterInRange p
    → let delay = (delay_for p attempt retry_after s).0 in
      (delay ≤ p.max_backoff)
      × ((asked : ℕ) → retry_after ≡ some asked → delay ≡ min asked p.max_backoff)
      × (retry_after ≡ none → delay ≤ p.initial_backoff * 2 ^ (attempt - 1))
unfolding delay_for
delay_for_bounds p attempt (some r) s h = (omega arith, λ asked e. ground arith, λ e. cc)
delay_for_bounds p attempt none s h =
    let cap = min (p.initial_backoff * 2 ^ (attempt - 1)) p.max_backoff in
    let le = scaled-le cap (p.jitter s).0 (omega (arith, h s)) in
    (omega (arith, le), λ asked e. cc, λ e. omega (arith, le))

-- A result that no repetition is made for: a return, a failure that is not worth repeating, or an
-- exception that is none of ours.
abbrev pub IsFinal : {T : Type 0} → Result T → Type 0
IsFinal (ok a) = Unit
IsFinal (raised (app e)) = e.retryable ≡ false
IsFinal (raised (crash m)) = Unit
IsFinal (raised (invalid_request m)) = Unit

judge_final :
    {S T : Type 0} (p : RetryPolicy S) (started attempt : ℕ) (r : Result T) (s : S)
    → IsFinal r
    → judge p started attempt (r, s) ≡ finish r s
unfolding judge
judge_final p started attempt (ok a) s h = refl
judge_final p started attempt (raised (app e)) s h = rw h
judge_final p started attempt (raised (crash m)) s h = refl
judge_final p started attempt (raised (invalid_request m)) s h = refl

-- A first attempt that succeeds, that fails with an error not worth repeating, or that raises
-- something that is none of our errors, is the whole call: nothing is repeated and nothing is
-- slept.
pub run_final :
    {S T : Type 0} (p : RetryPolicy S) (operation : Exec S T) (s : S)
    → IsFinal (operation s).0
    → run p operation s ≡ operation s
unfolding run loop
run_final p operation s h = rw (judge_final p (p.clock s) 1 (operation s).0 (operation s).1 h)

module _ {S T : Type 0} (p : RetryPolicy S) (operation : Exec S T) (s : S) where
  -- The wait after the failure `e` of attempt `m`, which left the state `t`: it was to end within
  -- the budget, counted from the call, and is no longer than the ceiling.
  abbrev pub Waits : ℕ → AppError → S → S → Type 0
  Waits m e t t' =
      let (delay, after) = delay_for p m e.retry_after t in
      (t' ≡ p.sleep delay after)
      × (p.clock after + delay ≤ p.budget + p.clock s)
      × (delay ≤ p.max_backoff)

  -- `n` attempts have been made, each has failed in a way that is worth repeating and was followed
  -- by its wait, and the next attempt begins in this state.
  abbrev pub Begins : ℕ → S → Type 0
  Begins zero t = t ≡ s
  Begins (suc n) t =
      (before : S) × Begins n before
      × ((e : AppError) × ((operation before).0 ≡ raised (app e))
          × (e.retryable ≡ true)
          × Waits (suc n) e (operation before).1 t)

  -- Why the outcome of attempt `m` is passed on, and in which state: the one that the attempt left,
  -- or the one after the jitter was drawn for a wait that would have ended past the budget.
  abbrev pub Passes : ℕ → Result T × S → S → Type 0
  Passes m (ok a, t) t' = t' ≡ t
  Passes m (raised (app e), t) t' =
      let (delay, after) = delay_for p m e.retry_after t in
      ((t' ≡ t) × ((e.retryable ≡ false) ⊎ (p.max_attempts ≤ m)))
      ⊎ ((t' ≡ after) × (p.budget + p.clock s < p.clock after + delay))
  Passes m (raised (crash x), t) t' = t' ≡ t
  Passes m (raised (invalid_request x), t) t' = t' ≡ t

  -- The call ends with the outcome of attempt `m`.
  abbrev pub Ends : ℕ → Result T × S → Type 0
  Ends zero o = ⊥
  Ends (suc n) o = (t : S) × Begins n t × ((operation t).0 ≡ o.0) × Passes (suc n) (operation t) o.1

module _ {S T : Type 0} (p : RetryPolicy S) (operation : Exec S T) (s : S) where
  judge_app_finish :
      (m : ℕ) (e : AppError) (t t' : S) (r : Result T)
      → judge {T = T} p (p.clock s) m (raised (app e), t) ≡ finish r t'
      → (raised (app e) ≡ r) × Passes p operation s m (raised (app e), t) t'
  unfolding judge
  judge_app_finish m e t t' r h =
      let (delay, after) = delay_for p m e.retry_after t in
      elim (Bool-cases e.retryable) [
        | inr n ↦ (ground arith, inl (ground arith, inl n))
        | inl y ↦ elim (Bool-cases (leb p.max_attempts m)) [
          | inl last ↦ (ground arith, inl (ground arith, inr (ground arith)))
          | inr more ↦ elim (Bool-cases (ltb (p.budget + p.clock s) (p.clock after + delay))) [
            | inl over ↦ (ground arith, inr (ground arith, ground arith))
            | inr fits ↦ absurd (ground arith)
          ]
        ]
      ]

  judge_finish :
      (m : ℕ) (o : Result T × S) (r : Result T) (t' : S)
      → judge p (p.clock s) m o ≡ finish r t'
      → (o.0 ≡ r) × Passes p operation s m o t'
  judge_finish m (raised (app e), t) r t' h = judge_app_finish m e t t' r h
  judge_finish m (ok a, t) r t' h = unfold judge in (cc, cc)
  judge_finish m (raised (crash x), t) r t' h = unfold judge in (cc, cc)
  judge_finish m (raised (invalid_request x), t) r t' h = unfold judge in (cc, cc)

module _ {S T : Type 0} (p : RetryPolicy S) (jitter : JitterInRange p) (operation : Exec S T)
    (s : S) where
  judge_again :
      (m : ℕ) (o : Result T × S) (t' : S)
      → judge p (p.clock s) m o ≡ again t'
      → (e : AppError) × (o.0 ≡ raised (app e))
        × (e.retryable ≡ true)
        × Waits p operation s m e o.1 t'
  judge_again m (raised (app e), t) t' h =
      let short = (delay_for_bounds p m e.retry_after t jitter).0 in
      unfold judge in (e, refl, ground arith, (ground arith, ground arith, short))
  judge_again m (ok a, t) t' h = unfold judge in cc
  judge_again m (raised (crash x), t) t' h = unfold judge in cc
  judge_again m (raised (invalid_request x), t) t' h = unfold judge in cc

  -- For a jitter in [0, 1), `run` always ends, with the result of its `m`-th attempt, for an `m` of
  -- at least one and at most the number allowed. Each attempt before that one failed in a way that
  -- is worth repeating, and was followed by its wait, which was to end within the budget. What the
  -- last attempt leaves is left, and a failure is passed on only where repeating is not worth it,
  -- not allowed, or would take a wait past the budget.
  pub run_last_attempt :
      (m : ℕ) × (0 < m) × (m ≤ max 1 p.max_attempts) × Ends p operation s m (run p operation s)
  run_last_attempt =
      run_rule p operation s (Begins p operation s) (Ends p operation s)
        (λ n t b r t' h.
          let (same, why) = judge_finish p operation s (suc n) (operation t) r t' h in
          (t, b, same, why))
        (λ n t b t' h. (t, b, judge_again (suc n) (operation t) t' h)) refl
