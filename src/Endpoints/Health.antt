-- ===== src/Endpoints/Health.antt =====
-- src/endpoints/health.py: the readiness of the process.
mod Tests
use prd_api_wrapper.Prelude.{
  ℕ, Bool, true, false, not, ◌&&◌, ◌≡◌, ◌⊎◌, inl, inr, refl, if◌then◌else◌, Bool-cases,
}
use prd_api_wrapper.Json.{Json, str, obj, bool, no_entry, entry}
use prd_api_wrapper.Errors.Handlers.{Raised}
use prd_api_wrapper.Exec.{Result, ok, raised, Exec}
use prd_api_wrapper.Completion.Upstream.{HttpResponse}

-- `health`
abbrev pub health : Json
health = obj (entry "status" (str "ok") no_entry)

-- The answer of `ready` for the two checks.
abbrev pub readiness : Bool → Bool → ℕ × Json
readiness database upstream =
    let is_ready = database && upstream in
    let checks =
      obj (entry "database" (bool database) (entry "upstream" (bool upstream) no_entry)) in
    (
      if is_ready then 200 else 503,
      obj (
          entry "status" (str (if is_ready then "ready" else "degraded"))
            (entry "checks" checks no_entry)),
    )

module _ {S : Type 0} where
  abbrev pub executed : Result (Unit {0}) × S → Bool × S
  executed (ok _, s) = (true, s)
  executed (raised r, s) = (false, s)

  -- `_database_ok`, over `session.execute(text("SELECT 1"))`.
  unfoldable pub database_ok : Exec S (Unit {0}) → S → Bool × S
  database_ok execute s = executed (execute s)

  abbrev pub answered_well : Result HttpResponse × S → Bool × S
  answered_well (ok response, s) = (not response.is_error, s)
  answered_well (raised r, s) = (false, s)

  -- `_upstream_ok`, over `client.get("/models", timeout=2.0)`.
  unfoldable pub upstream_ok : Exec S HttpResponse → S → Bool × S
  upstream_ok get s = answered_well (get s)

  -- `ready`
  unfoldable pub ready : Exec S (Unit {0}) → Exec S HttpResponse → Exec S (ℕ × Json)
  unfolding database_ok upstream_ok
  ready execute get s =
      let (database, t) = database_ok execute s in
      let (upstream, u) = upstream_ok get t in (ok (readiness database upstream), u)

-- The checks answered, and the provider's answer is no error.
abbrev pub BothUp : Result (Unit {0}) → Result HttpResponse → Type 0
BothUp database upstream =
    (database ≡ ok tt)
    × ((response : HttpResponse) × (upstream ≡ ok response) × (response.is_error ≡ false))

abbrev pub Verdict : Result (Unit {0}) → Result HttpResponse → ℕ → Type 0
Verdict database upstream status =
    ((status ≡ 200) × BothUp database upstream) ⊎ ((status ≡ 503) × ¬ BothUp database upstream)

raised-ok {ℓ} : {A : Type ℓ} {r : Raised} {a : A} → raised r ≡ ok a → ⊥
raised-ok h = cc

error-refused :
    (response : HttpResponse) (other : HttpResponse)
    → ok response ≡ ok other
    → other.is_error ≡ false
    → response.is_error ≡ true
    → ⊥
error-refused response other h good bad = cc

module _ {S : Type 0} where
  executed_state : (d : Result (Unit {0}) × S) → (executed d).1 ≡ d.1
  executed_state (ok _, s) = refl
  executed_state (raised r, s) = refl

  answered_state : (u : Result HttpResponse × S) → (answered_well u).1 ≡ u.1
  answered_state (ok response, s) = refl
  answered_state (raised r, s) = refl

  readiness_verdict :
      (d : Result (Unit {0}) × S) (u : Result HttpResponse × S)
      → Verdict d.0 u.0 (readiness (executed d).0 (answered_well u).0).0
  readiness_verdict (raised r, s) u = inr (refl, λ up. raised-ok up.0)
  readiness_verdict (ok _, s) (raised r, t) = inr (refl, λ up. raised-ok up.1.1)
  readiness_verdict (ok _, s) (ok response, t) = elim (Bool-cases response.is_error) [
    | inl e ↦ inr (rw e refl, λ up. error-refused response up.1.0 up.1.1 up.1.2 e)
    | inr e ↦ inl (rw e refl, (refl, (response, refl, e)))
  ]

  asked_after :
      (get : Exec S HttpResponse) (database : Result (Unit {0})) (status : ℕ) (t : S) (t' : S)
      → t ≡ t'
      → Verdict database (get t).0 status
      → Verdict database (get t').0 status
  asked_after get database status t t' e v = rw⁻¹ e v

  -- Whatever its two checks raise, `ready` answers: with 200 when the database answered and the
  -- provider answered without an error, and with 503 in every other case. The provider is asked
  -- also when the database is down.
  pub ready_verdict :
      (execute : Exec S (Unit {0})) (get : Exec S HttpResponse) (s : S)
      → (v : ℕ × Json) × (ready execute get s ≡ (ok v, (get (execute s).1).1))
        × Verdict (execute s).0 (get (execute s).1).0 v.0
  unfolding ready database_ok upstream_ok
  ready_verdict execute get s =
      let d = execute s in
      let u = get (executed d).1 in
      (
        readiness (executed d).0 (answered_well u).0,
        rw (answered_state u, executed_state d) refl,
        asked_after get d.0 _ _ _ (executed_state d) (readiness_verdict d u),
      )
