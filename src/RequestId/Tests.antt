-- ===== src/RequestId/Tests.antt =====
-- Tests of the request id, and its theorem at a concrete input.
use prd_api_wrapper.Prelude.{String, ◌⊎◌, ◌≡◌, refl, true, false, none, some, [], ◌∷◌}
use prd_api_wrapper.Errors.Handlers.{RequestState, JsonResponse, crash}
use prd_api_wrapper.Exec.{Exec, raised}
use prd_api_wrapper.RequestId.{is_safe_char, matches_up_to, is_safe_id, serve}
use prd_api_wrapper.RequestId.Safe.{IsSafe}
use prd_api_wrapper.RequestId.Laws.{Carries, serve-Carries}

is_safe_id-cases :
    (is_safe_id "trace-abc.1_2" ≡ true) × (is_safe_id "a b" ≡ false) × (is_safe_id "" ≡ false)
unfolding is_safe_id is_safe_char matches_up_to
is_safe_id-cases = (refl, refl, refl)

abbrev unnamed : RequestState
unnamed = record { request_id = none; response_headers = none }

abbrev broken : Exec (RequestState × Unit {0}) JsonResponse
broken s = (
  raised (crash "boom"),
  (record s.0 { response_headers = some (("X-RateLimit-Limit", "10") ∷ []) }, tt),
)

serve-Carries_example :
    (id : String) × (((some "trace-1" ≡ some id) × IsSafe id)
      ⊎ ((id ≡ "0f") × ((sent : String) → some "trace-1" ≡ some sent → ¬ IsSafe sent)))
    × (let (r, t) = broken (record unnamed { request_id = some id }, tt) in
        Carries id r t.0 (serve "0f" (some "trace-1") broken (unnamed, tt)).0)
serve-Carries_example = serve-Carries "0f" (some "trace-1") broken unnamed tt refl (λ _. refl)
