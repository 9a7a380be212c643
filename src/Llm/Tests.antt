-- ===== src/Llm/Tests.antt =====
-- Concrete runs of src/core/llm/resilience.py.
use raglogs.Base.{
  str_eq, ℕ, zero, suc, ◌+◌, ◌*◌, ◌≤◌, ◌<◌, String, ◌≡◌, refl, ◌≢◌, ◌↔◌, inr, true, false, none,
  some, [], ◌∷◌, arith, if◌then◌else◌,
}
use raglogs.Llm.Invoke.Outage.{Request, IsDown, attempts_made, attempts_made-le-threshold}
use raglogs.Base.Retrying.{Outcome, returned, raised, Ran, attempts, retrying}
use raglogs.Llm.Breaker.{
  Breaker, init, round_tenths, state_since, state_unlocked, snapshot, allow_in, allow_request,
  record_failure, reset, scale, rounds_up, to_tenths,
}
use raglogs.Llm.Breaker.Steps.{fail, Reach, start, IsConsistent, Reach-IsConsistent, next}
use raglogs.Llm.Breaker.Gate.{
  allow_request-admits, admitted, admitted-le-one, fail_at, failures_trip,
}
use raglogs.Llm.Invoke.{
  LlmError, circuit_open, budget_exceeded, http_status, http_error, is_retryable_llm_error,
  LlmSettings, Invocation, invoke_llm, settle,
}
use raglogs.Llm.Invoke.Outcomes.{invoke_llm-attempts, invoke_llm-probe_stuck}
use raglogs.Llm.Packet.{
  absent, items, value, list_keys, BudgetSettings, input_token_budget, Packet, Prepared,
  total_items, prepare_llm_packet,
}
use raglogs.Llm.Packet.Budget.{IsPrepared, prepare_llm_packet-total}

-- Opened at one second by two failures, with a cooldown of half a second.
abbrev tripped : Breaker
tripped = record { failures = 2; opened_at = some 1000; probe_in_flight = false }

abbrev settings : LlmSettings
settings = record { max_retries = 2; breaker_threshold = 2; breaker_cooldown = 500 }

-- A provider that is overloaded once, and answers the second time.
abbrev flaky : ℕ → Outcome LlmError String
flaky zero = raised (http_status 429)
flaky (suc n) = returned "answer"

abbrev broken : ℕ → Outcome LlmError String
broken n = raised http_error

abbrev costly : ℕ → Outcome LlmError String
costly n = raised budget_exceeded

abbrev alone : Breaker → Breaker
alone b = b

gate_refuses : (allow_request 1200 500 tripped).1 ≡ false
unfolding allow_request state_unlocked state_since round_tenths to_tenths allow_in
gate_refuses = refl

gate_admits : (allow_request 1600 500 tripped).1 ≡ true
unfolding allow_request state_unlocked state_since round_tenths to_tenths allow_in
gate_admits = refl

-- Fifty milliseconds before the end of the cooldown the breaker refuses, one later it admits.
gate_half : (allow_request 1450 500 tripped).1 ≡ false
unfolding allow_request state_unlocked state_since round_tenths rounds_up scale to_tenths allow_in
gate_half = refl

gate_early : (allow_request 1451 500 tripped).1 ≡ true
unfolding allow_request state_unlocked state_since round_tenths to_tenths allow_in
gate_early = refl

snapshot_rounds : (snapshot 1151 500 tripped).cooldown_remaining ≡ 3
unfolding snapshot state_unlocked state_since round_tenths to_tenths
snapshot_rounds = refl

reset-init : reset tripped ≡ init
unfolding reset
reset-init = refl

abbrev failed_twice : Breaker
failed_twice = record_failure 1000 2 (record_failure 900 2 init)

failed_twice-Reach : Reach 2 500 failed_twice
failed_twice-Reach = next (next start (fail init 900)) (fail (record_failure 900 2 init) 1000)

failed_twice-opened : failed_twice.opened_at ≡ some 1000
unfolding record_failure
failed_twice-opened = refl

Reach-IsConsistent_example : IsConsistent 2 failed_twice
Reach-IsConsistent_example = Reach-IsConsistent failed_twice-Reach

allow_request-admits_example : (allow_request 1600 500 tripped).1 ≡ true
allow_request-admits_example = allow_request-admits 1600 500 tripped

admitted-le-one_example : admitted 500 (1200 ∷ 1600 ∷ 1700 ∷ []) tripped ≤ 1
admitted-le-one_example = admitted-le-one 500 (1200 ∷ 1600 ∷ 1700 ∷ []) tripped 1000 refl

failures_trip_example : ((fail_at 2 (900 ∷ 1000 ∷ []) init).opened_at ≡ none) ↔ (2 < 2)
failures_trip_example = failures_trip 2 (900 ∷ 1000 ∷ []) (omega arith)

abbrev run_flaky : Invocation String
run_flaky = invoke_llm (retrying LlmError String) settings flaky 1600 1650 alone tripped

run_flaky-outcome : run_flaky.outcome ≡ returned "answer"
unfolding invoke_llm is_retryable_llm_error allow_request round_tenths attempts
run_flaky-outcome = refl

abbrev run_broken : Invocation String
run_broken = invoke_llm (retrying LlmError String) settings broken 1600 1650 alone tripped

run_broken-outcome : run_broken.outcome ≡ raised http_error
unfolding invoke_llm is_retryable_llm_error allow_request round_tenths attempts
run_broken-outcome = refl

invoke_llm-attempts_example :
    Ran 2 is_retryable_llm_error flaky (run_flaky.outcome, run_flaky.calls)
invoke_llm-attempts_example =
    invoke_llm-attempts (retrying LlmError String) settings flaky 1600 1650 alone tripped
      gate_admits

invoke_llm-probe_stuck_example :
    admitted 500
      (1700 ∷ 9000 ∷ [])
      (invoke_llm (retrying LlmError String) settings costly 1600 1650 alone tripped).breaker
    ≡ 0
invoke_llm-probe_stuck_example =
    invoke_llm-probe_stuck (retrying LlmError String) settings costly 1600 1650 alone tripped 1000
      (1700 ∷ 9000 ∷ []) budget_exceeded refl gate_admits (λ b. refl) (inr refl) refl

not_circuit : http_error ≢ circuit_open
not_circuit = λ e. cc

not_budget : http_error ≢ budget_exceeded
not_budget = λ e. cc

abbrev request : ℕ → Request String
request t = record { asked = t; finished = t + 20; attempt = broken }

request-IsDown : (t : ℕ) → IsDown (request t)
request-IsDown t i = (http_error, refl, not_circuit, not_budget)

attempts_made-le-threshold_example :
    attempts_made
      (retrying LlmError String)
      settings
      (request 1000 ∷ request 1100 ∷ request 1200 ∷ request 1300 ∷ [])
      init
    ≤ 2 * 3
attempts_made-le-threshold_example =
    attempts_made-le-threshold (retrying LlmError String) settings 1000
      (request 1000 ∷ request 1100 ∷ request 1200 ∷ request 1300 ∷ []) (omega arith)
      (
        request-IsDown 1000,
        omega arith,
        omega arith,
        (
          request-IsDown 1100,
          omega arith,
          omega arith,
          (
            request-IsDown 1200,
            omega arith,
            omega arith,
            (request-IsDown 1300, omega arith, omega arith, tt),
          ),
        ),
      )

all_attempts :
    attempts_made
      (retrying LlmError String)
      settings
      (request 1000 ∷ request 1100 ∷ request 1200 ∷ request 1300 ∷ [])
      init
    ≡ 6
unfolding attempts_made invoke_llm is_retryable_llm_error allow_request round_tenths attempts
    record_failure settle
all_attempts = refl

-- Each item costs ten characters.
abbrev packet : Packet ℕ ℕ
packet k =
    if str_eq k "evidence"
    then items (1 ∷ 2 ∷ 3 ∷ [])
    else if str_eq k "clusters"
    then items (4 ∷ 5 ∷ [])
    else if str_eq k "question"
    then value 7
    else absent

abbrev dumps : Packet ℕ ℕ → ℕ
dumps p = 10 * total_items list_keys p

abbrev budget : BudgetSettings
budget = record { max_evidence_items = 2; llm_max_input_tokens = 6; llm_max_tokens = 64 }

prepare_llm_packet-total_example :
    (r : Prepared (Packet ℕ ℕ)) × (prepare_llm_packet dumps budget packet ≡ some r)
    × IsPrepared dumps (input_token_budget budget) packet r
prepare_llm_packet-total_example = prepare_llm_packet-total dumps budget packet
