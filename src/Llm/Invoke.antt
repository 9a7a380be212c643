-- ===== src/Llm/Invoke.antt =====
-- `invoke_llm` and `_is_retryable_llm_error` of src/core/llm/resilience.py. What other threads do to
-- the breaker between the gate and the outcome is the function `others`; the clock is read at the
-- gate and at the end. Logs, spans and the duration metric are left out. A negative
-- `llm_max_retries` behaves as 0.
pub mod Outcomes
pub mod Outage
use raglogs.Base.{ℕ, suc, Bool, true, false, ◌||◌, leb, ◌==◌, if◌then◌else◌}
use raglogs.Base.Retrying.{Outcome, returned, raised, Retrying}
use raglogs.Llm.Breaker.{Breaker, allow_request, record_success, record_failure}

pub data LlmError : Type 0 where
  circuit_open budget_exceeded : LlmError
  http_status : ℕ → LlmError
  http_error other_error : LlmError

unfoldable pub is_retryable_llm_error : LlmError → Bool
is_retryable_llm_error circuit_open = false
is_retryable_llm_error budget_exceeded = false
is_retryable_llm_error (http_status code) = code == 429 || leb 500 code
is_retryable_llm_error http_error = true
is_retryable_llm_error other_error = true

pub record LlmSettings : Type 0 where
  pub max_retries : ℕ
  pub breaker_threshold : ℕ
  pub breaker_cooldown : ℕ

pub record Invocation (A : Type 0) : Type 0 where
  pub breaker : Breaker
  pub outcome : Outcome LlmError A
  pub calls : ℕ

module _ {A : Type 0} where
  -- the `except` clauses and the code behind them
  unfoldable pub settle : ℕ → ℕ → Breaker → Outcome LlmError A → Breaker
  settle finished threshold b (raised circuit_open) = b
  settle finished threshold b (raised budget_exceeded) = b
  settle finished threshold b (raised (http_status code)) = record_failure finished threshold b
  settle finished threshold b (raised http_error) = record_failure finished threshold b
  settle finished threshold b (raised other_error) = record_failure finished threshold b
  settle finished threshold b (returned result) = record_success b

  unfoldable pub invoke_llm :
      Retrying LlmError A
      → LlmSettings
      → (ℕ → Outcome LlmError A)
      → ℕ
      → ℕ
      → (Breaker → Breaker)
      → Breaker
      → Invocation A
  unfolding settle
  invoke_llm tenacity s attempt asked finished others b =
      let (admitted, may_call) = allow_request asked s.breaker_cooldown b in
      let (result, calls) = tenacity.run (suc s.max_retries) is_retryable_llm_error attempt in
      if may_call
      then record {
        breaker = settle finished s.breaker_threshold (others admitted) result;
        outcome = result;
        calls = calls;
      }
      else record { breaker = admitted; outcome = raised circuit_open; calls = 0 }
