-- ===== src/Llm/Invoke/Outcomes.antt =====
-- What `invoke_llm` of src/core/llm/resilience.py does to the breaker, on every branch.
use raglogs.Base.{ℕ, ◌≡◌, refl, ◌⊎◌, inl, inr, true, false, some, List, arith}
use raglogs.Llm.Breaker.Gate.{admitted, admitted-probing}
use raglogs.Base.Retrying.{Outcome, raised, Retrying, Ran, run-Ran}
use raglogs.Llm.Breaker.{Breaker, allow_request, allow_in, state_unlocked, state_since}
use raglogs.Llm.Invoke.{
  LlmError, circuit_open, budget_exceeded, LlmSettings, Invocation, settle, invoke_llm,
  is_retryable_llm_error,
}

allow_in-refuses :
    (now cooldown : ℕ) (b : Breaker)
    → (allow_request now cooldown b).1 ≡ false
    → (allow_request now cooldown b).0 ≡ b
unfolding allow_request state_unlocked state_since allow_in
allow_in-refuses now cooldown b h = ground arith

settle-unrecorded :
    (A : Type 0) (finished threshold : ℕ) (b : Breaker) (e : LlmError)
    → (e ≡ circuit_open) ⊎ (e ≡ budget_exceeded)
    → (settle {A = A} finished threshold b (raised e) ≡ b) × (is_retryable_llm_error e ≡ false)
unfolding settle is_retryable_llm_error
settle-unrecorded A finished threshold b e (inl h) = rw h (refl, refl)
settle-unrecorded A finished threshold b e (inr h) = rw h (refl, refl)

allow_request-marks :
    (now cooldown : ℕ) (b : Breaker) (t : ℕ)
    → b.opened_at ≡ some t
    → (allow_request now cooldown b).1 ≡ true
    → ((allow_request now cooldown b).0.opened_at ≡ some t)
      × ((allow_request now cooldown b).0.probe_in_flight ≡ true)
unfolding allow_request state_unlocked state_since allow_in
allow_request-marks now cooldown b t o h = (ground arith, ground arith)

module _ {A : Type 0} (tenacity : Retrying LlmError A) (s : LlmSettings)
    (attempt : ℕ → Outcome LlmError A) (asked finished : ℕ) (others : Breaker → Breaker)
    (b : Breaker) where
  abbrev invocation : Invocation A
  invocation = invoke_llm tenacity s attempt asked finished others b

  -- A call that the breaker refuses makes no attempt and leaves the breaker as it was.
  pub invoke_llm-refused :
      (allow_request asked s.breaker_cooldown b).1 ≡ false
      → (invocation.calls ≡ 0) × (invocation.breaker ≡ b)
  unfolding invoke_llm
  invoke_llm-refused h = (rw h, rw h (allow_in-refuses asked s.breaker_cooldown b h))

  -- A call that the breaker admits makes between one and `max_retries + 1` attempts. Its outcome is
  -- that of the last attempt, which succeeded, or raised an error that is not retried, or was the
  -- last one allowed.
  pub invoke_llm-attempts :
      (allow_request asked s.breaker_cooldown b).1 ≡ true
      → Ran s.max_retries is_retryable_llm_error attempt (invocation.outcome, invocation.calls)
  unfolding invoke_llm
  invoke_llm-attempts h = rw h (run-Ran tenacity s.max_retries is_retryable_llm_error attempt)

  -- A provider that raises the budget or circuit error during the probe of an opened breaker, with
  -- no other thread at work, leaves the probe marked: of any sequence of later requests, whenever
  -- they are made, none is let through while no outcome is recorded.
  pub invoke_llm-probe_stuck :
      (t : ℕ) (times : List ℕ) (e : LlmError)
      → b.opened_at ≡ some t
      → (allow_request asked s.breaker_cooldown b).1 ≡ true
      → ((x : Breaker) → others x ≡ x)
      → (e ≡ circuit_open) ⊎ (e ≡ budget_exceeded)
      → attempt 0 ≡ raised e
      → admitted s.breaker_cooldown times invocation.breaker ≡ 0
  unfolding invoke_llm
  invoke_llm-probe_stuck t times e o h id c a =
      let (still, marked) = allow_request-marks asked s.breaker_cooldown b t o h in
      rw
        (
          h,
          tenacity.run-final s.max_retries is_retryable_llm_error attempt e a
              (settle-unrecorded A 0 0 b e c).1,
          (settle-unrecorded A finished s.breaker_threshold
              (others (allow_request asked s.breaker_cooldown b).0) e c).0,
          id (allow_request asked s.breaker_cooldown b).0,
        )
        (admitted-probing s.breaker_cooldown times (allow_request asked s.breaker_cooldown b).0 t
          still marked)
