-- ===== src/Llm/Invoke/Outage.antt =====
-- What a provider that is down costs: requests one after the other through `invoke_llm` of
-- src/core/llm/resilience.py.
use raglogs.Base.{
  ℕ, zero, suc, ◌+◌, ◌*◌, ◌≤◌, ◌<◌, ◌≡◌, refl, ap, ◌∙◌, ◌≢◌, ◌⊎◌, inl, inr, true, false, none, some,
  List, [], ◌∷◌, arith,
}
use raglogs.Llm.Invoke.Outcomes.{invoke_llm-refused}
use raglogs.Base.Retrying.{Outcome, raised, Retrying, run-Ran}
use raglogs.Llm.Breaker.{
  Breaker, record_failure, init, state_since, state_unlocked, allow_in, allow_request,
}
use raglogs.Llm.Breaker.Gate.{allow_request-admits}
use raglogs.Llm.Invoke.{
  LlmError, circuit_open, budget_exceeded, http_status, http_error, other_error,
  is_retryable_llm_error, LlmSettings, Invocation, settle, invoke_llm,
}

-- When a request reaches the gate and when it ends, and what the provider does to its attempts.
pub record Request (A : Type 0) : Type 0 where
  pub asked : ℕ
  pub finished : ℕ
  pub attempt : ℕ → Outcome LlmError A

zero-cases : (n : ℕ) → (n ≡ 0) ⊎ (0 < n)
zero-cases zero = inl refl
zero-cases (suc n) = inr (omega arith)

allow_request-idle :
    (now cooldown : ℕ) (b : Breaker)
    → b.opened_at ≡ none
    → ((allow_request now cooldown b).0 ≡ b) × ((allow_request now cooldown b).1 ≡ true)
unfolding allow_request state_unlocked state_since allow_in
allow_request-idle now cooldown b e = (ground arith, ground arith)

record_failure-trips :
    (now threshold : ℕ) (b : Breaker)
    → threshold ≡ b.failures + 1
    → (record_failure now threshold b).opened_at ≡ some now
unfolding record_failure
record_failure-trips now threshold b e = ground arith

record_failure-waits :
    (now threshold : ℕ) (b : Breaker)
    → b.opened_at ≡ none
    → b.failures + 1 < threshold
    → (record_failure now threshold b).opened_at ≡ none
unfolding record_failure
record_failure-waits now threshold b o l = ground arith

module _ {A : Type 0} where
  -- Every attempt raises an error of the provider.
  abbrev pub IsDown : Request A → Type 0
  IsDown q =
      (i : ℕ)
      → (e : LlmError) × (q.attempt i ≡ raised e) × (e ≢ circuit_open) × (e ≢ budget_exceeded)

  -- All requests meet a provider that is down, end at the start of a period or later, and are asked
  -- while fifty milliseconds or more are left of a cooldown from that start.
  abbrev pub Outage : (start cooldown : ℕ) → List (Request A) → Type 0
  Outage start cooldown [] = Unit
  Outage start cooldown (q ∷ qs) =
      IsDown q × (start ≤ q.finished) × (q.asked + 49 < cooldown + start) × Outage start cooldown qs

  settle-raised :
      (finished threshold : ℕ) (b : Breaker) (o : Outcome LlmError A) (e : LlmError)
      → e ≢ circuit_open
      → e ≢ budget_exceeded
      → o ≡ raised e
      → settle finished threshold b o ≡ record_failure finished threshold b
  unfolding settle
  settle-raised finished threshold b o circuit_open n m h = absurd (n refl)
  settle-raised finished threshold b o budget_exceeded n m h = absurd (m refl)
  settle-raised finished threshold b o (http_status code) n m h = rw h refl
  settle-raised finished threshold b o http_error n m h = rw h refl
  settle-raised finished threshold b o other_error n m h = rw h refl

  module _ (tenacity : Retrying LlmError A) (s : LlmSettings) where
    abbrev invocation : Request A → Breaker → Invocation A
    invocation q b = invoke_llm tenacity s q.attempt q.asked q.finished (λ x. x) b

    -- The attempts that reach the provider, over requests one after the other.
    unfoldable pub attempts_made : List (Request A) → Breaker → ℕ
    attempts_made [] b = 0
    attempts_made (q ∷ qs) b =
        let later = attempts_made qs (invocation q b).breaker in (invocation q b).calls + later

    -- A request through a closed breaker counts one failure.
    invoke_llm-down :
        (q : Request A) (b : Breaker)
        → IsDown q
        → b.opened_at ≡ none
        → ((invocation q b).calls ≤ suc s.max_retries)
          × ((invocation q b).breaker ≡ record_failure q.finished s.breaker_threshold b)
    unfolding invoke_llm
    invoke_llm-down q b down idle =
        let (kept, open_) = allow_request-idle q.asked s.breaker_cooldown b idle in
        let r = run-Ran tenacity s.max_retries is_retryable_llm_error q.attempt in
        let (e, raises, n, m) = down r.last in
        rw open_ (
          omega (arith, r.calls, r.bound),
          settle-raised q.finished s.breaker_threshold
                (allow_request q.asked s.breaker_cooldown b).0 _ e n m (r.outcome ∙ raises)
              ∙ ap (λ c. record_failure q.finished s.breaker_threshold c) kept,
        )

    invoke_llm-opened :
        (q : Request A) (b : Breaker) (t : ℕ)
        → b.opened_at ≡ some t
        → q.asked + 49 < s.breaker_cooldown + t
        → ((invocation q b).calls ≡ 0) × ((invocation q b).breaker ≡ b)
    invoke_llm-opened q b t o l =
        let gate = allow_request-admits q.asked s.breaker_cooldown b in
        let shut : (allow_request q.asked s.breaker_cooldown b).1 ≡ false =
          ground (arith, rw o at gate) in
        invoke_llm-refused tenacity s q.attempt q.asked q.finished (λ x. x) b shut

    attempts_made-opened :
        (start t : ℕ) (qs : List (Request A)) (b : Breaker)
        → Outage start s.breaker_cooldown qs
        → b.opened_at ≡ some t
        → start ≤ t
        → attempts_made qs b ≡ 0
    unfolding attempts_made
    attempts_made-opened start t [] b h o l = refl
    attempts_made-opened start t (q ∷ qs) b (d, f, a, h) o l =
        let (none_, same) = invoke_llm-opened q b t o (omega (arith, a)) in
        rw (none_, same) (omega (arith, attempts_made-opened start t qs b h o l))

    attempts_made-le :
        (start left : ℕ) (qs : List (Request A)) (b : Breaker)
        → Outage start s.breaker_cooldown qs
        → b.opened_at ≡ none
        → b.failures + left ≡ s.breaker_threshold
        → 0 < left
        → attempts_made qs b ≤ left * suc s.max_retries
    unfolding attempts_made record_failure
    attempts_made-le start left [] b h o e l = omega arith
    attempts_made-le start zero (q ∷ qs) b h o e l = absurd (omega (arith, l))
    attempts_made-le start (suc left) (q ∷ qs) b (d, f, a, h) o e l =
        let (few, next) = invoke_llm-down q b d o in
        let b' = record_failure q.finished s.breaker_threshold b in
        rw next (elim (zero-cases left) [
          | inl last ↦
              let quiet =
                attempts_made-opened start q.finished qs b' h
                  (record_failure-trips q.finished s.breaker_threshold b (omega (arith, e))) f in
              rw (last, quiet) (omega (arith, few))
          | inr more ↦
              let ih =
                attempts_made-le start left qs b' h
                  (record_failure-waits q.finished s.breaker_threshold b o (omega (arith, e)))
                  (omega (arith, e)) more in
              omega (arith, few, ih)
        ])

    -- During an outage that starts with a new breaker of a positive threshold, requests one after the
    -- other reach the provider at most `threshold * (max_retries + 1)` times, however many there are:
    -- all are asked while fifty milliseconds or more are left of a cooldown from the start of the
    -- outage, and every attempt raises an error of the provider.
    pub attempts_made-le-threshold :
        (start : ℕ) (qs : List (Request A))
        → 0 < s.breaker_threshold
        → Outage start s.breaker_cooldown qs
        → attempts_made qs init ≤ s.breaker_threshold * suc s.max_retries
    attempts_made-le-threshold start qs pos h =
        attempts_made-le start s.breaker_threshold qs init h refl (omega arith) pos
