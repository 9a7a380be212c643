-- ===== src/Llm/Breaker/Steps.antt =====
-- The breaker under every interleaving of its callers: each locked method is one step.
use raglogs.Base.{ℕ, ◌≤◌, ◌<◌, ◌≡◌, ◌⊎◌, false, none, some, arith}
use raglogs.Llm.Breaker.{
  Breaker, BreakerState, closed, opened, half_open, init, state_since, state_unlocked, allow_in,
  allow_request, record_success, record_failure, reset,
}

-- One locked call by some thread, at a time of its own.
pub data Step (threshold cooldown : ℕ) : Breaker → Breaker → Type 0 where
  allow : (b : Breaker) (now : ℕ) → Step threshold cooldown b (allow_request now cooldown b).0
  succeed : (b : Breaker) → Step threshold cooldown b (record_success b)
  fail : (b : Breaker) (now : ℕ) → Step threshold cooldown b (record_failure now threshold b)
  clear : (b : Breaker) → Step threshold cooldown b (reset b)

pub data Reach (threshold cooldown : ℕ) : Breaker → Type 0 where
  start : Reach threshold cooldown init
  next :
      {b c : Breaker}
      → Reach threshold cooldown b
      → Step threshold cooldown b c
      → Reach threshold cooldown c

-- Only an opened breaker has a probe, and it was opened by a full count of failures.
pub record IsConsistent (threshold : ℕ) (b : Breaker) : Type 0 where
  pub tripped : (b.opened_at ≡ none) ⊎ ((0 < threshold) × (threshold ≤ b.failures))
  pub probing : (b.probe_in_flight ≡ false) ⊎ ((0 < threshold) × (threshold ≤ b.failures))
  pub closed_idle : b.opened_at ≡ none → b.probe_in_flight ≡ false

allow_in-IsConsistent :
    (threshold : ℕ) (s : BreakerState) (b : Breaker)
    → (b.opened_at ≡ none → s ≡ closed)
    → IsConsistent threshold b
    → IsConsistent threshold (allow_in s b).0
unfolding allow_in
allow_in-IsConsistent threshold closed b h c = c
allow_in-IsConsistent threshold opened b h c = c
allow_in-IsConsistent threshold half_open b h c = ground arith

Step-IsConsistent :
    {threshold cooldown : ℕ} {b c : Breaker}
    → Step threshold cooldown b c
    → IsConsistent threshold b
    → IsConsistent threshold c
unfolding allow_request state_unlocked state_since record_success record_failure reset
Step-IsConsistent {threshold} (allow b now) h =
    allow_in-IsConsistent threshold _ b (λ e. ground arith) h
Step-IsConsistent (succeed b) h = ground arith
Step-IsConsistent (fail b now) h = ground arith
Step-IsConsistent (clear b) h = ground arith

-- From the initial state, whatever calls the threads make and at whatever times: the breaker is
-- opened only by a full count of failures, and only an opened breaker has a probe in flight.
pub Reach-IsConsistent :
    {threshold cooldown : ℕ} {b : Breaker} → Reach threshold cooldown b → IsConsistent threshold b
Reach-IsConsistent start = ground arith
Reach-IsConsistent (next r s) = Step-IsConsistent s (Reach-IsConsistent r)

-- A failure recorded on an opened breaker, probe or not, opens it anew at the time of the failure.
pub failure_reopens :
    {threshold cooldown : ℕ} {b : Breaker} {t : ℕ} (now : ℕ)
    → Reach threshold cooldown b
    → b.opened_at ≡ some t
    → (record_failure now threshold b).opened_at ≡ some now
unfolding record_failure
failure_reopens now r e = ground (arith, Reach-IsConsistent r)
