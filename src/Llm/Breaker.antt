-- ===== src/Llm/Breaker.antt =====
-- `LLMCircuitBreaker` of src/core/llm/resilience.py. A time and a cooldown are a whole number of
-- milliseconds; the remaining cooldown is the double nearest to it, rounded to tenths of a second as
-- `round(x, 1)` does. The error of the floating-point subtraction that gives it is left out.
-- A negative threshold behaves as 0. Each method holds the lock, so a call is one step.
pub mod Steps
pub mod Gate
use raglogs.Base.{
  ℕ, zero, suc, ◌+◌, ◌-◌, ◌*◌, ◌/◌, ◌%◌, ◌^◌, Bool, true, false, ◌&&◌, Option, none, some, ltb, leb,
  ◌==◌, if◌then◌else◌,
}

pub data BreakerState : Type 0 where
  closed opened half_open : BreakerState

pub record Breaker : Type 0 where
  pub failures : ℕ
  pub opened_at : Option ℕ
  pub probe_in_flight : Bool

abbrev pub init : Breaker
init = record { failures = 0; opened_at = none; probe_in_flight = false }

-- The first scale, from the one that is given down, at which the milliseconds have a mantissa of 53
-- bits at most. From fifty milliseconds up it is 57 at most.
unfoldable pub scale : ℕ → ℕ → ℕ
scale ms zero = 1
scale ms (suc e) =
    let lower = scale ms e in if ltb ((ms * 2 ^ suc e) / 1000) (2 ^ 53) then 2 ^ suc e else lower

-- Whether `round(x, 1)` goes up from the middle of two tenths: the double that stands for the middle
-- is above it, or it is the middle itself and the lower tenth is odd.
unfoldable pub rounds_up : ℕ → Bool
unfolding scale
rounds_up ms =
    let scaled = ms * scale ms 57 in
    let m = scaled / 1000 in
    let rest = scaled % 1000 in
    if rest == 0
    then (ms / 100) % 2 == 1
    else if ltb 500 rest
    then true
    else rest == 500 && m % 2 == 1

unfoldable pub to_tenths : Bool → ℕ → ℕ
to_tenths up ms =
    let q = ms / 100 in
    let r = ms % 100 in if ltb r 50 then q else if ltb 50 r then q + 1 else if up then q + 1 else q

-- Milliseconds to tenths of a second.
unfoldable pub round_tenths : ℕ → ℕ
unfolding to_tenths rounds_up
round_tenths ms = to_tenths (rounds_up ms) ms

unfoldable pub state_since : ℕ → ℕ → Option ℕ → BreakerState × ℕ
state_since now cooldown none = (closed, 0)
state_since now cooldown (some t) =
    let remaining = round_tenths ((cooldown + t) - now) in
    if ltb 0 remaining then (opened, remaining) else (half_open, 0)

unfoldable pub state_unlocked : ℕ → ℕ → Breaker → BreakerState × ℕ
unfolding state_since
state_unlocked now cooldown b = state_since now cooldown b.opened_at

pub record Snapshot : Type 0 where
  pub state : BreakerState
  pub consecutive_failures : ℕ
  pub cooldown_remaining : ℕ

unfoldable pub snapshot : ℕ → ℕ → Breaker → Snapshot
unfolding state_unlocked
snapshot now cooldown b =
    let (state, remaining) = state_unlocked now cooldown b in
    record { state = state; consecutive_failures = b.failures; cooldown_remaining = remaining }

unfoldable pub allow_in : BreakerState → Breaker → Breaker × Bool
allow_in closed b = (b, true)
allow_in opened b = (b, false)
allow_in half_open b =
    if b.probe_in_flight then (b, false) else (record b { probe_in_flight = true }, true)

unfoldable pub allow_request : ℕ → ℕ → Breaker → Breaker × Bool
unfolding state_unlocked allow_in
allow_request now cooldown b = allow_in (state_unlocked now cooldown b).0 b

unfoldable pub record_success : Breaker → Breaker
record_success b = record { failures = 0; opened_at = none; probe_in_flight = false }

unfoldable pub record_failure : ℕ → ℕ → Breaker → Breaker
record_failure now threshold b =
    let failures = b.failures + 1 in
    record {
      failures = failures;
      opened_at = if ltb 0 threshold && leb threshold failures then some now else b.opened_at;
      probe_in_flight = false;
    }

unfoldable pub reset : Breaker → Breaker
reset b = record { failures = 0; opened_at = none; probe_in_flight = false }
