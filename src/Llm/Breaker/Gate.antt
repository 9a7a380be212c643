-- ===== src/Llm/Breaker/Gate.antt =====
-- Which requests `LLMCircuitBreaker` of src/core/llm/resilience.py lets through.
use raglogs.Base.{
  length, ℕ, suc, ◌+◌, ◌-◌, ◌≤◌, ◌<◌, ◌≡◌, refl, ap, ◌∙◌, ◌↔◌, inl, inr, Bool, true, false, not,
  none, some, List, [], ◌∷◌, arith, ltb, ◌==◌, if◌then◌else◌, Bool-cases, Option-cases,
}
use raglogs.Llm.Breaker.{
  Breaker, init, round_tenths, state_since, state_unlocked, allow_in, allow_request, record_failure,
  scale, rounds_up, to_tenths,
}

half_rounds_up : rounds_up 50 ≡ true
unfolding rounds_up scale
half_rounds_up = refl

to_tenths-pos : (up : Bool) (ms : ℕ) → (ms ≡ 50 → up ≡ true) → ltb 0 (to_tenths up ms) ≡ ltb 49 ms
unfolding to_tenths
to_tenths-pos true ms h = ground arith
to_tenths-pos false ms h = elim (Bool-cases (ms == 50)) [
  | inl half ↦ let e : ms ≡ 50 = ground arith in absurd (let f = h e in cc)
  | inr other ↦ ground arith
]

-- What is left of the cooldown rounds to zero below fifty milliseconds; fifty themselves round up,
-- since the double for 0.05 is above it.
round_tenths-pos : (ms : ℕ) → ltb 0 (round_tenths ms) ≡ ltb 49 ms
unfolding round_tenths
round_tenths-pos ms =
    to_tenths-pos (rounds_up ms) ms (λ e. ap (λ m. rounds_up m) e ∙ half_rounds_up)

-- A closed breaker admits every request. An opened one refuses each while fifty milliseconds of the
-- cooldown or more are left, and from then on admits a request if no probe is in flight.
pub allow_request-admits :
    (now cooldown : ℕ) (b : Breaker)
    → (allow_request now cooldown b).1 ≡ elim b.opened_at [
      | none ↦ true
      | some t ↦ if ltb (now + 49) (cooldown + t) then false else not b.probe_in_flight
    ]
unfolding allow_request state_unlocked state_since allow_in
allow_request-admits now cooldown b = elim (Option-cases b.opened_at) [
  | inl idle ↦ rw idle
  | inr (t, since) ↦ rw since (ground (arith, round_tenths-pos ((cooldown + t) - now)))
]

-- A refused request leaves the breaker as it was, and an admitted one only marks the probe.
allow_request-keeps :
    (now cooldown : ℕ) (b : Breaker)
    → ((allow_request now cooldown b).0.opened_at ≡ b.opened_at)
      × ((allow_request now cooldown b).0.failures ≡ b.failures)
unfolding allow_request state_unlocked state_since allow_in
allow_request-keeps now cooldown b = (ground arith, ground arith)

-- The requests that are let through while no outcome is recorded, one for each time listed.
unfoldable pub admitted : ℕ → List ℕ → Breaker → ℕ
admitted cooldown [] b = 0
admitted cooldown (now ∷ times) b =
    let rest = admitted cooldown times (allow_request now cooldown b).0 in
    if (allow_request now cooldown b).1 then suc rest else rest

allow_request-probe :
    (now cooldown : ℕ) (b : Breaker) (t : ℕ)
    → b.opened_at ≡ some t
    → ((b.probe_in_flight ≡ true) → (allow_request now cooldown b).1 ≡ false)
      × ((allow_request now cooldown b).1 ≡ true
          → (allow_request now cooldown b).0.probe_in_flight ≡ true)
      × ((b.probe_in_flight ≡ true) → (allow_request now cooldown b).0.probe_in_flight ≡ true)
unfolding allow_request state_unlocked state_since allow_in
allow_request-probe now cooldown b t e = (λ p. ground arith, λ p. ground arith, λ p. ground arith)

pub admitted-probing :
    (cooldown : ℕ) (times : List ℕ) (b : Breaker) (t : ℕ)
    → b.opened_at ≡ some t
    → b.probe_in_flight ≡ true
    → admitted cooldown times b ≡ 0
unfolding admitted
admitted-probing cooldown [] b t e p = refl
admitted-probing cooldown (now ∷ times) b t e p =
    let (refused, _, still) = allow_request-probe now cooldown b t e in
    rw (refused p) (
      admitted-probing cooldown times (allow_request now cooldown b).0 t
        ((allow_request-keeps now cooldown b).0 ∙ e) (still p))

admitted-once :
    (cooldown : ℕ) (times : List ℕ) (b : Breaker) (t : ℕ)
    → b.opened_at ≡ some t
    → admitted cooldown times b ≤ 1
unfolding admitted
admitted-once cooldown [] b t e = omega arith
admitted-once cooldown (now ∷ times) b t e =
    let b' = (allow_request now cooldown b).0 in
    let e' = (allow_request-keeps now cooldown b).0 ∙ e in
    let (_, marks, _) = allow_request-probe now cooldown b t e in
    elim (Bool-cases (allow_request now cooldown b).1) [
      | inl yes_ ↦ rw yes_ (omega (arith, admitted-probing cooldown times b' t e' (marks yes_)))
      | inr no_ ↦ rw no_ (admitted-once cooldown times b' t e')
    ]

-- However many requests reach an opened breaker, and whenever they do, at most one is let through
-- until an outcome is recorded; none is, if a probe is already in flight.
pub admitted-le-one :
    (cooldown : ℕ) (times : List ℕ) (b : Breaker) (t : ℕ)
    → b.opened_at ≡ some t
    → admitted cooldown times b ≤ (if b.probe_in_flight then 0 else 1)
unfolding admitted
admitted-le-one cooldown times b t e = elim (Bool-cases b.probe_in_flight) [
  | inl probing ↦ let h = admitted-probing cooldown times b t e probing in ground arith
  | inr idle ↦ let h = admitted-once cooldown times b t e in ground arith
]

unfoldable pub fail_at : ℕ → List ℕ → Breaker → Breaker
fail_at threshold [] b = b
fail_at threshold (now ∷ times) b = fail_at threshold times (record_failure now threshold b)

fail_at-counts :
    (threshold : ℕ) (times : List ℕ) (b : Breaker)
    → (fail_at threshold times b).failures ≡ b.failures + length times
unfolding fail_at record_failure
fail_at-counts threshold [] b = omega arith
fail_at-counts threshold (now ∷ times) b =
    omega (arith, fail_at-counts threshold times (record_failure now threshold b))

fail_at-tripped :
    (threshold : ℕ) (times : List ℕ) (b : Breaker)
    → 0 < threshold
    → (b.opened_at ≡ none → b.failures < threshold)
    → (b.failures < threshold → b.opened_at ≡ none)
    → ((fail_at threshold times b).opened_at ≡ none) ↔ (b.failures + length times < threshold)
unfolding fail_at record_failure
fail_at-tripped threshold [] b pos before after =
    (λ e. omega (arith, before e), λ h. after (omega arith))
fail_at-tripped threshold (now ∷ times) b pos before after =
    let h =
      fail_at-tripped threshold times (record_failure now threshold b) pos (λ e. ground arith)
        (λ e. ground (arith, after)) in
    (λ e. omega (arith, h.0 e), λ l. h.1 (omega arith))

-- For a positive threshold, consecutive failures of a new breaker leave it closed exactly while
-- they are fewer than the threshold.
pub failures_trip :
    (threshold : ℕ) (times : List ℕ)
    → 0 < threshold
    → ((fail_at threshold times init).opened_at ≡ none) ↔ (length times < threshold)
failures_trip threshold times pos =
    let h = fail_at-tripped threshold times init pos (λ _. pos) (λ _. refl) in
    (λ e. omega (arith, h.0 e), λ l. h.1 (omega arith))
