-- ===== src/Retention/Policy/Cutoffs.antt =====
-- When a retention interval expires what it keeps, for src/core/retention/policy.py.
use raglogs.Base.{
  strip, str_mem, ℕ, ◌-◌, ◌<◌, String, ◌≡◌, refl, ◌≢◌, ◌⊎◌, inl, inr, Bool, Option, none, some,
  arith, leb, Bool-cases, Option-cases,
}
use raglogs.Retention.Attempt.{Attempt, value_error, overflow_error, done, >>=-eq-done, ◌>>=◌}
use raglogs.Retention.Policy.{
  parse_retention_interval, before, compute_cutoff, never_tokens, has_space, positive,
  parse_duration, RetentionPolicy, validate_policy_intervals,
}
use Prim.Native.Char.{Char}

positive-pos :
    (delta d : ℕ) → ◌≡◌ {A = Attempt (Option ℕ)} (done (positive delta)) (done (some d)) → 0 < d
unfolding positive
positive-pos delta d e = ground arith

module _ (is_digit : Char → Bool) (lower : String → String)
    (timedelta : String → ℕ → Option ℕ) where
  abbrev parse : Option String → Attempt (Option ℕ)
  parse = parse_retention_interval is_digit lower timedelta

  abbrev cutoff_at : Option String → ℕ → Attempt (Option ℕ)
  cutoff_at = compute_cutoff is_digit lower timedelta

  parse_positive : (v : Option String) (d : ℕ) → parse v ≡ done (some d) → 0 < d
  unfolding parse_retention_interval
  parse_positive none d h = absurd (cc)
  parse_positive (some v) d h = elim (Bool-cases (str_mem (lower (strip v)) never_tokens)) [
    | inl never ↦ absurd (ground (arith, rw (parse_retention_interval, never) at h))
    | inr kept ↦ elim (Bool-cases (has_space (strip v))) [
      | inl spaced ↦ absurd (ground (arith, rw (parse_retention_interval, kept, spaced) at h))
      | inr tight ↦
          let held = rw (parse_retention_interval, kept, tight) at h in
          let (delta, e, f) =
            >>=-eq-done (parse_duration is_digit lower timedelta (strip v))
              (λ delta. done (positive delta)) held in
          positive-pos delta d f
    ]
  ]

  before-lt : (now d c : ℕ) → 0 < d → before now d ≡ done (some c) → c < now
  unfolding before
  before-lt now d c pos h = ground arith

  -- What an interval cuts off lies in the past: a cutoff is before the time of the purge.
  pub compute_cutoff-lt :
      (v : Option String) (now c : ℕ) → cutoff_at v now ≡ done (some c) → c < now
  unfolding compute_cutoff
  compute_cutoff-lt v now c h =
      let (o, e, f) =
        >>=-eq-done (parse v) (λ delta. elim delta [ none ↦ done none | some d ↦ before now d ])
          h in
      elim (Option-cases o) [
        | inl nothing ↦ absurd (ground (arith, rw nothing at f))
        | inr found ↦
            let (d, g) = found in before-lt now d c (parse_positive v d (rw g at e)) (rw g at f)
      ]

  -- An interval that parses has a cutoff unless it reaches back before the first instant.
  compute_cutoff_cases :
      (v : Option String) (o : Option ℕ) (now : ℕ)
      → parse v ≡ done o
      → ((c : Option ℕ) × (cutoff_at v now ≡ done c))
        ⊎ ((d : ℕ) × (o ≡ some d) × (now < d) × (cutoff_at v now ≡ overflow_error))
  unfolding compute_cutoff before
  compute_cutoff_cases v none now e = inl (none, rw (compute_cutoff, e) refl)
  compute_cutoff_cases v (some d) now e = elim (Bool-cases (leb d now)) [
    | inl past ↦ inl (some (now - d), rw (compute_cutoff, e, before, past) refl)
    | inr long ↦ inr (d, refl, ground arith, rw (compute_cutoff, e, before, long) refl)
  ]

  no_value_error :
      (v : Option String) (o : Option ℕ) (now : ℕ)
      → parse v ≡ done o
      → cutoff_at v now ≢ value_error
  no_value_error v o now e bad = elim (compute_cutoff_cases v o now e) [
    | inl fine ↦ let (c, g) = fine in absurd (cc)
    | inr long ↦ let (d, f, l, g) = long in absurd (cc)
  ]

  -- A policy that was validated never raises a ValueError when the purge computes its cutoffs: it can
  -- still overflow.
  pub validated-cutoffs :
      (p : RetentionPolicy) (now : ℕ)
      → validate_policy_intervals is_digit lower timedelta p ≡ done tt
      → ((cutoff_at (some p.raw_interval) now ≢ value_error)
          × (cutoff_at (some p.summary_interval) now ≢ value_error))
  unfolding validate_policy_intervals
  validated-cutoffs p now h =
      let (s, both, last) =
        >>=-eq-done (parse (some p.raw_interval) >>= (λ raw. parse (some p.summary_interval)))
          (λ summary. done tt) h in
      let (r, e, f) =
        >>=-eq-done (parse (some p.raw_interval)) (λ raw. parse (some p.summary_interval)) both in
      (
        no_value_error (some p.raw_interval) r now e,
        no_value_error (some p.summary_interval) s now f,
      )
