-- ===== src/Retention/Policy.antt =====
-- The retention intervals of src/core/retention/policy.py, and the durations of src/utils/time.py
-- they are written as. Times and intervals count microseconds; the clock starts at `datetime.min`.
-- Parameters: `\d` of a regular expression, `str.lower`, and the `timedelta` of so many units of so
-- many seconds for the text of a number, which overflows (`none`) past Python's bound.
pub mod Cutoffs
use raglogs.Base.{
  is_space, lstrip, strip, str_mem, str_eq, ℕ, ◌-◌, String, Bool, true, false, not, ◌&&◌, ◌||◌,
  Option, none, some, List, [], ◌∷◌, leb, ◌==◌, if◌then◌else◌,
}
use raglogs.Retention.Attempt.{Attempt, value_error, overflow_error, out_of_fuel, done, ◌>>=◌}
use Prim.Native.Char.{Char, code}
use Prim.Native.String.{◌++◌ as append}

pub record RetentionPolicy : Type 0 where
  pub scope : String
  pub raw_interval : String
  pub summary_interval : String

-- A row of `scope_retention`, by its key.
pub record ScopeRetention : Type 0 where
  pub scope : String
  pub raw_interval : Option String
  pub summary_interval : Option String

-- `NEVER_TOKENS`
abbrev pub never_tokens : List String
never_tokens = "" ∷ "0" ∷ "off" ∷ "none" ∷ "never" ∷ "false" ∷ []

-- The longest prefix of characters that pass, and what follows it.
unfoldable pub span : (Char → Bool) → String → String × String
span p String.[] = (String.[], String.[])
span p (String.◌∷◌ c s) =
    let rest = span p s in
    if p c then (String.◌∷◌ c rest.0, rest.1) else (String.[], String.◌∷◌ c s)

-- `any(ch.isspace() for ch in s)`
unfoldable pub has_space : String → Bool
unfolding is_space
has_space String.[] = false
has_space (String.◌∷◌ c s) = is_space (code c) || has_space s

-- The seconds of a unit.
unfoldable pub unit_seconds : String → Option ℕ
unfolding str_mem
unit_seconds unit =
    if str_mem unit ("s" ∷ "sec" ∷ [])
    then some 1
    else if str_mem unit ("m" ∷ "min" ∷ [])
    then some 60
    else if str_mem unit ("h" ∷ "hr" ∷ [])
    then some 3600
    else if str_mem unit ("d" ∷ "day" ∷ "days" ∷ [])
    then some 86400
    else if str_mem unit ("w" ∷ "week" ∷ "weeks" ∷ [])
    then some 604800
    else none

-- The `(?:\.\d+)?` behind the digits: what it matches, and the text behind it.
unfoldable pub fraction : (Char → Bool) → String → String × String
unfolding span
fraction is_digit String.[] = ("", "")
fraction is_digit (String.◌∷◌ c s) =
    let digits = span is_digit s in
    if code c == 0x2e && not (str_eq digits.0 "")
    then (String.◌∷◌ c digits.0, digits.1)
    else ("", String.◌∷◌ c s)

-- `if delta.total_seconds() <= 0: return None`
unfoldable pub positive : ℕ → Option ℕ
positive delta = if delta == 0 then none else some delta

-- `clock - delta`, which overflows before `datetime.min`
unfoldable pub before : ℕ → ℕ → Attempt (Option ℕ)
before now delta = if leb delta now then done (some (now - delta)) else overflow_error

module _ (is_digit : Char → Bool) (lower : String → String)
    (timedelta : String → ℕ → Option ℕ) where
  -- `timedelta(…=value)`
  unfoldable pub make_delta : String → Option ℕ → Attempt ℕ
  make_delta number none = value_error
  make_delta number (some seconds) = elim (timedelta number seconds) [
    | none ↦ overflow_error
    | some delta ↦ done delta
  ]

  unfoldable pub parse_duration : String → Attempt ℕ
  unfolding strip span lstrip fraction make_delta unit_seconds
  parse_duration duration_str =
      let digits = span is_digit (strip duration_str) in
      let more = fraction is_digit digits.1 in
      if str_eq digits.0 ""
      then value_error
      else make_delta (append digits.0 more.0) (unit_seconds (lower (lstrip more.1)))

  unfoldable pub is_retention_disabled : Option String → Attempt Bool
  unfolding strip str_mem parse_duration
  is_retention_disabled none = done true
  is_retention_disabled (some value) =
      let stripped = lower (strip value) in
      if str_mem stripped never_tokens then done true else elim (parse_duration stripped) [
        | value_error ↦ done false
        | overflow_error ↦ overflow_error
        | out_of_fuel ↦ out_of_fuel
        | done delta ↦ done (delta == 0)
      ]

  unfoldable pub parse_retention_interval : Option String → Attempt (Option ℕ)
  unfolding strip str_mem has_space parse_duration positive
  parse_retention_interval none = done none
  parse_retention_interval (some value) =
      let stripped = strip value in
      if str_mem (lower stripped) never_tokens
      then done none
      else if has_space stripped
      then value_error
      else (parse_duration stripped >>= (λ delta. done (positive delta)))

  unfoldable pub compute_cutoff : Option String → ℕ → Attempt (Option ℕ)
  unfolding parse_retention_interval before
  compute_cutoff interval now =
      parse_retention_interval interval
      >>= (λ delta. elim delta [ none ↦ done none | some d ↦ before now d ])

  unfoldable pub validate_policy_intervals : RetentionPolicy → Attempt (Unit {0})
  unfolding parse_retention_interval
  validate_policy_intervals policy =
      parse_retention_interval (some policy.raw_interval)
      >>= (λ raw. parse_retention_interval (some policy.summary_interval))
      >>= (λ summary. done tt)

-- A column that is missing gives way to the default.
unfoldable pub or_default : Option String → String → String
or_default none default_ = default_
or_default (some value) default_ = value

unfoldable pub apply_scope_override :
    (scope default_raw default_summary : String) (override_raw override_summary : Option String)
    → RetentionPolicy
unfolding or_default
apply_scope_override scope default_raw default_summary override_raw override_summary = record {
  scope = scope;
  raw_interval = or_default override_raw default_raw;
  summary_interval = or_default override_summary default_summary;
}

-- `db.get(ScopeRetention, scope)`
unfoldable pub get_retention : String → List ScopeRetention → Option ScopeRetention
get_retention scope [] = none
get_retention scope (row ∷ rows) =
    if str_eq row.scope scope then some row else get_retention scope rows

unfoldable pub resolve_scope_policy :
    (defaults : String × String) → List ScopeRetention → String → RetentionPolicy
unfolding get_retention apply_scope_override
resolve_scope_policy defaults rows scope = elim (get_retention scope rows) [
  | none ↦ apply_scope_override scope defaults.0 defaults.1 none none
  | some row ↦
      apply_scope_override scope defaults.0 defaults.1 row.raw_interval row.summary_interval
]
