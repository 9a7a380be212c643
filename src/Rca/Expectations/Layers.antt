-- ===== src/Rca/Expectations/Layers.antt =====
-- The two layers of evidence of src/core/rca/expectations.py: hard contradictions eliminate, soft
-- expectations never do.
use raglogs.Base.{
  filter, any, str_mem, str_eq, eq_iff, eq_refl, String, ◌≡◌, refl, sym, ap, ◌∙◌, ◌↔◌, inl, inr,
  Bool, true, false, not, some, List, [], ◌∷◌, map, arith, Option-cases, In, In-filter, any-In,
  any_of-In, map-In,
}
use raglogs.Rca.Result.{require-then, ok, >>=-eq-ok, ok-injective}
use raglogs.Rca.Observable.{Observable, lookup, is_usable, usable_observables}
use raglogs.Rca.Observable.Ids.{Fresh, Fresh-filter, usable_observables-eq-ok}
use raglogs.Rca.Expectations.{
  ObservationModel, ExpectedObservation, Contradiction, Strength, states, states_of, is_coherent,
  all, contradicts, observed_states, hard_incompatibility, predictions, post_init, distinct_ids,
}
use raglogs.Rca.Expectations.Facts.{lookup-states, states-lookup}

str_mem_self : (s : String) (ts : List String) → str_mem s (s ∷ ts) ≡ true
unfolding str_mem
str_mem_self s ts = rw (eq_refl s)

-- The usable observation `o` is in a state that the rule `c` forbids.
pub record Refutes (m : ObservationModel) (os : List Observable) : Type 0 where
  pub rule : Contradiction
  pub observation : Observable
  pub state : String
  pub listed : In rule m.contradictions
  pub made : In observation os
  pub usable : is_usable observation ≡ true
  pub about : observation.id ≡ rule.observable_id
  pub measured : observation.state ≡ some state
  pub forbidden : str_mem state rule.states ≡ true

observed_states-eq-ok :
    (os : List Observable) (facts : List (String × String))
    → observed_states os ≡ ok facts
    → Fresh [] os × (facts ≡ states (filter is_usable os))
unfolding observed_states
observed_states-eq-ok os facts h =
    let (xs, e, f) = >>=-eq-ok (usable_observables os) (λ xs. ok (states xs)) h in
    let (fresh, same) = usable_observables-eq-ok os xs e in
    (fresh, sym (ok-injective f) ∙ ap states same)

contradicts-state :
    (facts : List (String × String)) (c : Contradiction)
    → contradicts facts c ≡ true
    → (s : String) × (lookup c.observable_id facts ≡ some s) × (str_mem s c.states ≡ true)
unfolding contradicts
contradicts-state facts c h = elim (Option-cases (lookup c.observable_id facts)) [
  | inl e ↦ absurd (cc (rw (e, contradicts) at h))
  | inr (s, e) ↦ (s, e, rw (e, contradicts) at h)
]

state-contradicts :
    (facts : List (String × String)) (c : Contradiction) (s : String)
    → lookup c.observable_id facts ≡ some s
    → str_mem s c.states ≡ true
    → contradicts facts c ≡ true
unfolding contradicts
state-contradicts facts c s e h = rw (e, contradicts) h

-- Where the test returns, a hypothesis is incompatible exactly when some usable observation is in
-- a state that one of its contradiction rules forbids: an observation that is missing or not
-- collectable never eliminates it.
pub hard_incompatibility_iff :
    (m : ObservationModel) (os : List Observable) (b : Bool)
    → hard_incompatibility m os ≡ ok b
    → (b ≡ true) ↔ Refutes m os
unfolding hard_incompatibility
hard_incompatibility_iff m os b h =
    let (facts, e, f) =
      >>=-eq-ok (observed_states os) (λ facts. ok (any (contradicts facts) m.contradictions)) h in
    let (fresh, same) = observed_states-eq-ok os facts e in
    let xs = filter is_usable os in
    let b_eq : b ≡ any (contradicts facts) m.contradictions = sym (ok-injective f) in
    (
      λ t.
          let (c, listed, fires) = any-In (contradicts facts) m.contradictions (sym b_eq ∙ t) in
          let (s, found, forbidden) = contradicts-state facts c fires in
          let (o, made, about, measured) = lookup-states c.observable_id s xs (rw same at found) in
          record {
            rule = c;
            observation = o;
            state = s;
            listed = listed;
            made = ((In-filter is_usable o os).0 made).0;
            usable = ((In-filter is_usable o os).0 made).1;
            about = about;
            measured = measured;
            forbidden = forbidden;
          },
      λ r.
          b_eq
          ∙ any_of-In (contradicts facts) r.rule m.contradictions r.listed (
              state-contradicts facts r.rule r.state
                (rw (same, ← r.about)
                  (states-lookup [] xs r.observation r.state (Fresh-filter is_usable [] os fresh)
                    ((In-filter is_usable r.observation os).1 (r.made, r.usable)) r.measured))
                r.forbidden),
    )

abbrev pub with_strength :
    (ExpectedObservation → Strength) → ExpectedObservation → ExpectedObservation
with_strength choose e = record e { strength = choose e }

-- `m` with another choice of the soft strengths.
abbrev pub restrength : (ExpectedObservation → Strength) → ObservationModel → ObservationModel
restrength choose m = record m { expected = map (with_strength choose) m.expected }

predictions-restrength :
    (choose : ExpectedObservation → Strength) (es : List ExpectedObservation)
    → ◌≡◌ {A = List (String × String)}
        (map (λ e. (e.observable_id, e.expected_state)) (map (with_strength choose) es))
        (map (λ e. (e.observable_id, e.expected_state)) es)
predictions-restrength choose [] = refl
predictions-restrength choose (e ∷ es) =
    ap (◌∷◌ (e.observable_id, e.expected_state)) (predictions-restrength choose es)

-- The strengths of the soft expectations enter neither the predictions, on which the classes of the
-- partition rest, nor the elimination.
pub strength_is_support_only :
    (choose : ExpectedObservation → Strength) (m : ObservationModel) (os : List Observable)
    → (predictions (restrength choose m) ≡ predictions m)
      × (hard_incompatibility (restrength choose m) os ≡ hard_incompatibility m os)
unfolding predictions hard_incompatibility
strength_is_support_only choose m os = (predictions-restrength choose m.expected, refl)

all-In : {A : Type 0} (p : A → Bool) (xs : List A) (x : A) → all p xs ≡ true → In x xs → p x ≡ true
unfolding all
all-In p [] x h m = absurd m
all-In p (y ∷ ys) x h (inl same) = rw same (ground arith)
all-In p (y ∷ ys) x h (inr later) = all-In p ys x (ground arith) later

distinct_ids-new :
    (seen is : List String) (i : String)
    → distinct_ids seen is ≡ true
    → In i is
    → str_mem i seen ≡ false
unfolding distinct_ids str_mem
distinct_ids-new seen [] i h m = absurd m
distinct_ids-new seen (j ∷ is) i h (inl same) = rw same (ground arith)
distinct_ids-new seen (j ∷ is) i h (inr later) =
    ground (arith, distinct_ids-new (j ∷ seen) is i (ground arith) later)

not_seen : (i j : String) (seen : List String) → str_mem i (j ∷ seen) ≡ false → str_eq j i ≡ false
unfolding str_mem
not_seen i j seen h = ground (arith, eq_iff i j, eq_iff j i)

-- With distinct ids the rule for an id is the one that is found.
states_of-rule :
    (seen : List String) (cs : List Contradiction) (c : Contradiction)
    → distinct_ids seen (map (λ c. c.observable_id) cs) ≡ true
    → In c cs
    → states_of c.observable_id cs ≡ some c.states
unfolding states_of distinct_ids
states_of-rule seen [] c h m = absurd m
states_of-rule seen (d ∷ cs) c h (inl same) = rw same (rw (eq_refl d.observable_id))
states_of-rule seen (d ∷ cs) c h (inr later) =
    let new =
      distinct_ids-new (d.observable_id ∷ seen) (map (λ c. c.observable_id) cs) c.observable_id
        (ground arith) (map-In (λ (c : Contradiction). c.observable_id) c cs later) in
    rw (not_seen c.observable_id d.observable_id seen new)
      (states_of-rule (d.observable_id ∷ seen) cs c (ground arith) later)

unforced : (b : Bool) → not b ≡ true → b ≡ false
unforced true h = cc
unforced false h = refl

is_coherent-forbids :
    (cs : List Contradiction) (e : ExpectedObservation) (ss : List String)
    → states_of e.observable_id cs ≡ some ss
    → is_coherent cs e ≡ true
    → str_mem e.expected_state ss ≡ false
unfolding is_coherent
is_coherent-forbids cs e ss h fits =
    unforced (str_mem e.expected_state ss) (rw (h, is_coherent) at fits)

-- In a model that was accepted, an observed state that supports the hypothesis, being the one
-- expected, is forbidden by no rule of the same coordinate.
pub post_init-coherent :
    (m n : ObservationModel) (facts : List (String × String)) (e : ExpectedObservation)
    (c : Contradiction)
    → post_init m ≡ ok n
    → In e m.expected
    → In c m.contradictions
    → c.observable_id ≡ e.observable_id
    → lookup e.observable_id facts ≡ some e.expected_state
    → contradicts facts c ≡ false
unfolding post_init contradicts
post_init-coherent m n facts e c h me mc same found =
    let (_, h1) = require-then (distinct_ids [] (map (λ e. e.observable_id) m.expected)) _ h in
    let (rules, h2) =
      require-then (distinct_ids [] (map (λ c. c.observable_id) m.contradictions)) _ h1 in
    let (coherent, _) = require-then (all (is_coherent m.contradictions) m.expected) _ h2 in
    let fits = all-In (is_coherent m.contradictions) m.expected e coherent me in
    let stated = states_of-rule [] m.contradictions c rules mc in
    rw (same, found, contradicts)
      (is_coherent-forbids m.contradictions e c.states
        (ap (λ i. states_of i m.contradictions) (sym same) ∙ stated) fits)
