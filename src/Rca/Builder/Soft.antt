-- ===== src/Rca/Builder/Soft.antt =====
-- The hypotheses rule nothing out, for src/core/rca/structural_model.py.
use raglogs.Base.{
  any, str_eq, String, ◌≡◌, sym, ap, ◌≢◌, inl, inr, Bool, true, false, not, Option, none, some,
  List, [], ◌∷◌, map, In,
}
use raglogs.Rca.Result.{ok, ◌>>=◌, >>=-eq-ok, Result, value_error, require, ◌>>◌}
use raglogs.Rca.Observable.{Observable}
use raglogs.Rca.Expectations.{
  ObservationModel, observed_states, contradicts, hard_incompatibility, predictions, distinct_ids,
  is_coherent, all,
}
use raglogs.Rca.Hypothesis.{Hypothesis, process, from_observation_model, authoritative}
use raglogs.Rca.Builder.{
  EdgeSignal, UtilSignal, hypothesis_of, ServiceSignal, expect_present, expected_extra,
  build_hypotheses, candidates, hypotheses_of,
}
use raglogs.Rca.Expectations
use raglogs.Rca.Hypothesis.{hard_incompatibility as is_refuted, post_init as check_hypothesis}
use mathlib.Core.Path.{subst}
use Prim.Native.String.{◌++◌ as append}

pub ok_inj : {T : Type 0} (a b : T) → ◌≡◌ {A = Result T} (ok a) (ok b) → a ≡ b
ok_inj a b e = cc

-- What three checks, and two checks before a call, pass on.
checked :
    {T : Type 0} (a b c : Bool) (m n : T)
    → ◌≡◌ {A = Result T} (require a >> (require b >> (require c >> ok m))) (ok n)
    → n ≡ m
checked false b c m n e = absurd (cc)
checked true false c m n e = absurd (cc)
checked true true false m n e = absurd (cc)
checked true true true m n e = sym (ok_inj m n e)

passed :
    {T U : Type 0} (a b : Bool) (o : Result T) (f : T → U) (u : U)
    → ◌≡◌ {A = Result U} (require a >> (require b >> (o >>= (λ t. ok (f t))))) (ok u)
    → (t : T) × (u ≡ f t)
passed false b o f u e = absurd (cc)
passed true false o f u e = absurd (cc)
passed true true value_error f u e = absurd (cc)
passed true true (ok t) f u e = (t, sym (ok_inj (f t) u e))

-- The checks of a model return the model, and those of a hypothesis keep its model.
checked_model : (m n : ObservationModel) → Expectations.post_init m ≡ ok n → n ≡ m
unfolding Expectations.post_init
checked_model m n e =
    checked (Expectations.distinct_ids [] (map (λ e. e.observable_id) m.expected))
      (Expectations.distinct_ids [] (map (λ c. c.observable_id) m.contradictions))
      (Expectations.all (Expectations.is_coherent m.contradictions) m.expected) m n e

kept_model :
    {S : Type 0} (id localization : String) (m : ObservationModel) (h : Hypothesis S)
    → from_observation_model id process localization m none ≡ ok h
    → h.observation_model ≡ some m
unfolding from_observation_model check_hypothesis
kept_model {S = S} id localization m h e =
    let make : List (String × String) → Hypothesis S = λ supplied. record {
      id = id;
      kind = process;
      localization = localization;
      predictions = supplied;
      observation_model = some m;
      source = none;
    } in
    let (t, f) =
      passed (not (str_eq id "")) (not (str_eq localization ""))
        (authoritative (Expectations.predictions m) (some m)) make h e in
    ap (λ g. g.observation_model) f

-- A hypothesis without contradictions is not refuted by any observations.
soft_unrefuted :
    {S : Type 0} (h : Hypothesis S) (m : ObservationModel) (os : List Observable) (b : Bool)
    → h.observation_model ≡ some m
    → m.contradictions ≡ []
    → is_refuted h os ≡ ok b
    → b ≡ false
unfolding is_refuted any Expectations.hard_incompatibility
soft_unrefuted h m os b e f g =
    let opened = rw (is_refuted, e) at g in
    let (facts, a, e1) =
      >>=-eq-ok (Expectations.observed_states os)
        (λ facts. ok (any (Expectations.contradicts facts) m.contradictions)) opened in
    let last =
      subst (λ cs. ◌≡◌ {A = Result Bool} (ok (any (Expectations.contradicts facts) cs)) (ok b)) f
        e1 in
    sym (ok_inj false b last)

module _ {F : Type 0} {S : Type 0} where
  -- The model of a hypothesis that is built has no contradictions.
  hypothesis_of-soft :
      (edge_signals : List (EdgeSignal F)) (util_signals : List (UtilSignal F)) (svc : String)
      (h : Hypothesis S)
      → hypothesis_of edge_signals util_signals svc ≡ ok h
      → (m : ObservationModel) × (h.observation_model ≡ some m) × (m.contradictions ≡ [])
  unfolding hypothesis_of
  hypothesis_of-soft edge_signals util_signals svc h e =
      let (expected, a, e1) =
        >>=-eq-ok
          (expect_present (append "sig:" svc ∷ expected_extra svc edge_signals util_signals))
          (λ expected.
            Expectations.post_init (record { expected = expected; contradictions = [] })
            >>= (λ model. from_observation_model (append "process:" svc) process svc model none))
          e in
      let (model, b, e2) =
        >>=-eq-ok (Expectations.post_init (record { expected = expected; contradictions = [] }))
          (λ model. from_observation_model (append "process:" svc) process svc model none) e1 in
      (
        model,
        kept_model (append "process:" svc) svc model h e2,
        ap (λ m. m.contradictions)
            (checked_model (record { expected = expected; contradictions = [] }) model b),
      )

  hypotheses_of-soft :
      (edge_signals : List (EdgeSignal F)) (util_signals : List (UtilSignal F))
      (services : List String) (hs : List (Hypothesis S)) (h : Hypothesis S)
      → hypotheses_of edge_signals util_signals services ≡ ok hs
      → In h hs
      → (m : ObservationModel) × (h.observation_model ≡ some m) × (m.contradictions ≡ [])
  unfolding hypotheses_of
  hypotheses_of-soft edge_signals util_signals [] hs h e i = absurd (rw (sym (ok_inj [] hs e)) at i)
  hypotheses_of-soft edge_signals util_signals (svc ∷ services) hs h e i =
      let (first, a, e1) =
        >>=-eq-ok (hypothesis_of edge_signals util_signals svc)
          (λ h. hypotheses_of edge_signals util_signals services >>= (λ hs. ok (h ∷ hs))) e in
      let (rest, b, e2) =
        >>=-eq-ok (hypotheses_of edge_signals util_signals services) (λ hs. ok (first ∷ hs)) e1 in
      elim (rw (sym (ok_inj (first ∷ rest) hs e2)) at i) [
        | inl same ↦
            subst
              (λ g.
                (m : ObservationModel) × (◌≡◌ {A = Option ObservationModel} (g.observation_model)
                  (some m))
                × (m.contradictions ≡ []))
              (sym same) (hypothesis_of-soft edge_signals util_signals svc first a)
        | inr later ↦ hypotheses_of-soft edge_signals util_signals services rest h b later
      ]

  -- No hypothesis of those that are built can be refuted: whatever is observed, its hard layer finds no
  -- contradiction.
  pub build_hypotheses-unrefuted :
      (signals : List (String × ServiceSignal F)) (edges : List (String × String))
      (edge_signals : List (EdgeSignal F)) (util_signals : List (UtilSignal F))
      (hs : List (Hypothesis S)) (h : Hypothesis S) (os : List Observable)
      → build_hypotheses signals edges edge_signals util_signals ≡ ok hs
      → In h hs
      → is_refuted h os ≢ ok true
  unfolding build_hypotheses
  build_hypotheses-unrefuted signals edges edge_signals util_signals hs h os e i g =
      let (m, f, c) =
        hypotheses_of-soft edge_signals util_signals
          (candidates signals edges edge_signals util_signals) hs h e i in
      absurd (distinct (soft_unrefuted h m os true f c g))
    where
      distinct : ◌≡◌ {A = Bool} true false → ⊥
      distinct e = cc
