-- ===== src/Rca/Observable/Ids.antt =====
-- One observable for each id: when `_by_id` of src/core/rca/observable.py accepts, and what is left
-- after an observation is dropped.
use raglogs.Base.{
  filter, str_mem, String, ◌≡◌, refl, sym, ◌∙◌, inl, inr, Bool, false, List, [], ◌∷◌, ◌++◌, arith,
  Bool-cases,
}
use raglogs.Rca.Result.{ok, value_error, >>=-eq-ok, ok-injective}
use raglogs.Rca.Observable.{Observable, is_usable, by_id_from, by_id, usable_observables}

-- No id of the list is among those seen before it.
abbrev pub Fresh : List String → List Observable → Type 0
Fresh seen [] = Unit
Fresh seen (o ∷ os) = (str_mem o.id seen ≡ false) × Fresh (o.id ∷ seen) os

pub by_id_from-Fresh :
    (seen : List String) (os : List Observable) → Fresh seen os → by_id_from seen os ≡ ok os
unfolding by_id_from
by_id_from-Fresh seen [] h = refl
by_id_from-Fresh seen (o ∷ os) h = rw (h.0, by_id_from-Fresh (o.id ∷ seen) os h.1)

pub Fresh-by_id_from :
    (seen : List String) (os xs : List Observable)
    → by_id_from seen os ≡ ok xs
    → Fresh seen os × (xs ≡ os)
unfolding by_id_from
Fresh-by_id_from seen [] xs h = (tt, sym (ok-injective h))
Fresh-by_id_from seen (o ∷ os) xs h = elim (Bool-cases (str_mem o.id seen)) [
  | inl old ↦ absurd (no_ok (rw old at h))
  | inr new ↦
      let (ys, rest, e) =
        >>=-eq-ok (by_id_from (o.id ∷ seen) os) (λ ys. ok (o ∷ ys)) (rw new at h) in
      let (fresh, same) = Fresh-by_id_from (o.id ∷ seen) os ys rest in
      ((new, fresh), sym (ok-injective e) ∙ rw same)
]
  where
    no_ok : {A : Type 0} {a : A} → value_error ≡ ok a → ⊥
    no_ok p = cc

abbrev Within : List String → List String → Type 0
Within a b = (i : String) → str_mem i b ≡ false → str_mem i a ≡ false

Within-cons : (i : String) (a b : List String) → Within a b → Within (i ∷ a) (i ∷ b)
unfolding str_mem
Within-cons i a b h = λ j e. ground (arith, h j)

Within-skip : (i : String) (a b : List String) → Within a b → Within a (i ∷ b)
unfolding str_mem
Within-skip i a b h = λ j e. ground (arith, h j)

Fresh-Within : (a b : List String) (os : List Observable) → Within a b → Fresh b os → Fresh a os
Fresh-Within a b [] w h = tt
Fresh-Within a b (o ∷ os) w h =
    (w o.id h.0, Fresh-Within (o.id ∷ a) (o.id ∷ b) os (Within-cons o.id a b w) h.1)

pub Fresh-filter :
    (p : Observable → Bool) (seen : List String) (os : List Observable)
    → Fresh seen os
    → Fresh seen (filter p os)
unfolding filter
Fresh-filter p seen [] h = tt
Fresh-filter p seen (o ∷ os) h = elim (Bool-cases (p o)) [
  | inl keep ↦ rw keep (h.0, Fresh-filter p (o.id ∷ seen) os h.1)
  | inr skip ↦ rw skip (
      Fresh-filter p seen os
        (Fresh-Within seen (o.id ∷ seen) os (Within-skip o.id seen seen (λ j e. e)) h.1))
]

Fresh-drop :
    (seen : List String) (before : List Observable) (o : Observable) (after : List Observable)
    → Fresh seen (before ++ o ∷ after)
    → Fresh seen (before ++ after)
Fresh-drop seen [] o after h =
    Fresh-Within seen (o.id ∷ seen) after (Within-skip o.id seen seen (λ j e. e)) h.1
Fresh-drop seen (b ∷ before) o after h = (h.0, Fresh-drop (b.id ∷ seen) before o after h.1)

pub filter-drop :
    {A : Type 0} (p : A → Bool) (before : List A) (o : A) (after : List A)
    → p o ≡ false
    → filter p (before ++ o ∷ after) ≡ filter p (before ++ after)
unfolding filter
filter-drop p [] o after e = rw e
filter-drop p (b ∷ before) o after e = rw (filter-drop p before o after e)

-- The usable observables are a filter of the list, when no id occurs twice.
pub usable_observables-eq-ok :
    (os xs : List Observable)
    → usable_observables os ≡ ok xs
    → Fresh [] os × (xs ≡ filter is_usable os)
unfolding usable_observables by_id
usable_observables-eq-ok os xs h =
    let (ys, e, f) = >>=-eq-ok (by_id_from [] os) (λ ys. ok (filter is_usable ys)) h in
    let (fresh, same) = Fresh-by_id_from [] os ys e in (fresh, sym (ok-injective f) ∙ rw same)

pub usable_observables-Fresh :
    (os : List Observable) → Fresh [] os → usable_observables os ≡ ok (filter is_usable os)
unfolding usable_observables by_id
usable_observables-Fresh os h = rw (by_id_from-Fresh [] os h)

-- Dropping one observation keeps the ids distinct.
pub Fresh-remove :
    (before : List Observable) (o : Observable) (after : List Observable)
    → Fresh [] (before ++ o ∷ after)
    → Fresh [] (before ++ after)
Fresh-remove = Fresh-drop []
