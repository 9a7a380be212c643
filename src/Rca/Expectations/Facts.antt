-- ===== src/Rca/Expectations/Facts.antt =====
-- What `_observed_states` of src/core/rca/expectations.py says of an id.
use raglogs.Base.{
  str_mem, str_eq, eq_iff, String, ◌≡◌, refl, sym, ap, ◌∙◌, inl, inr, true, false, some, List, [],
  ◌∷◌, arith, Bool-cases, Option-cases, In,
}
use raglogs.Rca.Observable.{Observable, lookup}
use raglogs.Rca.Observable.Ids.{Fresh}
use raglogs.Rca.Expectations.{states}

str_eq_refl : (s t : String) → s ≡ t → str_eq s t ≡ true
str_eq_refl s t e = (eq_iff s t).1 e

-- A state that is looked up was measured.
pub lookup-states :
    (i s : String) (xs : List Observable)
    → lookup i (states xs) ≡ some s
    → (o : Observable) × In o xs × (o.id ≡ i) × (o.state ≡ some s)
unfolding states lookup
lookup-states i s [] h = absurd (cc)
lookup-states i s (o ∷ xs) h = elim (Option-cases o.state) [
  | inl e ↦ let (p, m, q, r) = lookup-states i s xs (rw (e, states) at h) in (p, inr m, q, r)
  | inr (t, e) ↦ elim (Bool-cases (str_eq o.id i)) [
    | inl same ↦ (o, inl refl, (eq_iff o.id i).0 same, e ∙ (rw (e, states, same) at h))
    | inr other ↦
        let (p, m, q, r) = lookup-states i s xs (rw (e, states, other) at h) in (p, inr m, q, r)
  ]
]

Fresh-new :
    (seen : List String) (xs : List Observable) (o : Observable) (i : String)
    → Fresh seen xs
    → In o xs
    → str_mem i seen ≡ true
    → str_eq i o.id ≡ false
unfolding str_mem
Fresh-new seen [] o i f m e = absurd m
Fresh-new seen (x ∷ xs) o i f (inl same) e = rw same (ground (arith, f.0, eq_iff i x.id))
Fresh-new seen (x ∷ xs) o i f (inr later) e =
    Fresh-new (x.id ∷ seen) xs o i f.1 later (ground arith)

-- A measured state is the one that is looked up, where no id occurs twice.
pub states-lookup :
    (seen : List String) (xs : List Observable) (o : Observable) (s : String)
    → Fresh seen xs
    → In o xs
    → o.state ≡ some s
    → lookup o.id (states xs) ≡ some s
unfolding states lookup
states-lookup seen [] o s f m e = absurd m
states-lookup seen (x ∷ xs) o s f (inl same) e =
    rw same (
      rw (sym (ap (λ (p : Observable). p.state) same) ∙ e, states)
        (rw (str_eq_refl x.id x.id refl)))
states-lookup seen (x ∷ xs) o s f (inr later) e =
    let ih = states-lookup (x.id ∷ seen) xs o s f.1 later e in
    let new =
      Fresh-new (x.id ∷ seen) xs o x.id f.1 later
        (unfold str_mem in rw (str_eq_refl x.id x.id refl)) in
    elim (Option-cases x.state) [
      | inl none_ ↦ rw (none_, states) ih
      | inr (t, some_) ↦ rw (some_, states) (rw new ih)
    ]
