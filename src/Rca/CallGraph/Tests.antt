-- ===== src/Rca/CallGraph/Tests.antt =====
-- Concrete spans for src/core/rca/structural_model.py.
use raglogs.Base.{
  str_eq, ℕ, String, ◌≡◌, refl, sym, ap, ◌∙◌, ◌≢◌, inl, inr, true, false, none, some, List, [], ◌∷◌,
  In,
}
use raglogs.Rca.CallGraph.{
  Span, is_given, is_indexed, service_of, is_before, edge_of, edges_from, call_edges,
}
use raglogs.Rca.CallGraph.Sound.{IsCall, call_edges-IsCall, call_edges_complete}

abbrev span : String → String → String → String → ℕ → Span
span trace_id span_id parent_span_id service t = record {
  trace_id = trace_id;
  span_id = span_id;
  parent_span_id = parent_span_id;
  service = service;
  start_time = some t;
}

-- Two traces that use the same span ids, and a call before the time that is asked for.
abbrev checkout_span : Span
checkout_span = span "t1" "a" "" "checkout" 5

abbrev payment_span : Span
payment_span = span "t1" "b" "a" "payment" 20

abbrev traces : List Span
traces =
    checkout_span ∷ payment_span ∷ span "t2" "a" "" "search" 4 ∷ span "t2" "b" "a" "index" 6 ∷ []

incident_edges : call_edges traces (some 10) ≡ ("checkout", "payment") ∷ []
unfolding call_edges edges_from edge_of service_of is_indexed is_given is_before
incident_edges = refl

all_edges : call_edges traces none ≡ ("checkout", "payment") ∷ ("search", "index") ∷ []
unfolding call_edges edges_from edge_of service_of is_indexed is_given is_before
all_edges = refl

shown : In ("checkout", "payment") (call_edges traces (some 10))
shown = rw incident_edges (inl refl)

call_edges-IsCall_example : IsCall (some 10) traces "checkout" "payment"
call_edges-IsCall_example = call_edges-IsCall traces (some 10) "checkout" "payment" shown

elsewhere :
    (q p : Span)
    → q ≡ p
    → is_indexed "t1" "a" q ≡ true
    → is_indexed "t1" "a" p ≡ false
    → q.service ≡ "checkout"
elsewhere q p e x y =
    let clash : true ≡ false = sym x ∙ ap (λ s. is_indexed "t1" "a" s) e ∙ y in absurd (cc)

one_parent : (q : Span) → In q traces → is_indexed "t1" "a" q ≡ true → q.service ≡ "checkout"
unfolding is_indexed is_given
one_parent q (inl e) x = ap (λ s. s.service) e
one_parent q (inr (inl e)) x = elsewhere q _ e x refl
one_parent q (inr (inr (inl e))) x = elsewhere q _ e x refl
one_parent q (inr (inr (inr (inl e)))) x = elsewhere q _ e x refl
one_parent q (inr (inr (inr (inr i)))) x = absurd i

apart : checkout_span.service ≢ payment_span.service
apart e = let clash : false ≡ true = ap (λ s. str_eq s "payment") e in absurd (cc)

call_edges_complete_example : In ("checkout", "payment") (call_edges traces (some 10))
unfolding is_indexed is_given is_before
call_edges_complete_example =
    call_edges_complete traces (some 10) payment_span checkout_span (inr (inl refl)) (inl refl) refl
      refl refl refl apart one_parent
