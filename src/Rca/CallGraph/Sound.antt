-- ===== src/Rca/CallGraph/Sound.antt =====
-- No edge is invented and none is left out, for `call_edges` in src/core/rca/structural_model.py.
use raglogs.Base.{
  str_eq, eq_iff, ℕ, String, ◌≡◌, refl, sym, ap, ◌∙◌, ◌≢◌, inl, inr, true, false, ◌&&◌, Option,
  some, List, [], ◌∷◌, arith, Bool-cases, Option-cases, In,
}
use mathlib.Core.Option.{some_inj}
use raglogs.Rca.CallGraph.{
  Span, is_given, is_indexed, service_of, is_before, edge_of, edges_from, call_edges,
}

-- A child span of one service whose parent, in the same trace, is of another; the child is not before
-- the time that was asked for.
pub record IsCall (since : Option ℕ) (spans : List Span) (caller callee : String) : Type 0 where
  pub child : Span
  pub parent : Span
  pub child_seen : In child spans
  pub parent_seen : In parent spans
  pub same_trace : parent.trace_id ≡ child.trace_id
  pub parent_id : parent.span_id ≡ child.parent_span_id
  pub trace_given : is_given child.trace_id ≡ true
  pub calls : parent.service ≡ caller
  pub called : child.service ≡ callee
  pub apart : caller ≢ callee
  pub in_time : is_before since child.start_time ≡ false

service_of-In :
    (trace_id span_id service : String) (spans : List Span)
    → service_of trace_id span_id spans ≡ some service
    → (p : Span) × In p spans × (is_indexed trace_id span_id p ≡ true) × (p.service ≡ service)
unfolding service_of
service_of-In trace_id span_id service [] e = absurd (cc)
service_of-In trace_id span_id service (sp ∷ spans) e =
    elim (Option-cases (service_of trace_id span_id spans)) [
      | inr found ↦
          let (s, f) = found in
          let (p, i, x, c) = service_of-In trace_id span_id s spans f in
          (p, inr i, x, c ∙ (let e' = rw f at e in cc))
      | inl missing ↦ elim (Bool-cases (is_indexed trace_id span_id sp)) [
        | inl here ↦ (sp, inl refl, here, (let e' = rw (missing, here) at e in cc))
        | inr away ↦ absurd (let e' = rw (missing, away) at e in cc)
      ]
    ]

edge_of-IsCall :
    (since : Option ℕ) (spans : List Span) (sp : Span) (caller callee : String)
    → In sp spans
    → edge_of since spans sp ≡ some (caller, callee)
    → IsCall since spans caller callee
unfolding edge_of is_indexed
edge_of-IsCall since spans sp caller callee i e =
    elim (Bool-cases (is_given sp.trace_id && is_given sp.parent_span_id && is_given sp.service)) [
      | inr lacks ↦ absurd (let e' = rw lacks at e in cc)
      | inl given ↦ elim (Bool-cases (is_before since sp.start_time)) [
        | inl early ↦ absurd (let e' = rw (given, early) at e in cc)
        | inr late ↦ elim (Option-cases (service_of sp.trace_id sp.parent_span_id spans)) [
          | inl missing ↦ absurd (let e' = rw (given, late, missing) at e in cc)
          | inr found ↦
              let (s, f) = found in
              elim (Bool-cases (str_eq s sp.service)) [
                | inl same ↦ absurd (let e' = rw (given, late, f, same) at e in cc)
                | inr other ↦
                    let (p, j, x, c) = service_of-In sp.trace_id sp.parent_span_id s spans f in
                    let e' = rw (given, late, f, other) at e in
                    let pair = some_inj.0 e' in
                    let from : s ≡ caller = ap (λ q. q.0) pair in
                    let to : sp.service ≡ callee = ap (λ q. q.1) pair in
                    record {
                      child = sp;
                      parent = p;
                      child_seen = i;
                      parent_seen = j;
                      same_trace = (eq_iff p.trace_id sp.trace_id).0 (ground arith);
                      parent_id = (eq_iff p.span_id sp.parent_span_id).0 (ground arith);
                      trace_given = ground arith;
                      calls = c ∙ from;
                      called = to;
                      apart = λ k. ground (arith, (eq_iff s sp.service).1 (from ∙ k ∙ sym to));
                      in_time = late;
                    }
              ]
        ]
      ]
    ]

edges_from-IsCall :
    (spans : List Span) (since : Option ℕ) (caller callee : String) (rest : List Span)
    → ((sp : Span) → In sp rest → In sp spans)
    → In (caller, callee) (edges_from since spans rest)
    → IsCall since spans caller callee
unfolding edges_from
edges_from-IsCall spans since caller callee [] sub i = absurd i
edges_from-IsCall spans since caller callee (sp ∷ rest) sub i =
    let later = edges_from-IsCall spans since caller callee rest (λ q j. sub q (inr j)) in
    elim (Option-cases (edge_of since spans sp)) [
      | inl no_edge ↦ later (rw (edges_from, no_edge) at i)
      | inr found ↦
          let (edge, f) = found in
          let i' = rw (edges_from, f) at i in
          elim i' [
            | inl same ↦
                edge_of-IsCall since spans sp caller callee (sub sp (inl refl))
                  (f ∙ ap some (sym same))
            | inr more ↦ later more
          ]
    ]

-- Every edge is shown by two spans of one trace: the caller's, and a child of it that is the callee's
-- and not before the time asked for; no service calls itself.
pub call_edges-IsCall :
    (spans : List Span) (since : Option ℕ) (caller callee : String)
    → In (caller, callee) (call_edges spans since)
    → IsCall since spans caller callee
unfolding call_edges
call_edges-IsCall spans since caller callee i =
    edges_from-IsCall spans since caller callee spans (λ sp j. j) i

service_of-all :
    (trace_id span_id : String) (p : Span) (spans : List Span)
    → In p spans
    → is_indexed trace_id span_id p ≡ true
    → ((q : Span) → In q spans → is_indexed trace_id span_id q ≡ true → q.service ≡ p.service)
    → service_of trace_id span_id spans ≡ some p.service
unfolding service_of
service_of-all trace_id span_id p [] i x agree = absurd i
service_of-all trace_id span_id p (sp ∷ spans) i x agree =
    let rest : ((q : Span)
        → In q spans
        → is_indexed trace_id span_id q ≡ true
        → q.service ≡ p.service) =
      λ q j. agree q (inr j) in
    elim (Option-cases (service_of trace_id span_id spans)) [
      | inr found ↦
          let (s, f) = found in
          let (q, j, y, c) = service_of-In trace_id span_id s spans f in
          let same : s ≡ p.service = sym c ∙ rest q j y in rw f (ap some same)
      | inl missing ↦ elim i [
        | inr later ↦ absurd (let e = service_of-all trace_id span_id p spans later x rest in cc)
        | inl same ↦
            let here : is_indexed trace_id span_id sp ≡ true = rw (sym same) x in
            rw (missing, here) (ap (λ q. some q.service) (sym same))
      ]
    ]

edge_of-all :
    (spans : List Span) (since : Option ℕ) (sp : Span) (caller : String)
    → is_given sp.trace_id ≡ true
    → is_given sp.parent_span_id ≡ true
    → is_given sp.service ≡ true
    → is_before since sp.start_time ≡ false
    → service_of sp.trace_id sp.parent_span_id spans ≡ some caller
    → caller ≢ sp.service
    → edge_of since spans sp ≡ some (caller, sp.service)
unfolding edge_of
edge_of-all spans since sp caller t n s late found apart =
    elim (Bool-cases (str_eq caller sp.service)) [
      | inl same ↦ absurd (apart ((eq_iff caller sp.service).0 same))
      | inr other ↦ rw (t, n, s, late, found, other) refl
    ]

edges_from-all :
    (spans : List Span) (since : Option ℕ) (sp : Span) (edge : String × String) (rest : List Span)
    → edge_of since spans sp ≡ some edge
    → In sp rest
    → In edge (edges_from since spans rest)
unfolding edges_from
edges_from-all spans since sp edge [] e i = absurd i
edges_from-all spans since sp edge (x ∷ rest) e (inl same) =
    let e' : edge_of since spans x ≡ some edge = ap (λ q. edge_of since spans q) (sym same) ∙ e in
    rw (edges_from, e') (inl refl)
edges_from-all spans since sp edge (x ∷ rest) e (inr later) =
    let ih = edges_from-all spans since sp edge rest e later in
    elim (Option-cases (edge_of since spans x)) [
      | inl missing ↦ rw (edges_from, missing) ih
      | inr found ↦ rw (edges_from, found.1) (inr ih)
    ]

-- A child span and its parent of another service, found in one trace and not before the time asked
-- for, give an edge, when all spans with the parent's id in that trace name the parent's service.
pub call_edges_complete :
    (spans : List Span) (since : Option ℕ) (child parent : Span)
    → In child spans
    → In parent spans
    → is_given child.service ≡ true
    → is_given child.parent_span_id ≡ true
    → is_indexed child.trace_id child.parent_span_id parent ≡ true
    → is_before since child.start_time ≡ false
    → parent.service ≢ child.service
    → ((q : Span)
        → In q spans
        → is_indexed child.trace_id child.parent_span_id q ≡ true
        → q.service ≡ parent.service)
    → In (parent.service, child.service) (call_edges spans since)
unfolding call_edges is_indexed
call_edges_complete spans since child parent i j s n x late apart agree =
    let same : parent.trace_id ≡ child.trace_id =
      (eq_iff parent.trace_id child.trace_id).0 (ground arith) in
    let parent_given : is_given parent.trace_id ≡ true = ground arith in
    let t : is_given child.trace_id ≡ true = rw (sym same) parent_given in
    let found = service_of-all child.trace_id child.parent_span_id parent spans j x agree in
    edges_from-all spans since child (parent.service, child.service) spans
      (edge_of-all spans since child parent.service t n s late found apart) i
