-- ===== src/Rca/CallGraph.antt =====
-- `call_edges` of src/core/rca/structural_model.py: the calls between services that the spans of the
-- traces show. A text that is missing is "", which the source does not tell apart from it; a set is a
-- list of its members.
pub mod Sound
mod Tests
use raglogs.Base.{
  str_eq, ℕ, String, Bool, true, false, not, ◌&&◌, Option, none, some, List, [], ◌∷◌, ltb,
  if◌then◌else◌,
}

pub record Span : Type 0 where
  pub trace_id : String
  pub span_id : String
  pub parent_span_id : String
  pub service : String
  pub start_time : Option ℕ

-- a text that is not missing
unfoldable pub is_given : String → Bool
is_given s = not (str_eq s "")

-- whether the dict `service_of` has the span under the key
unfoldable pub is_indexed : String → String → Span → Bool
unfolding is_given
is_indexed trace_id span_id sp =
    is_given sp.trace_id
    && is_given sp.span_id
    && is_given sp.service
    && str_eq sp.trace_id trace_id
    && str_eq sp.span_id span_id

-- `service_of.get((trace_id, span_id))`: the last span of a key counts
unfoldable pub service_of : String → String → List Span → Option String
unfolding is_indexed
service_of trace_id span_id [] = none
service_of trace_id span_id (sp ∷ spans) =
    let later = service_of trace_id span_id spans in
    elim later [
      | some service ↦ some service
      | none ↦ if is_indexed trace_id span_id sp then some sp.service else none
    ]

-- whether the `since` of the caller leaves the span out
unfoldable pub is_before : Option ℕ → Option ℕ → Bool
is_before none start_time = false
is_before (some since) none = true
is_before (some since) (some t) = ltb t since

-- the body of the loop: the edge that a span shows
unfoldable pub edge_of : Option ℕ → List Span → Span → Option (String × String)
unfolding is_given is_before service_of
edge_of since spans sp =
    if not (is_given sp.trace_id && is_given sp.parent_span_id && is_given sp.service)
    then none
    else if is_before since sp.start_time
    then none
    else elim (service_of sp.trace_id sp.parent_span_id spans) [
      | none ↦ none
      | some caller ↦ if str_eq caller sp.service then none else some (caller, sp.service)
    ]

unfoldable pub edges_from : Option ℕ → List Span → List Span → List (String × String)
unfolding edge_of
edges_from since spans [] = []
edges_from since spans (sp ∷ rest) =
    let more = edges_from since spans rest in
    elim (edge_of since spans sp) [ none ↦ more | some edge ↦ edge ∷ more ]

unfoldable pub call_edges : List Span → Option ℕ → List (String × String)
unfolding edges_from
call_edges spans since = edges_from since spans spans
