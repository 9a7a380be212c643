-- ===== src/Llm/Packet.antt =====
-- The evidence packet that is sent to a provider: `trim_evidence_packet`, `prepare_llm_packet`,
-- `estimate_tokens` and `input_token_budget` of src/core/llm/resilience.py. A packet is a dict with
-- text keys; `dumps_length` stands for the length of `json.dumps(packet)`, of which nothing is
-- assumed. A negative setting behaves as 0. The `while` loop runs on fuel.
pub mod Trim
pub mod Budget
use raglogs.Base.{
  length, take, str_eq, ℕ, zero, suc, ◌+◌, ◌-◌, ◌*◌, ◌/◌, max, String, Option, none, some, List, [],
  ◌∷◌, ltb, leb, if◌then◌else◌,
}

pub data Field (I X : Type 0) : Type 0 where
  absent : Field I X
  items : List I → Field I X
  value : X → Field I X

abbrev pub list_keys : List String
list_keys = "evidence" ∷ "clusters" ∷ "secondary_clusters" ∷ "trigger_candidates" ∷ []

pub record BudgetSettings : Type 0 where
  pub max_evidence_items : ℕ
  pub llm_max_input_tokens : ℕ
  pub llm_max_tokens : ℕ

unfoldable pub input_token_budget : BudgetSettings → ℕ
input_token_budget s =
    if ltb 0 s.llm_max_input_tokens then s.llm_max_input_tokens else max 512 (s.llm_max_tokens * 8)

abbrev pub Packet : Type 0 → Type 0 → Type 0
Packet I X = String → Field I X

-- LLMBudgetExceeded carries the packet that was left
pub data Prepared (P : Type 0) : Type 0 where
  prepared : P → Prepared P
  over_budget : P → Prepared P

-- `value[:-1]`
unfoldable pub drop_last : {I : Type 0} → List I → List I
drop_last xs = take (length xs - 1) xs

module _ {I X : Type 0} where
  unfoldable pub put : String → Field I X → Packet I X → Packet I X
  put k v p = λ j. if str_eq k j then v else p j

  unfoldable pub trim_field : ℕ → Field I X → Field I X
  trim_field limit absent = absent
  trim_field limit (items xs) = if ltb limit (length xs) then items (take limit xs) else items xs
  trim_field limit (value x) = value x

  unfoldable pub trim_keys : ℕ → List String → Packet I X → Packet I X
  unfolding put trim_field
  trim_keys limit [] p = p
  trim_keys limit (k ∷ ks) p = trim_keys limit ks (put k (trim_field limit (p k)) p)

  unfoldable pub trim_evidence_packet : ℕ → Packet I X → Packet I X
  unfolding trim_keys
  trim_evidence_packet max_items p = trim_keys max_items list_keys p

  -- `estimate_tokens`, for a packet
  unfoldable pub estimate_tokens : (Packet I X → ℕ) → Packet I X → ℕ
  estimate_tokens dumps_length p = max 1 ((dumps_length p + 3) / 4)

  -- the test of a round: a non-empty list, without its last item
  unfoldable pub shorter : Field I X → Option (List I)
  unfolding drop_last
  shorter absent = none
  shorter (items []) = none
  shorter (items (x ∷ xs)) = some (drop_last (x ∷ xs))
  shorter (value x) = none

  -- the `for` loop of a round: the first non-empty list loses its last item, or nothing is left
  unfoldable pub shrink : List String → Packet I X → Option (Packet I X)
  unfolding put shorter
  shrink [] p = none
  shrink (k ∷ ks) p = elim (shorter (p k)) [
    | some xs ↦ some (put k (items xs) p)
    | none ↦ shrink ks p
  ]

  unfoldable pub shrink_loop :
      (Packet I X → ℕ) → ℕ → ℕ → Packet I X → Option (Prepared (Packet I X))
  shrink_loop dumps_length budget zero p = none
  shrink_loop dumps_length budget (suc fuel) p =
      if leb (estimate_tokens dumps_length p) budget
      then some (prepared p)
      else elim (shrink list_keys p) [
        | none ↦ some (over_budget p)
        | some p' ↦ shrink_loop dumps_length budget fuel p'
      ]

  -- what the listed keys hold together: the rounds that can be needed
  unfoldable pub field_size : Field I X → ℕ
  field_size absent = 0
  field_size (items xs) = length xs
  field_size (value x) = 0

  unfoldable pub total_items : List String → Packet I X → ℕ
  unfolding field_size
  total_items [] p = 0
  total_items (k ∷ ks) p = field_size (p k) + total_items ks p

  unfoldable pub prepare_llm_packet :
      (Packet I X → ℕ) → BudgetSettings → Packet I X → Option (Prepared (Packet I X))
  unfolding trim_evidence_packet shrink_loop total_items input_token_budget
  prepare_llm_packet dumps_length s p =
      let trimmed = trim_evidence_packet s.max_evidence_items p in
      shrink_loop dumps_length (input_token_budget s) (suc (total_items list_keys trimmed)) trimmed
