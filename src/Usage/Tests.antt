-- ===== src/Usage/Tests.antt =====
-- The theorems on usage at concrete inputs.
use voxenta_agentic_ai.Prelude.{
  ◌+◌, ◌-◌, ◌*◌, ◌≡◌, none, some, List, [], ◌∷◌, ◌++◌, codes, Text, get_or, arith,
}
use voxenta_agentic_ai.Usage.{UsageMetadata, Stamp, llm_price_for, llm_cost}
use voxenta_agentic_ai.Usage.Buffer.{
  Call, llm_call, duration_call, pop_call, items, perform_all, recorded_by_all, perform_all-items,
}
use voxenta_agentic_ai.Usage.Cost.{llm_cost_lem}

abbrev usage : UsageMetadata
usage = record {
  input_tokens = 1000;
  output_tokens = 200;
  cache_read = some 600;
  cache_creation = none;
}

abbrev model : Text
model = codes "gpt-5.4"

llm_cost_lem_example :
    llm_cost (llm_price_for model) usage
      + 600
        * ((llm_price_for model).input_per_mtok
            - get_or
                (llm_price_for model).cached_input_per_mtok
                (llm_price_for model).input_per_mtok)
    ≡ 1000 * (llm_price_for model).input_per_mtok
      + 200 * (llm_price_for model).output_per_mtok
      + 0
        * (get_or (llm_price_for model).cache_creation_per_mtok (llm_price_for model).input_per_mtok
            - (llm_price_for model).input_per_mtok)
llm_cost_lem_example = llm_cost_lem model usage (omega arith)

abbrev stamp : Stamp
stamp = record { usage_event_id = codes "u1"; occurred_at = codes "2026-08-20T10:00:00Z" }

abbrev calls : List Call
calls =
    llm_call stamp (codes "a1") (codes "openai") model (some usage)
    ∷ duration_call stamp (codes "a2") (codes "azure_stt") (some 2_000_000)
    ∷ pop_call (codes "a1")
    ∷ duration_call stamp (codes "a1") (codes "azure_voice_live_input") (some 3_000_000)
    ∷ []

perform_all-items_example :
    (perform_all (λ f. f) (codes "a1") calls []).0
      ++ items (perform_all (λ f. f) (codes "a1") calls []).1 (codes "a1")
    ≡ items [] (codes "a1") ++ recorded_by_all (λ f. f) (codes "a1") calls
perform_all-items_example = perform_all-items (λ f. f) (codes "a1") calls []
