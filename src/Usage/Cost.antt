-- ===== src/Usage/Cost.antt =====
-- What a call of a model costs, for every model.
use voxenta_agentic_ai.Prelude.{
  ℕ, ◌+◌, ◌-◌, ◌*◌, ◌≤◌, ◌≡◌, [], ◌∷◌, Text, text_eq, ◌==◌, get, get_or, Dict, All, ap, arith,
  Bool-cases, inl, inr,
}
use voxenta_agentic_ai.Usage.{
  LlmUnitPrice, llm_pricing, default_llm_price, llm_price_for, UsageMetadata, llm_cost,
}

-- Reading the cache is no dearer than input, writing it no cheaper.
abbrev pub IsOrdered : LlmUnitPrice → Type 0
IsOrdered p =
    (get_or p.cached_input_per_mtok p.input_per_mtok ≤ p.input_per_mtok)
    × (p.input_per_mtok ≤ get_or p.cache_creation_per_mtok p.input_per_mtok)

lookup-IsOrdered :
    (prices : Dict Text LlmUnitPrice) (default : LlmUnitPrice) (model : Text)
    → All (λ p. IsOrdered p.1) prices
    → IsOrdered default
    → IsOrdered (get_or (get prices model) default)
unfolding get
lookup-IsOrdered [] default model h d = d
lookup-IsOrdered ((name, p) ∷ prices) default model h d = elim (Bool-cases (name == model)) [
  | inl e ↦ rw e h.0
  | inr e ↦ rw e (lookup-IsOrdered prices default model h.1 d)
]

llm_price_for-IsOrdered : (model : Text) → IsOrdered (llm_price_for model)
unfolding llm_price_for
llm_price_for-IsOrdered model =
    lookup-IsOrdered llm_pricing default_llm_price model
      (
        (omega arith, omega arith),
        (
          (omega arith, omega arith),
          ((omega arith, omega arith), ((omega arith, omega arith), tt)),
        ),
      )
      (omega arith, omega arith)

-- The sum in two ways, for any split of the input into three parts.
split_input :
    (uncached read written tokens cached input creation discount surcharge : ℕ)
    → uncached + read + written ≡ tokens
    → cached + discount ≡ input
    → input + surcharge ≡ creation
    → uncached * input + read * cached + written * creation + read * discount
      ≡ tokens * input + written * surcharge
split_input uncached read written tokens cached input creation discount surcharge e f g =
    omega (arith, ap (λ n. n * input) e, ap (λ n. read * n) f, ap (λ n. written * n) g)

-- For every model, and counts of the cache that together are at most the input: the cost is that of the whole
-- input and the output at full price, less the discount for what was read from the cache, plus the surcharge
-- for what was written to it.
pub llm_cost_lem :
    (model : Text) (u : UsageMetadata)
    → get_or u.cache_read 0 + get_or u.cache_creation 0 ≤ u.input_tokens
    → let p = llm_price_for model in
      llm_cost p u
        + get_or u.cache_read 0
          * (p.input_per_mtok - get_or p.cached_input_per_mtok p.input_per_mtok)
      ≡ u.input_tokens * p.input_per_mtok
        + u.output_tokens * p.output_per_mtok
        + get_or u.cache_creation 0
          * (get_or p.cache_creation_per_mtok p.input_per_mtok - p.input_per_mtok)
unfolding llm_cost
llm_cost_lem model u h =
    let p = llm_price_for model in
    let (cheap, dear) = llm_price_for-IsOrdered model in
    let cached = get_or p.cached_input_per_mtok p.input_per_mtok in
    let creation = get_or p.cache_creation_per_mtok p.input_per_mtok in
    let read = get_or u.cache_read 0 in
    let written = get_or u.cache_creation 0 in
    omega (
      arith,
      split_input (u.input_tokens - read - written) read written u.input_tokens cached
          p.input_per_mtok creation (p.input_per_mtok - cached) (creation - p.input_per_mtok)
          (omega (arith, h)) (omega (arith, cheap)) (omega (arith, dear)),
    )
