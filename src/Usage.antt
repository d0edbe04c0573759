-- ===== src/Usage.antt =====
-- What the calls of paid services cost: the prices (src/config/ai_usage_pricing.py) and the buffer of usage items
-- (src/infra/message_broker/ai_usage_tracker.py). Prices of a million tokens are in units of 0.0001 dollars, prices
-- of a second in units of 0.00000001 dollars, costs are exact fractions of a dollar.
pub mod Buffer
pub mod Cost
mod Tests
use voxenta_agentic_ai.Prelude.{
  ℕ, ◌+◌, ◌-◌, ◌*◌, ◌/◌, ◌^◌, Bool, Option, none, some, List, [], ◌∷◌, ◌++◌, Text, text_eq, codes,
  Dict, get, put, remove, get_or, is_empty, if◌then◌else◌,
}
use voxenta_agentic_ai.Realtime.Transcript.{Fraction}

pub record LlmUnitPrice : Type 0 where
  pub input_per_mtok : ℕ
  pub output_per_mtok : ℕ
  pub cached_input_per_mtok : Option ℕ
  pub cache_creation_per_mtok : Option ℕ

abbrev pub price_without_surcharge : ℕ → ℕ → ℕ → LlmUnitPrice
price_without_surcharge input output cached = record {
  input_per_mtok = input;
  output_per_mtok = output;
  cached_input_per_mtok = some cached;
  cache_creation_per_mtok = none;
}

abbrev pub claude_price : LlmUnitPrice
claude_price = record {
  input_per_mtok = 30000;
  output_per_mtok = 150000;
  cached_input_per_mtok = some 3000;
  cache_creation_per_mtok = some 37500;
}

abbrev pub llm_pricing : Dict Text LlmUnitPrice
llm_pricing =
    (codes "gpt-5.4", price_without_surcharge 25000 150000 2500)
    ∷ (codes "gpt-4o", price_without_surcharge 24472 93945 12500)
    ∷ (codes "gpt-4o-mini", price_without_surcharge 1500 6000 150)
    ∷ (codes "claude-sonnet-4-6", claude_price)
    ∷ []

abbrev pub default_llm_price : LlmUnitPrice
default_llm_price = price_without_surcharge 10000 50000 1000

unfoldable pub llm_price_for : Text → LlmUnitPrice
unfolding get
llm_price_for model = get_or (get llm_pricing model) default_llm_price

abbrev pub duration_pricing_per_second : Dict Text ℕ
duration_pricing_per_second =
    (codes "azure_stt", 27778)
    ∷ (codes "azure_tts", 600000)
    ∷ (codes "azure_voice_live_input", 17000)
    ∷ []

abbrev pub default_duration_price_per_second : ℕ
default_duration_price_per_second = 600000

unfoldable pub duration_price_per_second_for : Text → ℕ
unfolding get
duration_price_per_second_for provider =
    get_or (get duration_pricing_per_second provider) default_duration_price_per_second

-- `response.usage_metadata`, with 0 for a count that is missing, and the details of the input
pub record UsageMetadata : Type 0 where
  pub input_tokens : ℕ
  pub output_tokens : ℕ
  pub cache_read : Option ℕ
  pub cache_creation : Option ℕ

-- The cost in units of 0.0000000001 dollars
unfoldable pub llm_cost : LlmUnitPrice → UsageMetadata → ℕ
llm_cost price u =
    let cache_read = get_or u.cache_read 0 in
    let cache_creation = get_or u.cache_creation 0 in
    let uncached = u.input_tokens - cache_read - cache_creation in
    uncached * price.input_per_mtok
    + cache_read * get_or price.cached_input_per_mtok price.input_per_mtok
    + cache_creation * get_or price.cache_creation_per_mtok price.input_per_mtok
    + u.output_tokens * price.output_per_mtok

-- What an item has from outside: `uuid4()` and the clock.
pub record Stamp : Type 0 where
  pub usage_event_id : Text
  pub occurred_at : Text

pub data AiUsageEventItem : Type 0 where
  llm_token :
      (stamp : Stamp) (provider model : Text) (usage : UsageMetadata) (price : LlmUnitPrice)
      (cost_usd : Fraction)
      → AiUsageEventItem
  duration :
      (stamp : Stamp) (provider : Text) (duration_ms price_per_second : ℕ) (cost_usd : Fraction)
      → AiUsageEventItem

abbrev pub UsageBuffer : Type 0
UsageBuffer = Dict Text (List AiUsageEventItem)

-- `_usage_buffer.setdefault(answer_id, []).append(item)`
unfoldable pub append_item : Text → AiUsageEventItem → UsageBuffer → UsageBuffer
unfolding get put
append_item answer_id item buffer =
    put buffer answer_id (get_or (get buffer answer_id) [] ++ item ∷ [])

-- For `round(…, 8)`.
unfoldable pub llm_item :
    (Fraction → Fraction) → Stamp → (provider model : Text) → UsageMetadata → AiUsageEventItem
unfolding llm_price_for llm_cost
llm_item round_8 stamp provider model usage =
    let price = llm_price_for model in
    llm_token stamp provider model usage price
      (round_8 (record { numerator = llm_cost price usage; denominator = 10 ^ 10 }))

-- An answer id that is missing is the empty one.
unfoldable pub record_llm_usage :
    (Fraction → Fraction)
    → Stamp
    → (answer_id provider model : Text) → Option UsageMetadata
    → UsageBuffer
    → UsageBuffer
unfolding llm_item append_item
record_llm_usage round_8 stamp answer_id provider model none buffer = buffer
record_llm_usage round_8 stamp answer_id provider model (some usage) buffer =
    if is_empty answer_id
    then buffer
    else append_item answer_id (llm_item round_8 stamp provider model usage) buffer

-- For a duration in microseconds
unfoldable pub duration_item :
    (Fraction → Fraction) → Stamp → (provider : Text) → ℕ → AiUsageEventItem
unfolding duration_price_per_second_for
duration_item round_8 stamp provider duration_us =
    let price = duration_price_per_second_for provider in
    duration stamp provider (duration_us / 1000) price
      (round_8 (record { numerator = duration_us * price; denominator = 10 ^ 14 }))

unfoldable pub record_duration_usage :
    (Fraction → Fraction)
    → Stamp
    → (answer_id provider : Text) → Option ℕ
    → UsageBuffer
    → UsageBuffer
unfolding duration_item append_item
record_duration_usage round_8 stamp answer_id provider none buffer = buffer
record_duration_usage round_8 stamp answer_id provider (some duration_us) buffer =
    if is_empty answer_id
    then buffer
    else append_item answer_id (duration_item round_8 stamp provider duration_us) buffer

unfoldable pub pop_usage : Text → UsageBuffer → List AiUsageEventItem × UsageBuffer
unfolding get remove
pop_usage answer_id buffer = (get_or (get buffer answer_id) [], remove buffer answer_id)
