-- ===== src/Realtime/Followup/Signals.antt =====
-- SignalNode/signal_node_config.py, and `get_expected_min_words` of src/utils/length_utils.py. Seconds
-- of speech are in milliseconds, the estimate is in tenths of a second, ratios are in hundredths.
use voxenta_agentic_ai.Prelude.{
  ℕ, ◌+◌, ◌*◌, ◌/◌, ◌%◌, min, max, ℤ, pos, ltb_ℤ, pos_part, Bool, true, false, not, ◌&&◌, ◌||◌,
  Option, none, some, List, [], ◌∷◌, ◌++◌, Text, codes, leb, eqb, get_or, if◌then◌else◌,
}
use voxenta_agentic_ai.Realtime.Turn.{Turn}
use voxenta_agentic_ai.Realtime.Question.{
  QuestionContext, QuestionType, short_answer, long_answer, opinion, description,
}
use voxenta_agentic_ai.Realtime.Session.{DecisionState}
use voxenta_agentic_ai.Realtime.Followup.Counting.{max_turns, count_assessment_turns}

-- `round(n * 2.5)`: a half goes to the even neighbour.
unfoldable pub round_two_and_half : ℕ → ℕ
round_two_and_half n =
    let below = n * 5 / 2 in
    if eqb (n * 5 % 2) 0 then below else if eqb (below % 2) 0 then below else below + 1

-- `a <= b`
abbrev pub at_most : ℤ → ℤ → Bool
at_most a b = not (ltb_ℤ b a)

-- The three steps of a type of question.
unfoldable pub by_duration : ℤ → ℕ → ℕ → ℕ → ℕ
by_duration duration short middle long =
    if at_most duration (pos 30) then short else if at_most duration (pos 60) then middle else long

-- The words that a type of question asks for, by its duration.
unfoldable pub words_by_type : Option QuestionType → ℤ → ℕ
unfolding by_duration
words_by_type (some description) d = by_duration d 15 35 50
words_by_type (some opinion) d = by_duration d 15 30 45
words_by_type (some long_answer) d = by_duration d 20 40 60
words_by_type _ d = 10

abbrev pub is_short_answer : Option QuestionType → Bool
is_short_answer (some short_answer) = true
is_short_answer _ = false

unfoldable pub get_expected_min_words : Option QuestionType → Option ℤ → Option ℤ → ℕ
unfolding round_two_and_half words_by_type
get_expected_min_words type duration least = if is_short_answer type then 3 else elim least [
  | some n ↦ max 1 (round_two_and_half (pos_part n))
  | none ↦ elim duration [ none ↦ 10 | some d ↦ words_by_type type d ]
]

-- The first of the three that is positive.
unfoldable pub positive : Option ℤ → Option ℕ
positive none = none
positive (some n) = if ltb_ℤ (pos 0) n then some (pos_part n) else none

abbrev pub first_of : Option ℕ → Option ℕ → Option ℕ
first_of none b = b
first_of (some a) b = some a

unfoldable pub resolve_target_response_seconds : Option QuestionContext → Option ℕ
unfolding positive
resolve_target_response_seconds none = none
resolve_target_response_seconds (some q) =
    first_of (positive q.min_response_seconds)
      (first_of (positive q.duration_seconds) (positive q.max_response_seconds))

pub data Pressure : Type 0 where
  high medium low : Pressure

abbrev pub reaches_ratio : Option ℕ → ℕ → Bool
reaches_ratio none bound = false
reaches_ratio (some ratio) bound = leb bound ratio

unfoldable pub followup_pressure : Bool → Option ℕ → ℕ → Pressure
followup_pressure length_sufficient coverage assessment_turn_count =
    if length_sufficient && (leb 2 assessment_turn_count || reaches_ratio coverage 115)
    then high
    else if leb 2 assessment_turn_count || reaches_ratio coverage 90
    then medium
    else low

pub record Signals : Type 0 where
  pub expected_min_words : ℕ
  pub cumulative_word_count : ℕ
  pub current_turn_word_count : ℕ
  pub length_sufficient : Bool
  pub assessment_turn_count : ℕ
  pub estimated_response_seconds : ℕ
  pub actual_response_seconds : Option ℕ
  pub target_response_seconds : Option ℕ
  pub word_coverage_ratio : Option ℕ
  pub time_coverage_ratio : Option ℕ
  pub response_coverage_ratio : Option ℕ
  pub followup_pressure : Pressure
  pub no_meaningful_speech : Bool
  pub hard_stop : Bool
  pub hard_stop_reason : Option Text

unfoldable pub words_of : List Turn → ℕ
words_of [] = 0
words_of (t ∷ ts) = t.word_count + words_of ts

unfoldable pub speech_of : List Turn → ℕ
speech_of [] = 0
speech_of (t ∷ ts) = get_or t.duration_seconds 0 + speech_of ts

-- `min` over the ratios that are there.
abbrev pub lesser : Option ℕ → Option ℕ → Option ℕ
lesser none b = b
lesser (some a) none = some a
lesser (some a) (some b) = some (min a b)

abbrev pub max_turns_reached : Text
max_turns_reached = codes "max_turns_reached"

-- `prepare_turn_signals_node`, for the built-in `round(a / b, 2)`. A decision state always has its
-- current turn.
unfoldable pub prepare_turn_signals : (ℕ → ℕ → ℕ) → DecisionState → Signals
unfolding get_expected_min_words words_of speech_of resolve_target_response_seconds
prepare_turn_signals round_ratio s =
    let turns = s.turns ++ s.current_turn ∷ [] in
    let words = words_of turns in
    let expected : ℕ = elim s.question [
      | none ↦ get_expected_min_words none none none
      | some q ↦ get_expected_min_words q.question_type q.duration_seconds q.min_response_seconds
    ] in
    let actual = if eqb (speech_of turns) 0 then none else some (speech_of turns) in
    let target = resolve_target_response_seconds s.question in
    let by_words : Option ℕ = elim target [
      | none ↦ none
      | some t ↦ some (round_ratio (words * 4) (t * 10))
    ] in
    let by_time : Option ℕ = elim target [
      | none ↦ none
      | some t ↦ elim actual [ none ↦ none | some a ↦ some (round_ratio a (t * 1000)) ]
    ] in
    let assessment = count_assessment_turns s.turns + 1 in
    let reached = leb max_turns assessment in
    record {
      expected_min_words = expected;
      cumulative_word_count = words;
      current_turn_word_count = s.current_turn.word_count;
      length_sufficient = leb expected words;
      assessment_turn_count = assessment;
      estimated_response_seconds = words * 4;
      actual_response_seconds = actual;
      target_response_seconds = target;
      word_coverage_ratio = by_words;
      time_coverage_ratio = by_time;
      response_coverage_ratio = lesser by_words by_time;
      followup_pressure =
          followup_pressure (leb expected words) (lesser by_words by_time) assessment;
      no_meaningful_speech = eqb s.current_turn.word_count 0;
      hard_stop = reached;
      hard_stop_reason = if reached then some max_turns_reached else none;
    }
