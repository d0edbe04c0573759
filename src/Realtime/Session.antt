-- ===== src/Realtime/Session.antt =====
-- `QuestionSession` of src/realtime/question/session.py: one question of an exam attempt. Durations are in
-- milliseconds.
pub mod Order
use voxenta_agentic_ai.Prelude.{
  ℕ, ◌+◌, ℤ, Bool, true, false, ◌&&◌, Option, none, some, List, [], ◌∷◌, ◌++◌, max, Text, codes,
  strip, is_empty, or_text, get_or, eqb, if◌then◌else◌,
}
use voxenta_agentic_ai.Realtime.Transcript.{TranscriptAccumulator, initial}
use voxenta_agentic_ai.Realtime.Turn.{Turn, Decision}
use voxenta_agentic_ai.Realtime.Question.{QuestionContext}
use voxenta_agentic_ai.Realtime.Checkpoint.{Values, ResumeState, get_resume_state}
use voxenta_agentic_ai.Realtime.Archive.{turn_type_of}

pub record QuestionSession : Type 0 where
  pub answer_id : Text
  pub exam_attempt_id : Text
  pub paper_item_id : Option Text
  pub question : Option QuestionContext
  pub prompt_text : Option Text
  pub current_prompt_text : Option Text
  pub language : Text
  pub remaining_graded_seconds : Option ℤ
  pub turn_order : ℕ
  pub turns : List Turn
  pub speech_budget_elapsed_seconds : ℕ
  pub transcript : TranscriptAccumulator

-- `__init__`
unfoldable pub new_session :
    Text
    → Text
    → Option Text
    → Option QuestionContext
    → Option Text
    → Text
    → Option ℤ
    → QuestionSession
new_session answer_id attempt paper_item_id question prompt_text language remaining = record {
  answer_id = answer_id;
  exam_attempt_id = attempt;
  paper_item_id = paper_item_id;
  question = question;
  prompt_text = prompt_text;
  current_prompt_text = prompt_text;
  language = language;
  remaining_graded_seconds = remaining;
  turn_order = 1;
  turns = [];
  speech_budget_elapsed_seconds = 0;
  transcript = initial;
}

-- `isinstance(text, str) and text.strip()`: the stripped text, if it is not blank.
unfoldable pub spoken : Option Text → Option Text
spoken none = none
spoken (some text) = if is_empty (strip text) then none else some (strip text)

-- `a or b or c` on optional texts
abbrev pub or_else {ℓ} : {A : Type ℓ} → Option A → Option A → Option A
or_else none b = b
or_else (some a) b = some a

-- `max(int(turn.get("turn_order") or 0) for turn in turns)`
unfoldable pub highest_order : List Turn → ℕ
highest_order [] = 0
highest_order (t ∷ ts) = max t.turn_order (highest_order ts)

-- `turns[-1].get("prompt_text")`
unfoldable pub last_prompt : List Turn → Option Text
last_prompt [] = none
last_prompt (t ∷ []) = t.prompt_text
last_prompt (t ∷ u ∷ ts) = last_prompt (u ∷ ts)

-- The part of `_apply_resume_state` behind the test on `turns`.
unfoldable pub apply_turns : ResumeState → QuestionSession → QuestionSession
apply_turns r s = record s {
  turns = r.turns;
  turn_order = highest_order r.turns + 1;
  current_prompt_text =
      or_else (spoken r.active_prompt_text)
        (or_else (spoken (last_prompt r.turns)) s.current_prompt_text);
}

-- The speech budget never goes back.
unfoldable pub with_elapsed : Option ℕ → QuestionSession → QuestionSession
with_elapsed none s = s
with_elapsed (some elapsed) s = record s {
  speech_budget_elapsed_seconds = max s.speech_budget_elapsed_seconds elapsed;
}

-- `if not turns: return`
unfoldable pub with_turns : List Turn → ResumeState → QuestionSession → QuestionSession
with_turns [] r s = s
with_turns (t ∷ ts) r s = apply_turns r s

unfoldable pub apply_resume_state : ResumeState → QuestionSession → QuestionSession
unfolding with_elapsed with_turns
apply_resume_state r s = with_turns r.turns r (with_elapsed r.speech_budget_elapsed_seconds s)

-- `create_from_archive`. `resume_state.get("remaining_graded_seconds")` finds no such key.
unfoldable pub create_from_archive : Text → Text → Values → Option QuestionSession
unfolding apply_resume_state new_session
create_from_archive answer_id attempt v = elim (get_resume_state v) [
  | none ↦ none
  | some r ↦ some (
      apply_resume_state r (
        new_session answer_id attempt r.paper_item_id r.question r.prompt_text
          (or_text (get_or r.language []) (codes "en-US")) none))
]

unfoldable pub hydrate_from_archive : Values → QuestionSession → QuestionSession
unfolding apply_resume_state
hydrate_from_archive v s = elim (get_resume_state v) [
  | none ↦ s
  | some r ↦ elim r.turns [ [] ↦ s | t ∷ ts ↦ apply_resume_state r s ]
]

-- `self.current_prompt_text or self.prompt_text`
abbrev pub active_prompt : QuestionSession → Option Text
active_prompt s = elim s.current_prompt_text [
  | none ↦ s.prompt_text
  | some p ↦ if is_empty p then s.prompt_text else some p
]

unfoldable pub build_current_turn : Text → ℕ → Option ℕ → QuestionSession → Turn
unfolding turn_type_of
build_current_turn transcript words duration s = record {
  answer_id = s.answer_id;
  paper_item_id = s.paper_item_id;
  turn_order = s.turn_order;
  turn_type = turn_type_of s.turn_order;
  prompt_text = active_prompt s;
  audio_url = none;
  transcript = transcript;
  word_count = words;
  duration_seconds = duration;
  answered_at = none;
  decision_reason = none;
  should_continue = false;
  next_prompt_text = none;
}

-- The input of the follow-up graph.
pub record DecisionState : Type 0 where
  pub answer_id : Text
  pub exam_attempt_id : Text
  pub question : Option QuestionContext
  pub turn_order : ℕ
  pub prompt_text : Option Text
  pub active_prompt_text : Option Text
  pub remaining_graded_seconds : Option ℤ
  pub current_turn : Turn
  pub turns : List Turn

unfoldable pub build_decision_state : Turn → QuestionSession → DecisionState
build_decision_state turn s = record {
  answer_id = s.answer_id;
  exam_attempt_id = s.exam_attempt_id;
  question = s.question;
  turn_order = s.turn_order;
  prompt_text = s.prompt_text;
  active_prompt_text = active_prompt s;
  remaining_graded_seconds = s.remaining_graded_seconds;
  current_turn = turn;
  turns = s.turns;
}

-- The order of the completed turn, and the session behind it.
unfoldable pub complete_turn : Turn → Decision → QuestionSession → ℕ × QuestionSession
unfolding spoken
complete_turn turn d s =
    let done = record turn { decision_reason = some (get_or d.reason []) } in
    let prompt =
      if d.should_continue
      then or_else (spoken d.active_prompt_text)
          (or_else (spoken d.next_prompt_text) s.current_prompt_text)
      else s.current_prompt_text in
    (
      s.turn_order,
      record s {
        turns = s.turns ++ done ∷ [];
        turn_order = s.turn_order + 1;
        current_prompt_text = prompt;
      },
    )
