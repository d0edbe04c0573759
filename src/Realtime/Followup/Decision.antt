-- ===== src/Realtime/Followup/Decision.antt =====
-- FollowUpNode/followup_decision_node_config.py. The language model and `random.choice` are parameters;
-- the texts that describe the state to the model are left to it.
use voxenta_agentic_ai.Prelude.{
  ℕ, ℤ, pos, ltb_ℤ, Bool, true, false, not, ◌&&◌, ◌||◌, Option, none, some, is_some, List, [], ◌∷◌,
  ◌++◌, length, any, keep_if, reverse, Text, text_eq, ◌==◌, codes, space, strip, lower, is_empty,
  or_text, get_or, mem, leb, eqb, if◌then◌else◌,
}
use voxenta_agentic_ai.Realtime.Turn.{Turn, Decision}
use voxenta_agentic_ai.Realtime.Question.{QuestionContext}
use voxenta_agentic_ai.Realtime.Session.{DecisionState}
use voxenta_agentic_ai.Realtime.Followup.Counting.{max_turns, is_clarification_reason}
use voxenta_agentic_ai.Realtime.Followup.Signals.{Signals, is_short_answer, max_turns_reached}

-- What a call of a model comes to: an exception with its text, also that of `json.loads`, an object, or
-- JSON that is no object.
pub data Reply (A : Type 0) : Type 0 where
  raised : Text → Reply A
  object : A → Reply A
  no_object : Reply A

-- What a node goes on with. On JSON that is no object `.get` raises an AttributeError outside of the `try`.
pub data Answer (A : Type 0) : Type 0 where
  failed : Text → Answer A
  replied : A → Answer A

-- The answer in a reply. A node that reads one that is no object has raised, so its answer is not used.
unfoldable pub answer_in : {A : Type 0} → Reply A → Answer A
answer_in (raised error) = failed error
answer_in (object a) = replied a
answer_in no_object = failed []

unfoldable pub is_no_object : {A : Type 0} → Reply A → Bool
is_no_object (raised error) = false
is_no_object (object a) = false
is_no_object no_object = true

-- The object of the follow-up model. `should_continue` is as `bool` reads it. A reason that is missing
-- is the empty text.
pub record FollowupReply : Type 0 where
  pub should_continue : Bool
  pub next_prompt_text : Option Text
  pub reason : Option Text

abbrev pub no_speech_prefixes : List Text
no_speech_prefixes =
    codes "Sorry, I may not have caught that clearly."
    ∷ codes "Hmm, I didn't quite catch that."
    ∷ codes "Sorry, I couldn't hear a clear answer there."
    ∷ codes "I'm not sure that came through -- let's try again."
    ∷ codes "Sorry, that didn't come through clearly."
    ∷ codes "I didn't quite get that -- let's give it another go."
    ∷ []

abbrev pub no_speech_after_repeat_prompts : List Text
no_speech_after_repeat_prompts =
    codes "Take your time. Please answer when you're ready."
    ∷ codes "No rush -- answer whenever you're ready."
    ∷ codes "It's okay, take a moment and answer when you're ready."
    ∷ codes "Take a breath and answer whenever you're ready."
    ∷ codes "There's no hurry -- go ahead whenever you're ready."
    ∷ codes "Take your time, and speak whenever you're ready."
    ∷ []

abbrev pub hesitation_short_answer_prompts : List Text
hesitation_short_answer_prompts =
    codes "Take your time. A short answer is fine."
    ∷ codes "No need to rush -- a brief answer works."
    ∷ codes "Take a moment. Even a short answer is okay."
    ∷ codes "It's fine to keep it short -- just take your time."
    ∷ codes "A quick, short answer is perfectly fine."
    ∷ codes "Take your time -- a short response is totally fine."
    ∷ []

abbrev pub hesitation_general_prompts : List Text
hesitation_general_prompts =
    codes "Take your time. You can answer in one or two simple sentences first."
    ∷ codes "No rush -- start with just one or two simple sentences."
    ∷ codes "Take a moment. A couple of simple sentences is a good start."
    ∷ codes "It's okay to start small -- one or two sentences is fine."
    ∷ codes "Take your time, and try answering in just a sentence or two."
    ∷ codes "Whenever you're ready, one or two simple sentences will do."
    ∷ []

abbrev pub hesitation_tokens : List Text
hesitation_tokens =
    codes "uh"
    ∷ codes "um"
    ∷ codes "erm"
    ∷ codes "hmm"
    ∷ codes "ah"
    ∷ codes "eh"
    ∷ codes "like"
    ∷ []

-- What `[a-zA-Z']` matches in a text that is lowered.
unfoldable pub is_word_code : ℕ → Bool
is_word_code c = (leb b'a' c && leb c b'z') || eqb c 39

-- `re.findall(r"[a-zA-Z']+", ...)`: the maximal runs. The second argument is the run in progress, last
-- character first.
unfoldable pub runs_from : Text → Text → List Text
unfolding is_word_code
runs_from [] [] = []
runs_from [] (w ∷ ws) = reverse (w ∷ ws) ∷ []
runs_from (c ∷ s) [] = runs_from s (if is_word_code c then c ∷ [] else [])
runs_from (c ∷ s) (w ∷ ws) =
    let done = reverse (w ∷ ws) ∷ runs_from s [] in
    let longer = runs_from s (c ∷ w ∷ ws) in if is_word_code c then longer else done

unfoldable pub tokenize_words : Text → List Text
unfolding runs_from lower
tokenize_words text = runs_from (lower text) []

unfoldable pub meaningful_words : List Text → List Text
unfolding mem
meaningful_words words = keep_if (λ w. not (mem hesitation_tokens w)) words

unfoldable pub is_hesitation_only : Text → ℕ → Bool
unfolding tokenize_words meaningful_words
is_hesitation_only transcript word_count =
    let words = tokenize_words transcript in
    let meaningful = meaningful_words words in
    elim words [
      | [] ↦ false
      | w ∷ ws ↦
          if eqb (length meaningful) 0 then true else leb word_count 4 && leb (length meaningful) 2
    ]

abbrev pub no_meaningful_speech : Text
no_meaningful_speech = codes "no_meaningful_speech"

unfoldable pub is_repeat : Turn → Bool
unfolding is_clarification_reason
is_repeat t =
    is_clarification_reason t.decision_reason
    || (get_or t.decision_reason [] == no_meaningful_speech)

unfoldable pub has_used_repeat_once : List Turn → Bool
has_used_repeat_once turns = any is_repeat turns

-- `a or b or ""`, then `strip()`
unfoldable pub first_text : Option Text → Option Text → Text
first_text a b = strip (or_text (get_or a []) (get_or b []))

abbrev pub question_text_of : Option QuestionContext → Option Text
question_text_of none = none
question_text_of (some q) = q.question_text

-- `_build_no_speech_reprompt`, for the prefix that `random.choice` took.
unfoldable pub build_no_speech_reprompt : Text → Option QuestionContext → Option Text → Text
unfolding first_text
build_no_speech_reprompt prefix question fallback =
    let text = first_text fallback (question_text_of question) in
    if is_empty text then prefix else prefix ++ space ++ text

abbrev pub short_answer_asked : Option QuestionContext → Bool
short_answer_asked none = false
short_answer_asked (some q) = is_short_answer q.question_type

unfoldable pub build_hesitation_reprompt : (List Text → Text) → Option QuestionContext → Text
build_hesitation_reprompt choice question =
    if short_answer_asked question
    then choice hesitation_short_answer_prompts
    else choice hesitation_general_prompts

abbrev pub goes_on : Text → Text → Decision
goes_on prompt reason = record {
  should_continue = true;
  next_prompt_text = some prompt;
  active_prompt_text = none;
  reason = some reason;
}

abbrev pub stops : Option Text → Decision
stops reason = record {
  should_continue = false;
  next_prompt_text = none;
  active_prompt_text = none;
  reason = reason;
}

-- `_handled_edge_case_decision`
unfoldable pub handled_edge_case_decision :
    (List Text → Text) → Signals → DecisionState → Option Decision
unfolding has_used_repeat_once build_no_speech_reprompt build_hesitation_reprompt
handled_edge_case_decision choice signals s =
    let turn = s.current_turn in
    if signals.no_meaningful_speech
    then some (
        if has_used_repeat_once (s.turns ++ turn ∷ [])
        then goes_on (choice no_speech_after_repeat_prompts)
            (codes "no_meaningful_speech_after_repeat")
        else goes_on
            (build_no_speech_reprompt (choice no_speech_prefixes) s.question turn.prompt_text)
            no_meaningful_speech)
    else if is_hesitation_only turn.transcript turn.word_count
    then some (goes_on (build_hesitation_reprompt choice s.question) (codes "hesitation_reprompt"))
    else none

abbrev pub decision_fallback : Text
decision_fallback = codes "decision_fallback"

-- `not str(next_prompt_text or "").strip()`
unfoldable pub asks_nothing : Option Text → Bool
unfolding strip
asks_nothing none = true
asks_nothing (some prompt) = is_empty (strip prompt)

-- The tests behind the reply of the model.
unfoldable pub check_reply : Signals → FollowupReply → Decision
check_reply signals reply =
    if leb max_turns signals.assessment_turn_count
    then stops (some max_turns_reached)
    else if not reply.should_continue
    then stops reply.reason
    else if asks_nothing reply.next_prompt_text
    then stops (some decision_fallback)
    else record {
      should_continue = true;
      next_prompt_text = reply.next_prompt_text;
      active_prompt_text = none;
      reason = reply.reason;
    }

-- `int(remaining_graded_seconds) <= 0`
abbrev pub is_spent : Option ℤ → Bool
is_spent none = false
is_spent (some n) = not (ltb_ℤ (pos 0) n)

-- `followup_decision_node`: its decision, and its error.
unfoldable pub followup_decision :
    (DecisionState → Signals → Answer FollowupReply)
    → (List Text → Text)
    → Signals
    → DecisionState
    → Decision × Option Text
unfolding handled_edge_case_decision check_reply
followup_decision model choice signals s =
    if is_spent s.remaining_graded_seconds
    then (stops (some (codes "graded_budget_exhausted")), none)
    else if signals.hard_stop
    then (stops signals.hard_stop_reason, none)
    else elim (handled_edge_case_decision choice signals s) [
      | some decision ↦ (decision, none)
      | none ↦ elim (model s signals) [
        | failed error ↦
            (stops (some decision_fallback), some (codes "Follow-up decision failed: " ++ error))
        | replied reply ↦ (check_reply signals reply, none)
      ]
    ]

-- `followup_decision_node` comes to the call of its model.
unfoldable pub asks_model : (List Text → Text) → Signals → DecisionState → Bool
unfolding handled_edge_case_decision
asks_model choice signals s =
    not (is_spent s.remaining_graded_seconds)
    && (not signals.hard_stop && not (is_some (handled_edge_case_decision choice signals s)))

-- `followup_decision_node`, `none` where it raises.
unfoldable pub followup_decision_node :
    (DecisionState → Signals → Reply FollowupReply)
    → (List Text → Text)
    → Signals
    → DecisionState
    → Option (Decision × Option Text)
unfolding asks_model followup_decision answer_in is_no_object
followup_decision_node model choice signals s =
    if asks_model choice signals s && is_no_object (model s signals)
    then none
    else some (followup_decision (λ s' g. answer_in (model s' g)) choice signals s)
