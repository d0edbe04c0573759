-- ===== src/Realtime/Tests/Archiving.antt =====
-- The checkpoint, the archive graph, recovery and the speech budget.
use voxenta_agentic_ai.Prelude.{
  ℕ, ℤ, List, Option, ◌+◌, ◌*◌, ◌≤◌, ◌<◌, ◌≡◌, ◌≢◌, refl, pos, true, false, none, some, [], ◌∷◌,
  length, is_some, Text, codes, arith, leb, if◌then◌else◌, text_eq, get, split,
}
use voxenta_agentic_ai.Realtime.Turn.{Turn}
use voxenta_agentic_ai.Realtime.Checkpoint.{
  Store, ResumeState, read, wait_for_turn_once, get_resume_state, find_turn, find_entry,
  with_decision, sort_turns,
}
use voxenta_agentic_ai.Realtime.Checkpoint.Poll.{
  Lands, wait_for_turn, wait_for_turn_lem, guarded, guarded-wait_for_turn, default_task_timeout,
}
use voxenta_agentic_ai.Realtime.Archive.{archive_turn}
use voxenta_agentic_ai.Realtime.Archive.Channels.{archive_turn_quadruples}
use voxenta_agentic_ai.Realtime.Archive.Turns.{archive_turn_once, records_of}
use voxenta_agentic_ai.Realtime.Session.{
  QuestionSession, create_from_archive, new_session, apply_resume_state, with_turns, apply_turns,
  highest_order,
}
use voxenta_agentic_ai.Realtime.Processor.{
  TurnEnd, process, recover_pending, decided, take_transcript, decide_and_complete, from_message,
}
use voxenta_agentic_ai.Realtime.Processor.Recovery.{recover_pending-process, CompletesSame}
use voxenta_agentic_ai.Realtime.Coordinator.{Coordinator, resume}
use voxenta_agentic_ai.Realtime.Coordinator.Budget.Reports.{reports, resume-reports}
use voxenta_agentic_ai.Realtime.Tests.Fixtures.{
  question, entry, turn, asked, heard_live, recorded, goes_on, services, input,
}

abbrev a1 : Text
a1 = codes "a1"

abbrev e1 : Text
e1 = codes "e1"

-- The recording lands after forty seconds.
abbrev later : ℕ → Store
later t = if leb 40_000 t then (a1, recorded) ∷ [] else []

turn-Lands : Lands (λ t. wait_for_turn_once a1 1 (later t)) 40_000 turn
unfolding wait_for_turn_once read find_turn get
turn-Lands = record { before = λ t h. ground arith; behind = λ t h. ground arith }

wait_for_turn_lem_example :
    ((landing : ℕ) (u : Turn)
      → Lands (λ t. wait_for_turn_once a1 1 (later t)) landing u
      → landing ≤ 90_600
      → (t : ℕ) × (wait_for_turn later a1 1 ≡ some (u, t)) × (landing ≤ t) × (t ≤ landing + 2000))
    × (((t : ℕ) → wait_for_turn_once a1 1 (later t) ≡ none) → wait_for_turn later a1 1 ≡ none)
wait_for_turn_lem_example = wait_for_turn_lem later a1 1

-- The wait finds it, the task that waits does not.
guarded-wait_for_turn_example :
    (40_000 ≤ 28_000 → guarded default_task_timeout (wait_for_turn later a1 1) ≡ some turn)
    × (default_task_timeout < 40_000
        → 40_000 ≤ 90_600
        → (wait_for_turn later a1 1 ≢ none)
          × (guarded default_task_timeout (wait_for_turn later a1 1) ≡ none))
guarded-wait_for_turn_example = guarded-wait_for_turn later a1 1 40_000 turn turn-Lands

abbrev resumed : ResumeState
resumed = record {
  turns = turn ∷ [];
  active_prompt_text = none;
  question = some question;
  paper_item_id = none;
  language = some (codes "en-US");
  prompt_text = none;
  realtime_transcripts = entry ∷ [];
  speech_budget_elapsed_seconds = none;
  remaining_seconds_at_question_start = none;
}

recorded-resumes : get_resume_state recorded ≡ some resumed
unfolding get_resume_state with_decision sort_turns
recorded-resumes = refl

archive_turn_quadruples_example :
    let v' = (archive_turn services input heard_live).1 in
    (length v'.realtime_transcripts ≡ 4 * 1)
    × (length v'.decision_reasons ≡ 4 * 0)
    × (length v'.published_turn_orders ≡ 4 * 0)
    × (length v'.preliminary_turn_orders ≡ 4 * 0)
archive_turn_quadruples_example = archive_turn_quadruples services input heard_live refl

archive_turn_once_example :
    let v' = (archive_turn services input heard_live).1 in
    (is_some (find_turn 1 v'.turns) ≡ true)
    × ((o : ℕ) (u : Turn) → find_turn o [] ≡ some u → find_turn o v'.turns ≡ some u)
    × ((o : ℕ) → records_of o [] ≤ 1 → records_of o v'.turns ≤ 1)
    × (is_some (find_turn 1 []) ≡ true → v'.turns ≡ [])
archive_turn_once_example = archive_turn_once services input heard_live refl

abbrev s₀ : QuestionSession
s₀ = new_session a1 e1 none (some question) none (codes "en-US") none

abbrev store : Store
store = (a1, asked) ∷ []

abbrev turn_end : TurnEnd
turn_end = record {
  text = some (codes "we like it");
  duration_seconds = some 4000;
  word_count = none;
  is_last_allowed_turn = false;
  speech_budget_exceeded = false;
  assessment_turn_count = none;
  max_assessment_turns = none;
}

-- A live session behind its first turn. It has the record of that turn without the audio, unlike the
-- checkpoint, and seconds that remain.
abbrev behind_one : QuestionSession
behind_one = record s₀ {
  turns = record turn { audio_url = none; decision_reason = some (codes "expand") } ∷ [];
  turn_order = 2;
  current_prompt_text = some (codes "And?");
}

abbrev recorded_store : Store
recorded_store = (a1, recorded) ∷ []

abbrev rebuilt_session : QuestionSession
rebuilt_session =
    apply_resume_state resumed (new_session a1 e1 none (some question) none (codes "en-US") none)

rebuilt : create_from_archive a1 e1 (read recorded_store a1) ≡ some rebuilt_session
unfolding create_from_archive get_resume_state read get new_session sort_turns with_decision
rebuilt = refl

unmarked : find_entry 2 (read recorded_store a1).realtime_transcripts ≡ none
unfolding find_entry read get
unmarked = refl

same_turn : behind_one.turn_order ≡ rebuilt_session.turn_order
unfolding new_session apply_resume_state with_turns apply_turns highest_order
same_turn = refl

recover_pending-process_example :
    let (live, store') = process goes_on [] turn_end behind_one recorded_store in
    let (text, confidence, taken) = take_transcript [] turn_end behind_one in
    let decide =
      decide_and_complete goes_on text
        (length (split text))
        turn_end.duration_seconds
        (from_message turn_end) in
    let recovered = decide rebuilt_session in
    (create_from_archive a1 e1 (read store' a1) ≡ some rebuilt_session)
    × (live ≡ decide taken)
    × (recover_pending goes_on rebuilt_session store' ≡ decided recovered.0 recovered.1 recovered.2)
    × CompletesSame live recovered
unfolding new_session
recover_pending-process_example =
    recover_pending-process goes_on [] turn_end behind_one rebuilt_session recorded_store rebuilt
      same_turn unmarked refl

abbrev c₀ : Coordinator
c₀ = record { exam_attempt_id = e1; active_session = some s₀ }

asked_here : (read store a1).question ≡ some question
unfolding read get
asked_here = refl

-- A report that is no number, two that rise, and one that falls back.
abbrev elapsed : List (Option ℤ)
elapsed = none ∷ some (pos 7000) ∷ some (pos 12_000) ∷ some (pos 9000) ∷ []

resume-reports_example :
    let store' = (reports a1 elapsed c₀ store).1 in
    (s' : QuestionSession) × ((resume goes_on a1
        (record { exam_attempt_id = e1; active_session = none })
        store').2.active_session
      ≡ some s')
    × (s'.speech_budget_elapsed_seconds ≡ 12_000)
    × (s'.answer_id ≡ a1)
unfolding new_session
resume-reports_example =
    resume-reports goes_on c₀ (record { exam_attempt_id = e1; active_session = none }) s₀ question
      store elapsed refl asked_here (omega arith)
