-- ===== src/Realtime/Processor/Recovery.antt =====
-- A connection that drops between the end of a turn and its decision.
use voxenta_agentic_ai.Prelude.{
  ℕ, ◌≡◌, refl, sym, ap, ◌∙◌, not, ◌&&◌, is_some, Option, none, some, List, [], ◌∷◌, ◌++◌, length,
  Text, text_eq, split, get_or, or_text, codes, find?-append, eqb, arith, inl, inr, Option-cases,
  Bool-cases, get-put, eq_refl,
}
use mathlib.Core.Path.{subst}
use voxenta_agentic_ai.Realtime.Transcript.{VoiceEvent}
use voxenta_agentic_ai.Realtime.Turn.{Turn, TranscriptEntry}
use voxenta_agentic_ai.Realtime.Checkpoint.{
  Values, Store, ResumeState, read, update, persist_realtime_transcript, get_resume_state,
  find_entry, is_nil,
}
use voxenta_agentic_ai.Realtime.Session.{
  QuestionSession, create_from_archive, apply_resume_state, apply_turns, with_turns, with_elapsed,
  new_session, complete_turn, build_current_turn,
}
use voxenta_agentic_ai.Realtime.TurnLimit.{TurnLimitPolicy}
use voxenta_agentic_ai.Realtime.Processor.{
  Graph, TurnEnd, decided, decide_and_complete, take_transcript, entry_of, record_transcript,
  process, pending_entry, recover_pending, from_entry, from_message, TurnProcessingResult,
  PublishRequest, last_turn,
}

-- Reading back what was written.
pub read-update :
    (thread : Text) (f : Values → Values) (store : Store)
    → read (update thread f store) thread ≡ f (read store thread)
unfolding read update
read-update thread f store =
    ground (arith, get-put store thread thread (f (read store thread)), eq_refl thread)

abbrev with_entry : TranscriptEntry → ResumeState → ResumeState
with_entry e r = record r { realtime_transcripts = r.realtime_transcripts ++ e ∷ [] }

get_resume_state-persist :
    (e : TranscriptEntry) (v : Values)
    → get_resume_state (persist_realtime_transcript e v)
      ≡ (elim (get_resume_state v) [ none ↦ none | some r ↦ some (with_entry e r) ])
unfolding get_resume_state persist_realtime_transcript
get_resume_state-persist e v = elim (Bool-cases (not (is_some v.question) && is_nil v.turns)) [
  | inl h ↦ ground arith
  | inr h ↦ ground arith
]

with_turns-with_entry :
    (e : TranscriptEntry) (ts : List Turn) (r : ResumeState) (s : QuestionSession)
    → with_turns ts (with_entry e r) s ≡ with_turns ts r s
unfolding with_turns apply_turns
with_turns-with_entry e [] r s = refl
with_turns-with_entry e (t ∷ ts) r s = refl

apply_resume_state-with_entry :
    (e : TranscriptEntry) (r : ResumeState) (s : QuestionSession)
    → apply_resume_state (with_entry e r) s ≡ apply_resume_state r s
unfolding apply_resume_state
apply_resume_state-with_entry e r s =
    with_turns-with_entry e r.turns r (with_elapsed r.speech_budget_elapsed_seconds s)

-- The live transcript of a turn plays no part in rebuilding the session.
pub create_from_archive-persist :
    (a b : Text) (e : TranscriptEntry) (v : Values)
    → create_from_archive a b (persist_realtime_transcript e v) ≡ create_from_archive a b v
unfolding create_from_archive
create_from_archive-persist a b e v = elim (Option-cases (get_resume_state v)) [
  | inl h ↦ ground (arith, get_resume_state-persist e v)
  | inr (r, h) ↦ ground (
    arith,
    get_resume_state-persist e v,
    apply_resume_state-with_entry e r (
        new_session a b r.paper_item_id r.question r.prompt_text
          (or_text (get_or r.language []) (codes "en-US")) none),
  )
]

-- The marker of a turn that had none is found.
pending-persist :
    (e : TranscriptEntry) (v : Values) (r : ResumeState)
    → find_entry e.turn_order v.realtime_transcripts ≡ none
    → get_resume_state v ≡ some r
    → r.realtime_transcripts ≡ v.realtime_transcripts
    → pending_entry e.turn_order (get_resume_state (persist_realtime_transcript e v)) ≡ some e
unfolding pending_entry find_entry
pending-persist e v r h g k = ground (
  arith,
  get_resume_state-persist e v,
  find?-append (λ x. eqb x.turn_order e.turn_order) v.realtime_transcripts (e ∷ []),
)

transcripts-get_resume_state :
    (v : Values) (r : ResumeState)
    → get_resume_state v ≡ some r
    → r.realtime_transcripts ≡ v.realtime_transcripts
unfolding get_resume_state
transcripts-get_resume_state v r h = ground arith

-- Taking the transcript keeps what the turn is recorded under.
take_transcript-keeps :
    (arrivals : List VoiceEvent) (m : TurnEnd) (s : QuestionSession)
    → let s' = (take_transcript arrivals m s).2 in
      (s'.answer_id ≡ s.answer_id)
      × (s'.exam_attempt_id ≡ s.exam_attempt_id)
      × (s'.turn_order ≡ s.turn_order)
unfolding take_transcript
take_transcript-keeps arrivals m s = elim (Option-cases m.text) [
  | inl e ↦ rw e (refl, refl, refl)
  | inr (text, e) ↦ rw e (refl, refl, refl)
]

resume-of :
    (a b : Text) (v : Values) {r : QuestionSession}
    → create_from_archive a b v ≡ some r
    → (x : ResumeState) × (get_resume_state v ≡ some x)
unfolding create_from_archive
resume-of a b v {r} h = elim (Option-cases (get_resume_state v)) [
  | inl e ↦ absurd (ground arith)
  | inr p ↦ p
]

with_turns-ids :
    (ts : List Turn) (x : ResumeState) (s : QuestionSession)
    → ((with_turns ts x s).answer_id ≡ s.answer_id)
      × ((with_turns ts x s).exam_attempt_id ≡ s.exam_attempt_id)
unfolding with_turns apply_turns
with_turns-ids [] x s = (refl, refl)
with_turns-ids (t ∷ ts) x s = (refl, refl)

with_elapsed-ids :
    (o : Option ℕ) (s : QuestionSession)
    → ((with_elapsed o s).answer_id ≡ s.answer_id)
      × ((with_elapsed o s).exam_attempt_id ≡ s.exam_attempt_id)
unfolding with_elapsed
with_elapsed-ids none s = (refl, refl)
with_elapsed-ids (some e) s = (refl, refl)

-- A session is rebuilt for the answer and the attempt that are asked for.
create_from_archive-ids :
    (a b : Text) (v : Values) {r : QuestionSession}
    → create_from_archive a b v ≡ some r
    → (r.answer_id ≡ a) × (r.exam_attempt_id ≡ b)
unfolding create_from_archive apply_resume_state new_session
create_from_archive-ids a b v {r} h =
    let (x, e) = resume-of a b v h in
    let fresh =
      new_session a b x.paper_item_id x.question x.prompt_text
        (or_text (get_or x.language []) (codes "en-US")) none in
    let timed = with_elapsed x.speech_budget_elapsed_seconds fresh in
    let (answer, attempt) = with_turns-ids x.turns x timed in
    let (answer', attempt') = with_elapsed-ids x.speech_budget_elapsed_seconds fresh in
    let same : with_turns x.turns x timed ≡ r =
      ap (λ o. get_or o r) (rw (e, create_from_archive) at (h)) in
    (
      ap (λ z. z.answer_id) (sym same) ∙ answer ∙ answer',
      ap (λ z. z.exam_attempt_id) (sym same) ∙ attempt ∙ attempt',
    )

-- What a turn was recorded with, whatever was decided about it.
abbrev pub SameTurn : Turn → Turn → Type 0
SameTurn t u =
    (t.turn_order ≡ u.turn_order)
    × (t.transcript ≡ u.transcript)
    × (t.word_count ≡ u.word_count)
    × (t.duration_seconds ≡ u.duration_seconds)

-- Two sessions that complete the same turn: the same number is acknowledged, the publish requests are for
-- the same turn, and the turn is the last of both sessions.
abbrev pub CompletesSame :
    TurnProcessingResult × PublishRequest × QuestionSession
    → TurnProcessingResult × PublishRequest × QuestionSession
    → Type 0
CompletesSame (result, request, s) (result', request', s') =
    (result.completed_turn_order ≡ result'.completed_turn_order)
    × (request.turn_order ≡ request'.turn_order)
    × (request.answer_id ≡ request'.answer_id)
    × (request.exam_attempt_id ≡ request'.exam_attempt_id)
    × ((t : Turn) × (t' : Turn) × (last_turn s.turns ≡ some t)
        × (last_turn s'.turns ≡ some t')
        × SameTurn t t')

last_turn-append : (ts : List Turn) (t : Turn) → last_turn (ts ++ t ∷ []) ≡ some t
unfolding last_turn
last_turn-append [] t = refl
last_turn-append (u ∷ []) t = refl
last_turn-append (u ∷ v ∷ ts) t = last_turn-append (v ∷ ts) t

decide_and_complete-CompletesSame :
    (graph : Graph) (text : Text) (n : ℕ) (d : Option ℕ) (p : TurnLimitPolicy)
    (s r : QuestionSession)
    → s.answer_id ≡ r.answer_id
    → s.exam_attempt_id ≡ r.exam_attempt_id
    → s.turn_order ≡ r.turn_order
    → CompletesSame
        (decide_and_complete graph text n d p s)
        (decide_and_complete graph text n d p r)
unfolding decide_and_complete build_current_turn complete_turn
decide_and_complete-CompletesSame graph text n d p s r a b c = (
  c,
  c,
  a,
  b,
  (_, _, last_turn-append s.turns _, last_turn-append r.turns _, (c, refl, refl, refl)),
)

recover_pending-entry :
    (graph : Graph) (r : QuestionSession) (e : TranscriptEntry) (store : Store)
    → pending_entry r.turn_order (get_resume_state (read store r.answer_id)) ≡ some e
    → let (result, request, r') =
        decide_and_complete graph e.text
          (length (split e.text))
          e.duration_seconds
          (from_entry e)
          r in
      recover_pending graph r store ≡ decided result request r'
unfolding recover_pending
recover_pending-entry graph r e store found = rw (found, recover_pending) refl

-- The connection drops behind the write of a turn's transcript, and a new session is built from the
-- checkpoint. Let the checkpoint have rebuilt a session before that stands at the same turn as the live one,
-- with no marker of the turn, and let the client send no word count. Then the same session is rebuilt behind
-- the write, and the turn is not lost: with the transcript of the turn, the words in it, and the duration
-- and the limits of the client's message, the live session and the rebuilt one go through
-- `decide_and_complete` alike, each with its own turns before. Both complete the same turn: one number, one
-- transcript, word count and duration, and a publish request for the same turn of the same answer.
pub recover_pending-process :
    (graph : Graph) (arrivals : List VoiceEvent) (m : TurnEnd) (s r : QuestionSession)
    (store : Store)
    → create_from_archive s.answer_id s.exam_attempt_id (read store s.answer_id) ≡ some r
    → s.turn_order ≡ r.turn_order
    → find_entry s.turn_order (read store s.answer_id).realtime_transcripts ≡ none
    → m.word_count ≡ none
    → let (live, store') = process graph arrivals m s store in
      let (text, confidence, taken) = take_transcript arrivals m s in
      let decide =
        decide_and_complete graph text (length (split text)) m.duration_seconds (from_message m) in
      let recovered = decide r in
      (create_from_archive s.answer_id s.exam_attempt_id (read store' s.answer_id) ≡ some r)
      × (live ≡ decide taken)
      × (recover_pending graph r store' ≡ decided recovered.0 recovered.1 recovered.2)
      × CompletesSame live recovered
unfolding process record_transcript entry_of
recover_pending-process graph arrivals m s r store made order fresh counted =
    let v = read store s.answer_id in
    let (text, confidence, s') = take_transcript arrivals m s in
    let e = entry_of m s.turn_order text confidence in
    let (x, resumed) = resume-of s.answer_id s.exam_attempt_id v made in
    let (answer, attempt) = create_from_archive-ids s.answer_id s.exam_attempt_id v made in
    let (answer', attempt', order') = take_transcript-keeps arrivals m s in
    let stored = read-update s.answer_id (persist_realtime_transcript e) store in
    let found = pending-persist e v x fresh resumed (transcripts-get_resume_state v x resumed) in
    let store' = update s.answer_id (persist_realtime_transcript e) store in
    let pending : pending_entry r.turn_order (get_resume_state (read store' r.answer_id)) ≡ some e =
      rw (sym order, answer, stored) found in
    let live : (process graph arrivals m s store).0
        ≡ decide_and_complete graph text (length (split text)) m.duration_seconds (from_message m)
            s' =
      ap
        (λ o.
          decide_and_complete graph text (get_or o (length (split text))) m.duration_seconds
            (from_message m) s')
        counted in
    (
      rw stored (rw (create_from_archive-persist s.answer_id s.exam_attempt_id e v) made),
      live,
      recover_pending-entry graph r e store' pending,
      subst
          (λ z. CompletesSame z (
            decide_and_complete graph text (length (split text)) m.duration_seconds (from_message m)
              r))
          (sym live)
          (decide_and_complete-CompletesSame graph text (length (split text)) m.duration_seconds
            (from_message m) s' r (answer' ∙ sym answer) (attempt' ∙ sym attempt) (order' ∙ order)),
    )
