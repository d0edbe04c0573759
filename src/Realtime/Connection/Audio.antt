-- ===== src/Realtime/Connection/Audio.antt =====
-- The audio that is archived with a turn.
use mathlib.Core.Path.{subst}
use voxenta_agentic_ai.Prelude.{
  append-nil, ℕ, ◌≡◌, refl, sym, ap, ◌∙◌, Bool, Option, none, some, List, [], ◌∷◌, ◌++◌, Text,
  Bool-cases, inl, inr, map, is_empty, if◌then◌else◌,
}
use voxenta_agentic_ai.Realtime.Processor.{TurnProcessingResult}
use voxenta_agentic_ai.Realtime.Coordinator.{ResumeResult}
use voxenta_agentic_ai.Realtime.Connection.{
  Connection, DeliveryState, ArchiveTask, Utterance, is_repeated, resume_prompt, handle_audio_frame,
  handle_question_start, cut_turn, finish_turn, Event, audio_frame, question_started,
  question_presented, turn_cut, turn_finished, resumed, exam_ended, sent, replaced, new_connection,
  archive_turn, handle, handle_resume, run_events, send_speak, speak,
}

-- The audio since the last boundary: a new question, the end of a turn, or a new connection.
abbrev pub since_boundary : List ℕ → List Event → List ℕ
since_boundary heard [] = heard
since_boundary heard (audio_frame bytes ∷ es) = since_boundary (heard ++ bytes) es
since_boundary heard (question_started result ∷ es) = since_boundary [] es
since_boundary heard (turn_cut ∷ es) = since_boundary [] es
since_boundary heard (replaced ∷ es) = since_boundary [] es
since_boundary heard (question_presented text ∷ es) = since_boundary heard es
since_boundary heard (turn_finished answer_id result ∷ es) = since_boundary heard es
since_boundary heard (resumed result ∷ es) = since_boundary heard es
since_boundary heard (exam_ended ∷ es) = since_boundary heard es
since_boundary heard (sent taken ∷ es) = since_boundary heard es

archive_turn-buffer :
    (answer_id : Option Text) (order : ℕ) (audio : List ℕ) (c : Connection)
    → (archive_turn answer_id order audio c).turn_audio_buffer ≡ c.turn_audio_buffer
unfolding archive_turn
archive_turn-buffer none order audio c = refl
archive_turn-buffer (some a) order [] c = refl
archive_turn-buffer (some a) order (b ∷ audio) c = refl

-- A resume and the sending of an utterance do not touch the audio.
handle_resume-buffer :
    (result : ResumeResult) (c : Connection)
    → (handle_resume result c).turn_audio_buffer ≡ c.turn_audio_buffer
unfolding handle_resume
handle_resume-buffer result c =
    elim (Bool-cases (is_repeated (resume_prompt result) c.last_delivered_prompt)) [
      | inl e ↦ rw e refl
      | inr e ↦ rw e (unfold speak in refl)
    ]

module _ {X : Type 0} (part : Connection → X)
    (kept : (c : Connection) (us : List Utterance) (last : Option Text)
      → part (record c { speaking = us; last_delivered_prompt = last }) ≡ part c) where
  send_speak-keeps : (taken : Bool) (c : Connection) → part (send_speak taken c) ≡ part c
  unfolding send_speak
  send_speak-keeps taken c = go c.speaking
    where
      go :
          (us : List Utterance)
          → part (elim us as (λ _. Connection) [
            | [] ↦ c
            | u ∷ us ↦ record c {
              speaking = us;
              last_delivered_prompt =
                  if is_empty u.text then c.last_delivered_prompt else some u.text;
            }
          ])
            ≡ part c
      go [] = refl
      go (u ∷ us) = kept c us _

  sends-keep : (sends : List Bool) (c : Connection) → part (run_events (map sent sends) c) ≡ part c
  unfolding run_events handle
  sends-keep [] c = refl
  sends-keep (taken ∷ sends) c = sends-keep sends (send_speak taken c) ∙ send_speak-keeps taken c

handle-buffer :
    (e : Event) (es : List Event) (c : Connection)
    → since_boundary (handle e c).turn_audio_buffer es ≡ since_boundary c.turn_audio_buffer (e ∷ es)
unfolding handle handle_audio_frame handle_question_start cut_turn finish_turn speak new_connection
handle-buffer (audio_frame bytes) es c = refl
handle-buffer (question_started result) es c = refl
handle-buffer (question_presented text) es c = refl
handle-buffer turn_cut es c = refl
handle-buffer (turn_finished answer_id none) es c = refl
handle-buffer (turn_finished answer_id (some result)) es c =
    ap (λ b. since_boundary b es) (archive_turn-buffer answer_id _ _ _)
handle-buffer (resumed result) es c = ap (λ b. since_boundary b es) (handle_resume-buffer result c)
handle-buffer exam_ended es c = refl
handle-buffer (sent taken) es c =
    ap (λ b. since_boundary b es)
      (send_speak-keeps (λ c. c.turn_audio_buffer) (λ c us last. refl) taken c)
handle-buffer replaced es c = refl

run_events-buffer :
    (es : List Event) (c : Connection)
    → (run_events es c).turn_audio_buffer ≡ since_boundary c.turn_audio_buffer es
unfolding run_events
run_events-buffer [] c = refl
run_events-buffer (e ∷ es) c = run_events-buffer es (handle e c) ∙ handle-buffer e es c

run_events-append :
    (es fs : List Event) (c : Connection)
    → run_events (es ++ fs) c ≡ run_events fs (run_events es c)
unfolding run_events
run_events-append [] fs c = refl
run_events-append (e ∷ es) fs c = run_events-append es fs (handle e c)

-- The task that archives a turn with this audio, if there is any.
abbrev pub tasks_for : Text → ℕ → List ℕ → List ArchiveTask
tasks_for answer_id order [] = []
tasks_for answer_id order (b ∷ audio) =
    record { answer_id = answer_id; turn_order = order; audio = b ∷ audio } ∷ []

-- The mark of a turn without audio.
abbrev pub marks_for : Text → ℕ → List ℕ → List (Text × ℕ)
marks_for answer_id order [] = (answer_id, order) ∷ []
marks_for answer_id order (b ∷ audio) = []

-- A connection had these archive tasks and these turns without audio before one more turn with this
-- audio.
abbrev pub Archived : Text → ℕ → List ℕ → List ArchiveTask → List (Text × ℕ) → Connection → Type 0
Archived answer_id order audio archives silent after =
    (after.archives ≡ archives ++ tasks_for answer_id order audio)
    × (after.turns_without_audio ≡ marks_for answer_id order audio ++ silent)

archive_turn-Archived :
    (answer_id : Text) (order : ℕ) (audio : List ℕ) (c : Connection)
    → Archived answer_id order audio c.archives c.turns_without_audio
        (archive_turn (some answer_id) order audio c)
unfolding archive_turn
archive_turn-Archived answer_id order [] c = (sym (append-nil c.archives), refl)
archive_turn-Archived answer_id order (b ∷ audio) c = (refl, refl)

finish_turn-Archived :
    (answer_id : Text) (result : TurnProcessingResult) (audio : List ℕ) (c : Connection)
    → c.answering ≡ some audio
    → Archived answer_id result.completed_turn_order audio c.archives c.turns_without_audio
        (finish_turn (some answer_id) (some result) c)
unfolding finish_turn speak
finish_turn-Archived answer_id result audio c e = rw e (
    archive_turn-Archived answer_id result.completed_turn_order audio
      (record c { answering = none }))

-- A turn that ends after any events, while utterances may be sent until the coordinator answers with a
-- decision for an active session: exactly the audio since the last boundary is archived with the turn. If
-- there is none, nothing is archived and the turn is marked as one without audio.
pub turn_audio-Archived :
    (state : Option DeliveryState) (es : List Event) (sends : List Bool) (answer_id : Text)
    (result : TurnProcessingResult)
    → let before = run_events es (new_connection state) in
      let turn = turn_cut ∷ map sent sends ++ turn_finished (some answer_id) (some result) ∷ [] in
      let after = run_events (es ++ turn) (new_connection state) in
      let audio = since_boundary [] es in
      Archived answer_id result.completed_turn_order audio before.archives
        before.turns_without_audio after
unfolding new_connection
turn_audio-Archived state es sends answer_id result =
    let before = run_events es (new_connection state) in
    let finished : Event = turn_finished (some answer_id) (some result) in
    let turn = turn_cut ∷ map sent sends ++ finished ∷ [] in
    let audio = since_boundary [] es in
    let buffer : before.turn_audio_buffer ≡ audio = run_events-buffer es (new_connection state) in
    let answering = run_events (map sent sends) (cut_turn before) in
    let heard : answering.answering ≡ some audio =
      sends-keep (λ c. c.answering) (λ c us last. refl) sends (cut_turn before)
      ∙ unfold cut_turn in ap some buffer in
    let archives : answering.archives ≡ before.archives =
      sends-keep (λ c. c.archives) (λ c us last. refl) sends (cut_turn before)
      ∙ unfold cut_turn in refl in
    let silent : answering.turns_without_audio ≡ before.turns_without_audio =
      sends-keep (λ c. c.turns_without_audio) (λ c us last. refl) sends (cut_turn before)
      ∙ unfold cut_turn in refl in
    let whole : run_events (es ++ turn) (new_connection state)
        ≡ finish_turn (some answer_id) (some result) answering =
      run_events-append es turn (new_connection state)
      ∙ unfold run_events handle in
        run_events-append (map sent sends) (finished ∷ []) (cut_turn before) in
    let order = result.completed_turn_order in
    let last = finish_turn-Archived answer_id result audio answering heard in
    subst (λ c. Archived answer_id order audio before.archives before.turns_without_audio c)
      (sym whole)
      (subst
        (λ l.
          Archived answer_id order audio before.archives l
            (finish_turn (some answer_id) (some result) answering))
        silent
        (subst
          (λ l.
            Archived answer_id order audio l answering.turns_without_audio
              (finish_turn (some answer_id) (some result) answering))
          archives last))
