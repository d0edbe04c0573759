-- ===== src/Realtime/Connection/Utterances.antt =====
-- The numbers of the utterances, and what a resume repeats.
use voxenta_agentic_ai.Prelude.{
  ℕ, ◌+◌, ◌≤◌, ◌<◌, ◌≡◌, ◌≢◌, refl, sym, ap, ◌∙◌, Bool, true, false, Option, none, some, List, [],
  ◌∷◌, ◌++◌, Text, text_eq, ◌==◌, is_empty, arith, if◌then◌else◌, mem, get_or, ◌⊎◌, Bool-cases, inl,
  inr, list_eqb_iff,
}
use voxenta_agentic_ai.Realtime.Processor.{TurnProcessingResult}
use voxenta_agentic_ai.Realtime.Coordinator.{ResumeResult}
use voxenta_agentic_ai.Realtime.Connection.{
  Connection, DeliveryState, Utterance, Event, audio_frame, question_started, question_presented,
  turn_cut, turn_finished, resumed, exam_ended, sent, replaced, new_connection, speak, send_speak,
  archive_turn, finish_turn, handle, handle_resume, run_events, heard_at, heard, handed_at, handed,
  resume_prompt, is_repeated, handle_audio_frame, handle_question_start, cut_turn,
  export_delivery_state, next_prompt_of, slow_reasons, exam_farewell_text,
}

-- The numbers rise, from above `n`.
abbrev pub Rises : ℕ → List Utterance → Type 0
Rises n [] = Unit
Rises n (u ∷ us) = (n < u.sequence) × Rises u.sequence us

-- The utterances that wait rise from above `n` up to the counter.
abbrev Waits : ℕ → List Utterance → ℕ → Type 0
Waits n [] counter = n ≤ counter
Waits n (u ∷ us) counter = (n < u.sequence) × Waits u.sequence us counter

Waits-weaken :
    (n m : ℕ) (us : List Utterance) (counter : ℕ) → n ≤ m → Waits m us counter → Waits n us counter
Waits-weaken n m [] counter h w = omega (arith, h, w)
Waits-weaken n m (u ∷ us) counter h (k, w) = (omega (arith, h, k), w)

Waits-counter : (n : ℕ) (us : List Utterance) (counter : ℕ) → Waits n us counter → n ≤ counter
Waits-counter n [] counter w = w
Waits-counter n (u ∷ us) counter (k, w) = omega (arith, k, Waits-counter u.sequence us counter w)

Waits-append :
    (n : ℕ) (us : List Utterance) (counter : ℕ) (u : Utterance)
    → u.sequence ≡ counter + 1
    → Waits n us counter
    → Waits n (us ++ u ∷ []) (counter + 1)
Waits-append n [] counter u e w = (omega (arith, e, w), omega (arith, e))
Waits-append n (v ∷ us) counter u e (k, w) = (k, Waits-append v.sequence us counter u e w)

abbrev IsOrdered : ℕ → Connection → Type 0
IsOrdered n c = Waits n c.speaking c.utterance_sequence

speak-IsOrdered :
    (n : ℕ) (text : Option Text) (slow : Bool) (c : Connection)
    → IsOrdered n c
    → IsOrdered n (speak text slow c)
unfolding speak
speak-IsOrdered n text slow c w = Waits-append n c.speaking c.utterance_sequence _ refl w

archive_turn-speaking :
    (answer_id : Option Text) (order : ℕ) (audio : List ℕ) (c : Connection)
    → ((archive_turn answer_id order audio c).speaking ≡ c.speaking)
      × ((archive_turn answer_id order audio c).utterance_sequence ≡ c.utterance_sequence)
unfolding archive_turn
archive_turn-speaking none order audio c = (refl, refl)
archive_turn-speaking (some a) order [] c = (refl, refl)
archive_turn-speaking (some a) order (b ∷ audio) c = (refl, refl)

-- At an event the client hears nothing, or an utterance with a higher number.
Follows : ℕ → Event → Connection → Type 0
Follows n e c =
    ((heard_at e c ≡ []) × IsOrdered n (handle e c))
    ⊎ ((u : Utterance) × (heard_at e c ≡ u ∷ [])
        × (n < u.sequence)
        × IsOrdered u.sequence (handle e c))

send_speak-Follows :
    (n : ℕ) (taken : Bool) (c : Connection) → IsOrdered n c → Follows n (sent taken) c
unfolding Follows heard_at handle send_speak
send_speak-Follows n taken c w = go c.speaking taken w
  where
    go :
        (us : List Utterance) (taken : Bool)
        → Waits n us c.utterance_sequence
        → Follows n (sent taken) (record c { speaking = us })
    go [] true w = inl (refl, w)
    go [] false w = inl (refl, w)
    go (u ∷ us) true (k, w) = inr (u, refl, k, w)
    go (u ∷ us) false (k, w) =
        inl (refl, Waits-weaken n u.sequence us c.utterance_sequence (omega (arith, k)) w)

finish_turn-IsOrdered :
    (n : ℕ) (answer_id : Option Text) (result : Option TurnProcessingResult) (c : Connection)
    → IsOrdered n c
    → IsOrdered n (finish_turn answer_id result c)
unfolding finish_turn
finish_turn-IsOrdered n answer_id none c w = w
finish_turn-IsOrdered n answer_id (some result) c w =
    let audio = get_or c.answering [] in
    let started = record c { answering = none } in
    let (same, counter) =
      archive_turn-speaking answer_id result.completed_turn_order audio started in
    speak-IsOrdered n (next_prompt_of result.decision)
      (mem slow_reasons (get_or result.decision.reason []))
      (archive_turn answer_id result.completed_turn_order audio started) (rw (same, counter) w)

handle_resume-IsOrdered :
    (n : ℕ) (result : ResumeResult) (c : Connection)
    → IsOrdered n c
    → IsOrdered n (handle_resume result c)
unfolding handle_resume
handle_resume-IsOrdered n result c w =
    elim (Bool-cases (is_repeated (resume_prompt result) c.last_delivered_prompt)) [
      | inl e ↦ rw e w
      | inr e ↦ rw e (speak-IsOrdered n (resume_prompt result) false c w)
    ]

handle-Follows : (n : ℕ) (e : Event) (c : Connection) → IsOrdered n c → Follows n e c
unfolding Follows heard_at handle
handle-Follows n (audio_frame bytes) c w = inl (refl, unfold handle_audio_frame in w)
handle-Follows n (question_started result) c w = inl (
  refl,
  unfold handle_question_start in
      speak-IsOrdered n (some result.section_instruction) false
        (record c { turn_audio_buffer = [] }) w,
)
handle-Follows n (question_presented text) c w = inl (refl, speak-IsOrdered n (some text) false c w)
handle-Follows n turn_cut c w = inl (refl, unfold cut_turn in w)
handle-Follows n (turn_finished answer_id result) c w =
    inl (refl, finish_turn-IsOrdered n answer_id result c w)
handle-Follows n (resumed result) c w = inl (refl, handle_resume-IsOrdered n result c w)
handle-Follows n exam_ended c w = inl (refl, speak-IsOrdered n (some exam_farewell_text) false c w)
handle-Follows n (sent taken) c w = send_speak-Follows n taken c w
handle-Follows n replaced c w = inl (
  refl,
  unfold new_connection export_delivery_state in Waits-counter n c.speaking c.utterance_sequence w,
)

heard-Rises : (n : ℕ) (es : List Event) (c : Connection) → IsOrdered n c → Rises n (heard es c)
unfolding heard Follows
heard-Rises n [] c w = tt
heard-Rises n (e ∷ es) c w = elim (handle-Follows n e c w) [
  | inl (none_heard, k) ↦ rw none_heard (heard-Rises n es (handle e c) k)
  | inr (u, one, k, m) ↦ rw one (k, heard-Rises u.sequence es (handle e c) m)
]

-- Whatever happens to the connections of an attempt, one replacing the other, the numbers of the utterances
-- that the client hears rise strictly.
pub utterances_rise :
    (state : Option DeliveryState) (es : List Event) → Rises 0 (heard es (new_connection state))
unfolding new_connection
utterances_rise state es = heard-Rises 0 es (new_connection state) (omega arith)

-- The last prompt with a text among these utterances, after `last`.
abbrev pub last_handed : Option Text → List Utterance → Option Text
last_handed last [] = last
last_handed last (u ∷ us) = last_handed (if is_empty u.text then last else some u.text) us

last_handed-append :
    (last : Option Text) (us vs : List Utterance)
    → last_handed last (us ++ vs) ≡ last_handed (last_handed last us) vs
last_handed-append last [] vs = refl
last_handed-append last (u ∷ us) vs =
    last_handed-append (if is_empty u.text then last else some u.text) us vs

archive_turn-last :
    (answer_id : Option Text) (order : ℕ) (audio : List ℕ) (c : Connection)
    → (archive_turn answer_id order audio c).last_delivered_prompt ≡ c.last_delivered_prompt
unfolding archive_turn
archive_turn-last none order audio c = refl
archive_turn-last (some a) order [] c = refl
archive_turn-last (some a) order (b ∷ audio) c = refl

handle-last :
    (e : Event) (c : Connection)
    → (handle e c).last_delivered_prompt ≡ last_handed c.last_delivered_prompt (handed_at e c)
unfolding handle handed_at handle_audio_frame handle_question_start cut_turn finish_turn speak
    new_connection export_delivery_state
handle-last (audio_frame bytes) c = refl
handle-last (question_started result) c = refl
handle-last (question_presented text) c = refl
handle-last turn_cut c = refl
handle-last (turn_finished answer_id none) c = refl
handle-last (turn_finished answer_id (some result)) c = archive_turn-last answer_id _ _ _
handle-last (resumed result) c =
    elim (Bool-cases (is_repeated (resume_prompt result) c.last_delivered_prompt)) [
      | inl e ↦ rw (e, handle_resume) refl
      | inr e ↦ rw (e, handle_resume) refl
    ]
handle-last exam_ended c = refl
handle-last (sent taken) c = go c.speaking taken
  where
    go :
        (us : List Utterance) (taken : Bool)
        → (send_speak taken (record c { speaking = us })).last_delivered_prompt
          ≡ last_handed c.last_delivered_prompt
              (handed_at (sent taken) (record c { speaking = us }))
    go [] true = unfold send_speak in refl
    go [] false = unfold send_speak in refl
    go (u ∷ us) true = unfold send_speak in refl
    go (u ∷ us) false = unfold send_speak in refl
handle-last replaced c = refl

run_events-last :
    (es : List Event) (c : Connection)
    → (run_events es c).last_delivered_prompt ≡ last_handed c.last_delivered_prompt (handed es c)
unfolding run_events handed
run_events-last [] c = refl
run_events-last (e ∷ es) c =
    run_events-last es (handle e c)
    ∙ ap (λ l. last_handed l (handed es (handle e c))) (handle-last e c)
    ∙ sym (last_handed-append c.last_delivered_prompt (handed_at e c) (handed es (handle e c)))

is_repeated_lem :
    (prompt : Text) (last : Option Text)
    → prompt ≢ []
    → (last ≡ some prompt → is_repeated (some prompt) last ≡ true)
      × (last ≢ some prompt → is_repeated (some prompt) last ≡ false)
unfolding is_repeated
is_repeated_lem [] last ne = absurd (ne refl)
is_repeated_lem (x ∷ p) none ne = (λ e. cc, λ h. refl)
is_repeated_lem (x ∷ p) (some l) ne = (
  λ e. (list_eqb_iff (x ∷ p) l).1 (sym (ap (λ o. get_or o []) e)),
  λ h. elim (Bool-cases ((x ∷ p) == l)) [
    | inl e ↦ absurd (h (ap some (sym ((list_eqb_iff (x ∷ p) l).0 e))))
    | inr e ↦ e
  ],
)

resume-at :
    (c : Connection) (result : ResumeResult) (prompt : Text)
    → resume_prompt result ≡ some prompt
    → prompt ≢ []
    → (c.last_delivered_prompt ≡ some prompt → handle (resumed result) c ≡ c)
      × (c.last_delivered_prompt ≢ some prompt
          → handle (resumed result) c ≡ speak (some prompt) false c)
unfolding handle
resume-at c result prompt e ne =
    let (repeats, differs) = is_repeated_lem prompt c.last_delivered_prompt ne in
    (λ h. rw (handle_resume, e, repeats h) refl, λ h. rw (handle_resume, e, differs h) refl)

-- After any events on the connections of an attempt, a resume with a prompt that is not empty says nothing
-- if the prompt is the last one that was handed to the socket, whether the client heard it or not, and else
-- it says the prompt.
pub handle_resume_lem :
    (es : List Event) (result : ResumeResult) (prompt : Text)
    → resume_prompt result ≡ some prompt
    → prompt ≢ []
    → let c = run_events es (new_connection none) in
      let last = last_handed none (handed es (new_connection none)) in
      (last ≡ some prompt → handle (resumed result) c ≡ c)
      × (last ≢ some prompt → handle (resumed result) c ≡ speak (some prompt) false c)
unfolding new_connection
handle_resume_lem es result prompt e ne =
    let c = run_events es (new_connection none) in
    let last = run_events-last es (new_connection none) in
    let (repeats, differs) = resume-at c result prompt e ne in
    (λ h. repeats (last ∙ h), λ h. differs (λ k. h (sym last ∙ k)))
