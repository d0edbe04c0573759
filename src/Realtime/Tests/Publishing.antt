-- ===== src/Realtime/Tests/Publishing.antt =====
-- The publication of a turn.
use voxenta_agentic_ai.Prelude.{
  ℕ, zero, suc, ◌≤◌, ◌≡◌, ◌∙◌, refl, true, ℕ_eq, List, [], ◌∷◌, mem, arith,
}
use voxenta_agentic_ai.Realtime.Archive.{transcribe_turn, append_turn, resubmit}
use voxenta_agentic_ai.Realtime.Publisher.{
  World, System, Task, Outcome, ArchiveRun, persisting_reason, checking, marking_full, finished,
  success, step, run, Reach, full, spawned, went_on, archive_began, archive_ended, last_checkpoint,
  report_usage, build_answer_turn_payload,
}
use voxenta_agentic_ai.Realtime.Publisher.Marks.{IsMarkedRight, Reach-IsMarkedRight, step-runs}
use voxenta_agentic_ai.Realtime.Publisher.Careful.{CarefulReach, times_sent, MarksIt, IsUndisturbed}
use voxenta_agentic_ai.Realtime.Publisher.Once.{CarefulReach-once, fresh_system}
use voxenta_agentic_ai.Realtime.Tests.Fixtures.{heard_live, recorded, request, services, input}

abbrev w₀ : World ℕ
w₀ = record { values = recorded; runs = []; sent = []; usage = 7 ∷ []; usage_sent = [] }

nothing_sent : IsMarkedRight w₀
nothing_sent = record {
  of_preliminary = λ o h. unfold mem in absurd (ground arith);
  of_full = λ o h. unfold mem in absurd (ground arith);
}

-- A call is spawned and takes its first step.
abbrev w₁ : World ℕ
w₁ = (step success (persisting_reason request) w₀).1

abbrev under_way : System ℕ
under_way = record { world = w₁; tasks = (step success (persisting_reason request) w₀).0 ∷ [] }

under_way-Reach : Reach (record { world = w₀; tasks = [] }) under_way
under_way-Reach =
    Reach.further _ _ _ (Reach.further _ _ _ (Reach.here _) (spawned w₀ [] request))
      (went_on w₀ [] [] (persisting_reason request) success)

Reach-IsMarkedRight_example : IsMarkedRight w₁
Reach-IsMarkedRight_example = Reach-IsMarkedRight w₀ under_way nothing_sent under_way-Reach

abbrev successes : ℕ → List Outcome
successes zero = []
successes (suc n) = success ∷ successes n

-- Each step of a call that is alone, with no archive run under way, is a step with care.
alone :
    {U : Type 0} (n : ℕ) (s : System U) (t : Task) (w : World U)
    → w.runs ≡ []
    → CarefulReach s (record { world = w; tasks = t ∷ [] })
    → let (t', w') = run (successes n) t w in
      CarefulReach s (record { world = w'; tasks = t' ∷ [] })
unfolding run
alone zero s t w e p = p
alone (suc n) s t w e p =
    let (t', w') = step success t w in
    alone n s t' w' (step-runs success t w ∙ e)
      (CarefulReach.further _ _ _ p (went_on w [] [] t success) (cared t w e))
  where
    cared :
        {U : Type 0} (t : Task) (w : World U) → w.runs ≡ [] → MarksIt t success × IsUndisturbed t w
    cared (marking_full r) w e = (refl, e)
    cared _ w e = (tt, tt)

-- A call is spawned, the archive graph begins to run, the call writes the reason, the run ends and loses
-- the reason, and the call goes on to its end.
abbrev w_live : World ℕ
w_live = record w₀ { values = heard_live; runs = [] }

abbrev graph_run : ArchiveRun
graph_run = record { services = services; input = input; values = heard_live }

abbrev w_archiving : World ℕ
w_archiving = record w_live { runs = graph_run ∷ [] }

abbrev w_noted : World ℕ
w_noted = (step success (persisting_reason request) w_archiving).1

abbrev w_archived : World ℕ
w_archived = record w_noted { runs = []; values = last_checkpoint graph_run }

abbrev w_end : World ℕ
w_end = (run (successes 8) (checking request) w_archived).1

careful :
    CarefulReach
      (fresh_system w_live)
      (record { world = w_end; tasks = (run (successes 8) (checking request) w_archived).0 ∷ [] })
unfolding step
careful =
    let begun : CarefulReach (fresh_system w_live)
        (record { world = w_archiving; tasks = persisting_reason request ∷ [] }) =
      CarefulReach.further _ _ _
        (CarefulReach.further _ _ _ (CarefulReach.here _) (spawned w_live [] request) refl)
        (archive_began w_live (persisting_reason request ∷ []) services input) tt in
    let noted : CarefulReach (fresh_system w_live)
        (record { world = w_noted; tasks = checking request ∷ [] }) =
      CarefulReach.further _ _ _ begun
        (went_on w_archiving [] [] (persisting_reason request) success) (tt, tt) in
    alone 8 _ (checking request) w_archived refl (
      CarefulReach.further _ _ _ noted
        (archive_ended w_noted (checking request ∷ []) [] [] graph_run) tt)

CarefulReach-once_example : times_sent full 1 w_end.sent ≤ 1
CarefulReach-once_example = CarefulReach-once w_live _ 1 careful

-- It is sent in full, and the call ends.
sent_and_done :
    (times_sent full 1 w_end.sent ≡ 1)
    × ((run (successes 8) (checking request) w_archived).0 ≡ finished)
unfolding run step last_checkpoint transcribe_turn append_turn resubmit report_usage
    build_answer_turn_payload
sent_and_done = (refl, refl)

-- Without the care: an archive run begins before the marker is written and ends behind it, and the next
-- call for the turn sends it in full once more.
abbrev w_held : World ℕ
w_held = (run (successes 7) (checking request) w_archived).1

abbrev w_marked : World ℕ
w_marked = (step success (marking_full request) w_held).1

abbrev w_erased : World ℕ
w_erased = record w_marked {
  values = last_checkpoint (record { services = services; input = input; values = w_held.values });
}

sent_twice :
    (mem w_marked.values.published_turn_orders 1 ≡ true)
    × (times_sent full 1 (run (successes 9) (persisting_reason request) w_erased).1.sent ≡ 2)
unfolding mem run step last_checkpoint transcribe_turn append_turn resubmit report_usage
    build_answer_turn_payload
sent_twice = (refl, refl)
