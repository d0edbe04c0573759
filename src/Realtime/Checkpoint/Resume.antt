-- ===== src/Realtime/Checkpoint/Resume.antt =====
-- What a resume reads back.
use mathlib.Core.List.{Perm}
use mathlib.Core.List.Perm
use voxenta_agentic_ai.Prelude.{
  ◌≤◌, ◌≡◌, some, List, [], ◌∷◌, map, inl, inr, leb, arith, Bool-cases,
}
use voxenta_agentic_ai.Realtime.Turn.{Turn}
use voxenta_agentic_ai.Realtime.Checkpoint.{
  Values, ResumeState, get_resume_state, with_decision, insert_turn, sort_turns,
}

-- In the order of the turns.
abbrev pub IsOrdered : List Turn → Type 0
IsOrdered [] = Unit
IsOrdered (t ∷ []) = Unit
IsOrdered (t ∷ u ∷ us) = (t.turn_order ≤ u.turn_order) × IsOrdered (u ∷ us)

insert_turn-IsOrdered : (t : Turn) (us : List Turn) → IsOrdered us → IsOrdered (insert_turn t us)
unfolding insert_turn
insert_turn-IsOrdered t [] h = tt
insert_turn-IsOrdered t (u ∷ []) h = ground arith
insert_turn-IsOrdered t (u ∷ v ∷ us) h = ground (arith, insert_turn-IsOrdered t (v ∷ us) h.1)

pub sort_turns-IsOrdered : (ts : List Turn) → IsOrdered (sort_turns ts)
unfolding sort_turns
sort_turns-IsOrdered [] = tt
sort_turns-IsOrdered (t ∷ ts) = insert_turn-IsOrdered t (sort_turns ts) (sort_turns-IsOrdered ts)

insert_turn-perm : (t : Turn) (us : List Turn) → Perm (insert_turn t us) (t ∷ us)
unfolding insert_turn
insert_turn-perm t [] = Perm.refl (t ∷ [])
insert_turn-perm t (u ∷ us) = elim (Bool-cases (leb t.turn_order u.turn_order)) [
  | inl e ↦ rw (e, insert_turn) (Perm.refl (t ∷ u ∷ us))
  | inr e ↦
      rw (e, insert_turn) (Perm.trans (Perm.cons u (insert_turn-perm t us)) (Perm.swap t u us))
]

pub sort_turns-perm : (ts : List Turn) → Perm (sort_turns ts) ts
unfolding sort_turns
sort_turns-perm [] = Perm.refl []
sort_turns-perm (t ∷ ts) =
    Perm.trans (insert_turn-perm t (sort_turns ts)) (Perm.cons t (sort_turns-perm ts))

-- The turns of a resume are the archived ones with their decisions, none lost and none twice, in order.
pub turns-get_resume_state :
    (v : Values) {r : ResumeState}
    → get_resume_state v ≡ some r
    → IsOrdered r.turns × Perm r.turns (map (with_decision v.decision_reasons) v.turns)
unfolding get_resume_state
turns-get_resume_state v {r} h =
    let ts = map (with_decision v.decision_reasons) v.turns in
    let e : r.turns ≡ sort_turns ts = ground arith in
    rw e (sort_turns-IsOrdered ts, sort_turns-perm ts)
