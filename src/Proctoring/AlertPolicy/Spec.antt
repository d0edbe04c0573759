-- ===== src/Proctoring/AlertPolicy/Spec.antt =====
-- The abstract view of the alert policy: each pair of a session and an alert type is a slot of its
-- own, and the gates move that slot alone.
use voxenta_agentic_ai.Prelude.{
  ℕ, ◌+◌, ◌≡◌, refl, Bool, true, false, not, ◌&&◌, ◌||◌, Option, none, some, Text, text_eq, Dict,
  List, [], get, put, add, discard, get-put, get-remove, mem, mem-add, mem-discard, get_or, leb,
  if◌then◌else◌, arith, ◌==◌,
}
use voxenta_agentic_ai.Proctoring.AlertPolicy.{
  Settings, Policy, cooldown_elapsed, active_of, emitted_of, streaks_of, clear_session,
}
use voxenta_agentic_ai.Proctoring.AlertPolicy.Gate.{observe}

pub record Slot : Type 0 where
  pub streak : ℕ
  pub active : Bool
  pub last_emitted : Option ℕ

abbrev pub slot : Policy → Text → Text → Slot
slot p session alert_type = record {
  streak = get_or (get (streaks_of p session) alert_type) 0;
  active = mem (active_of p session) alert_type;
  last_emitted = get (emitted_of p session) alert_type;
}

abbrev pub idle : Slot
idle = record { streak = 0; active = false; last_emitted = none }

-- One frame, on one slot.
abbrev pub step : Settings → Bool → ℕ → Slot → Bool × Slot
step cfg false now s = (false, record s { streak = 0; active = false })
step cfg true now s =
    let s' = record s { streak = s.streak + 1 } in
    if leb cfg.alert_streak_frames (s.streak + 1)
      && (not s.active || cooldown_elapsed cfg s.last_emitted now)
    then (true, record s' { active = true; last_emitted = some now })
    else (false, s')

-- A write to the inner dict of one session is seen at that session and that key alone.
module _ {ℓ} {V : Type ℓ} (d : Dict Text (Dict Text V)) (s t s' t' : Text) where
  pub get-put_inner :
      (v : V)
      → get (get_or (get (put d s (put (get_or (get d s) []) t v)) s') []) t'
        ≡ (if s == s' && t == t' then some v else get (get_or (get d s') []) t')
  get-put_inner v = ground (
    arith,
    get-put d s s' (put (get_or (get d s) []) t v),
    get-put (get_or (get d s) []) t t' v,
    text_eq.beq_iff s s',
  )

module _ (d : Dict Text (List Text)) (s t s' t' : Text) where
  mem-add_inner :
      mem (get_or (get (put d s (add (get_or (get d s) []) t)) s') []) t'
      ≡ (if s == s' && t == t' then true else mem (get_or (get d s') []) t')
  mem-add_inner = ground (
    arith,
    get-put d s s' (add (get_or (get d s) []) t),
    mem-add (get_or (get d s) []) t t',
    text_eq.beq_iff s s',
  )

  mem-discard_inner :
      mem (get_or (get (put d s (discard (get_or (get d s) []) t)) s') []) t'
      ≡ (if s == s' && t == t' then false else mem (get_or (get d s') []) t')
  mem-discard_inner = ground (
    arith,
    get-put d s s' (discard (get_or (get d s) []) t),
    mem-discard (get_or (get d s) []) t t',
    text_eq.beq_iff s s',
  )

ruleset inner_laws = (get-put_inner, mem-add_inner, mem-discard_inner)

-- Observing a frame decides as the slot does.
pub observe-step :
    (cfg : Settings) (session alert_type : Text) (holds : Bool) (now : ℕ) (p : Policy)
    → (observe cfg session alert_type holds now p).0
      ≡ (step cfg holds now (slot p session alert_type)).0
unfolding observe
observe-step cfg s t false now p = refl
observe-step cfg s t true now p = ground arith

-- It moves that slot as `step` says, and no other slot.
pub slot-observe :
    (cfg : Settings) (session alert_type : Text) (holds : Bool) (now : ℕ) (p : Policy)
    → (session' alert_type' : Text)
    → slot (observe cfg session alert_type holds now p).1 session' alert_type' ≡ (
        if session == session' && alert_type == alert_type'
        then (step cfg holds now (slot p session alert_type)).1
        else slot p session' alert_type')
unfolding observe
slot-observe cfg s t false now p s' t' =
    simp inner_laws (ground (arith, text_eq.beq_iff s s', text_eq.beq_iff t t'))
slot-observe cfg s t true now p s' t' = ground (
  arith,
  get-put_inner p.condition_streak s t s' t' (get_or (get (streaks_of p s) t) 0 + 1),
  get-put_inner p.alert_last_emitted_at s t s' t' now,
  mem-add_inner p.active_alert_types s t s' t',
  text_eq.beq_iff s s',
  text_eq.beq_iff t t',
)

-- Ending a session empties its slots, and leaves those of the other sessions.
pub slot-clear_session :
    (session session' alert_type : Text) (p : Policy)
    → slot (clear_session session p) session' alert_type
      ≡ (if session == session' then idle else slot p session' alert_type)
unfolding clear_session get mem
slot-clear_session s s' t p = ground (
  arith,
  get-remove p.condition_streak s s',
  get-remove p.alert_last_emitted_at s s',
  get-remove p.active_alert_types s s',
)
