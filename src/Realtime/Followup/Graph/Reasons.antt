-- ===== src/Realtime/Followup/Graph/Reasons.antt =====
-- The reasons of decisions, and the two tests for clarifications.
use mathlib.Core.Path.{subst}
use voxenta_agentic_ai.Prelude.{
  ◌≡◌, refl, ap, Bool, true, false, ◌||◌, Option, none, some, List, [], ◌∷◌, ◌++◌, Text, text_eq,
  ◌==◌, codes, arith, if◌then◌else◌, inl, inr, Bool-cases, Option-cases, mem, get_or, IsStripped,
  strip-id, All, lower, starts_with, list_eqb_iff,
}
use voxenta_agentic_ai.Realtime.Turn.{Decision}
use voxenta_agentic_ai.Realtime.TurnLimit
use voxenta_agentic_ai.Realtime.TurnLimit.{clarification_reasons}
use voxenta_agentic_ai.Realtime.Session.{DecisionState}
use voxenta_agentic_ai.Realtime.Followup.Counting
use voxenta_agentic_ai.Realtime.Followup.Signals.{Signals}
use voxenta_agentic_ai.Realtime.Followup.Decision.{
  Answer, failed, replied, FollowupReply, followup_decision, check_reply,
  handled_edge_case_decision, no_meaningful_speech, goes_on, has_used_repeat_once,
  is_hesitation_only, no_speech_after_repeat_prompts, build_no_speech_reprompt, no_speech_prefixes,
  build_hesitation_reprompt,
}

-- What holds of the reasons that the node gives by itself, and of those of its model, holds of the reason
-- of each of its decisions to go on.
module _ (Q : Text → Type 0) (silent : Q no_meaningful_speech)
    (silent_again : Q (codes "no_meaningful_speech_after_repeat"))
    (hesitant : Q (codes "hesitation_reprompt")) where
  edge_case-reason :
      (choice : List Text → Text) (g : Signals) (s : DecisionState) (d : Decision)
      → handled_edge_case_decision choice g s ≡ some d
      → Q (get_or d.reason [])
  unfolding handled_edge_case_decision
  edge_case-reason choice g s d h =
      go g.no_meaningful_speech (has_used_repeat_once (s.turns ++ s.current_turn ∷ []))
        (is_hesitation_only s.current_turn.transcript s.current_turn.word_count)
        (choice no_speech_after_repeat_prompts)
        (build_no_speech_reprompt (choice no_speech_prefixes) s.question s.current_turn.prompt_text)
        (build_hesitation_reprompt choice s.question) h
    where
      said : (e : Decision) → some e ≡ some d → Q (get_or e.reason []) → Q (get_or d.reason [])
      said e h q = subst Q (ap (λ o. get_or (get_or o e).reason []) h) q

      go :
          (a b c : Bool) (p q r : Text)
          → (if a
              then some (
                  if b
                  then goes_on p (codes "no_meaningful_speech_after_repeat")
                  else goes_on q no_meaningful_speech)
              else if c
              then some (goes_on r (codes "hesitation_reprompt"))
              else none)
            ≡ some d
          → Q (get_or d.reason [])
      go true true c p q r h =
          said (goes_on p (codes "no_meaningful_speech_after_repeat")) h silent_again
      go true false c p q r h = said (goes_on q no_meaningful_speech) h silent
      go false b true p q r h = said (goes_on r (codes "hesitation_reprompt")) h hesitant
      go false b false p q r h = cc

  check_reply-reason :
      (g : Signals) (r : FollowupReply)
      → (check_reply g r).should_continue ≡ true
      → (check_reply g r).reason ≡ r.reason
  unfolding check_reply
  check_reply-reason g r h = ground arith

  pub followup-reason :
      (model : DecisionState → Signals → Answer FollowupReply) (choice : List Text → Text)
      (g : Signals) (s : DecisionState)
      → ((r : FollowupReply) → model s g ≡ replied r → Q (get_or r.reason []))
      → (followup_decision model choice g s).0.should_continue ≡ true
      → Q (get_or (followup_decision model choice g s).0.reason [])
  unfolding followup_decision
  followup-reason model choice g s h c =
      elim (Option-cases (handled_edge_case_decision choice g s)) [
        | inl e ↦ modelled (model s g) refl e
        | inr (d, e) ↦
            let same : (followup_decision model choice g s).0 ≡ d = ground arith in
            rw same (edge_case-reason choice g s d e)
      ]
    where
      modelled :
          (a : Answer FollowupReply)
          → model s g ≡ a
          → handled_edge_case_decision choice g s ≡ none
          → Q (get_or (followup_decision model choice g s).0.reason [])
      modelled (failed x) k e = absurd (ground arith)
      modelled (replied r) k e =
          let same : (followup_decision model choice g s).0 ≡ check_reply g r = ground arith in
          let goes : (check_reply g r).should_continue ≡ true = ground arith in
          rw (same, check_reply-reason g r goes) (h r k)

starts_with-lower :
    (s p : Text) → lower p ≡ p → starts_with s p ≡ true → starts_with (lower s) p ≡ true
unfolding starts_with lower
starts_with-lower s [] e h = refl
starts_with-lower [] (c ∷ p) e h = h
starts_with-lower (d ∷ s) (c ∷ p) e h = ground (arith, starts_with-lower s p (cc))

mem-lower :
    (rs : List Text) (s : Text)
    → All (λ r. lower r ≡ r) rs
    → mem rs s ≡ true
    → mem rs (lower s) ≡ true
unfolding mem
mem-lower [] s a h = h
mem-lower (r ∷ rs) s a h = elim (Bool-cases (r == s)) [
  | inl e ↦
      let same : r ≡ s = (list_eqb_iff r s).0 e in ground (arith, a.0, list_eqb_iff r (lower s))
  | inr e ↦ ground (arith, mem-lower rs s a.1)
]

or_mono :
    (a b a' b' : Bool)
    → (a ≡ true → a' ≡ true)
    → (b ≡ true → b' ≡ true)
    → (a || b) ≡ true
    → (a' || b') ≡ true
or_mono true b a' b' f g h = ground (arith, f refl)
or_mono false b a' b' f g h = ground (arith, g h)

lowered : All (λ r. lower r ≡ r) clarification_reasons
unfolding lower
lowered = (refl, (refl, (refl, tt)))

lowered_prefix : lower (codes "clarification_") ≡ codes "clarification_"
unfolding lower
lowered_prefix = refl

-- For a reason with no space around it, what the graph takes for a clarification the turn processor
-- takes for one too.
pub clarification_agrees :
    (reason : Option Text)
    → IsStripped (get_or reason [])
    → Counting.is_clarification_reason reason ≡ true
    → TurnLimit.is_clarification_reason reason ≡ true
unfolding Counting.is_clarification_reason TurnLimit.is_clarification_reason
clarification_agrees none h k = cc
clarification_agrees (some []) h k = cc
clarification_agrees (some (c ∷ r)) h k =
    or_mono (starts_with (c ∷ r) (codes "clarification_")) (mem clarification_reasons (c ∷ r)) _ _
      (starts_with-lower (c ∷ r) (codes "clarification_") lowered_prefix)
      (mem-lower clarification_reasons (c ∷ r) lowered) (rw (strip-id (c ∷ r) h) at (k))
