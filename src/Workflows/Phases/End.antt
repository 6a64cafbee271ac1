-- ===== src/Workflows/Phases/End.antt =====
-- Ending the current phase of a workflow on track again and again, completed or skipped.
use mathlib.Core.Path.{subst}
use open_immigration_crm.Prelude.{
  ℕ, suc, ◌+◌, ◌≡◌, ◌≤◌, inl, inr, refl, sym, ap, List, [], ◌∷◌, Option, none, some, Option-cases,
  Bool, true, find, length, is_some, Bool-cases, arith, ok, commit_or,
}
use open_immigration_crm.Workflows.Records.{
  MatterPhase, MatterWorkflow, Matter, Clock, is_in_progress,
}
use open_immigration_crm.Workflows.Phases.{current_phase, finish_phase}
use open_immigration_crm.Workflows.Phases.Track.{IsOnTrack, IsTracked, finished-not_current}
use open_immigration_crm.Workflows.Phases.Progress.{
  Progress, advance, progress_of, finished, finished_some, finished_none,
}
use open_immigration_crm.Workflows.Phases.Refinement.{finish_phase-IsFinishing}

-- Staff end the current phase, if there is one.
unfoldable pub finish_current : Clock → Option ℕ → Bool → Matter → Matter
finish_current clock actor b matter = elim (matter.workflow) [
  | none ↦ matter
  | some w ↦ elim (current_phase w) [
    | none ↦ matter
    | some p ↦ commit_or matter (finish_phase clock actor b p.id matter)
  ]
]

unfoldable pub finish_all : List (Clock × (Option ℕ × Bool)) → Matter → Matter
unfolding finish_current
finish_all [] matter = matter
finish_all ((clock, (actor, b)) ∷ calls) matter =
    finish_all calls (finish_current clock actor b matter)

no_current :
    (t : ℕ) (ps : List MatterPhase)
    → IsOnTrack (some t) ps
    → find (λ (p : MatterPhase). is_in_progress p.status) ps ≡ none
no_current t [] h = refl
no_current t (p ∷ ps) (inr (_, (never, _))) = absurd (cc)
no_current t (p ∷ ps) (inl (f, h)) = elim (Bool-cases (is_in_progress p.status)) [
  | inl e ↦ absurd (finished-not_current p.status f e)
  | inr e ↦ rw e (no_current t ps h)
]

finish_current_over :
    (clock : Clock) (actor : Option ℕ) (b : Bool) (matter : Matter) (w : MatterWorkflow) (t : ℕ)
    → matter.workflow ≡ some w
    → IsOnTrack (some t) w.phases
    → finish_current clock actor b matter ≡ matter
unfolding finish_current current_phase
finish_current_over clock actor b matter w t here h =
    simp (here, no_current t w.phases h, finish_current) refl

finish_current_going :
    (clock : Clock) (actor : Option ℕ) (b : Bool) (matter after : Matter) (w : MatterWorkflow)
    (p : MatterPhase)
    → matter.workflow ≡ some w
    → current_phase w ≡ some p
    → finish_phase clock actor b p.id matter ≡ ok after
    → finish_current clock actor b matter ≡ after
unfolding finish_current
finish_current_going clock actor b matter after w p here current returns =
    simp (here, current, returns, finish_current) refl

-- A workflow on track is over after as many calls as it has phases that are not finished.
pub finish_all_ends :
    (calls : List (Clock × (Option ℕ × Bool))) (matter : Matter) (w : MatterWorkflow)
    → matter.workflow ≡ some w
    → IsTracked w.completed_at w.phases
    → length w.phases ≤ finished w.phases + length calls
    → (after : MatterWorkflow) × (((finish_all calls matter).workflow ≡ some after)
        × (is_some after.completed_at ≡ true))
unfolding finish_all progress_of advance
finish_all_ends [] matter w here tracked enough = elim (Option-cases (w.completed_at)) [
  | inl e ↦
      let short =
        finished_none w.phases (subst (λ over. IsOnTrack over w.phases) e tracked.on_track) in
      absurd (omega (short, enough, arith))
  | inr (t, e) ↦ (w, (here, ap is_some e))
]
finish_all_ends ((clock, (actor, b)) ∷ calls) matter w here tracked enough =
    elim (Option-cases (w.completed_at)) [
      | inr (t, e) ↦
          let on_track : IsOnTrack (some t) w.phases =
            subst (λ over. IsOnTrack over w.phases) e tracked.on_track in
          subst
            (λ (m : Matter).
              (after : MatterWorkflow) × (((finish_all calls m).workflow ≡ some after)
                × (is_some after.completed_at ≡ true)))
            (sym (finish_current_over clock actor b matter w t here on_track))
            (finish_all_ends calls matter w here tracked
              (omega (finished_some t w.phases on_track, arith)))
      | inl e ↦
          let step =
            finish_phase-IsFinishing clock actor b matter w here e
              (subst (λ over. IsTracked over w.phases) e tracked) in
          let moved = step.advanced in
          let same_total : length moved.after.phases ≡ length w.phases =
            ap (λ (p : Progress). p.total) moved.counts in
          let one_more : finished moved.after.phases ≡ suc (finished w.phases) =
            ap (λ (p : Progress). p.done) moved.counts in
          subst
            (λ (m : Matter).
              (after : MatterWorkflow) × (((finish_all calls m).workflow ≡ some after)
                × (is_some after.completed_at ≡ true)))
            (sym (
              finish_current_going clock actor b matter step.after w step.phase here step.is_current
                step.returns))
            (finish_all_ends calls step.after moved.after moved.is_it moved.tracked
              (omega (same_total, one_more, enough, arith)))
    ]
