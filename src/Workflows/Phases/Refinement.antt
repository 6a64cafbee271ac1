-- ===== src/Workflows/Phases/Refinement.antt =====
-- `finish_phase` of crm/workflows/services.py on the current phase refines a counter.
use mathlib.Core.Path.{subst}
use open_immigration_crm.Prelude.{
  ℕ, suc, ◌≡◌, ◌<◌, inl, inr, refl, sym, ap, ◌∙◌, List, [], ◌∷◌, Option, none, some, Bool, true,
  false, ◌&&◌, ◌==◌, ltb, All, find, find_passes, find-All, length, is_some, Bool-cases, arith, ok,
}
use open_immigration_crm.Workflows.Records.{
  MatterPhase, MatterWorkflow, Matter, Clock, is_in_progress, is_not_started, is_finished,
}
use open_immigration_crm.Workflows.Phases.{
  save_phase, started, ended, current_phase, following_phase, move_on, end_phase, noted,
  finish_phase, edit,
}
use open_immigration_crm.Workflows.Phases.Track.{
  IsBefore, AreSorted, IsTracked, Follows, save_phase-All, save_phase-Follows,
}
use open_immigration_crm.Workflows.Phases.History.{
  start_phase-workflow, finish_phase-ok, end_phase-workflow,
}
use open_immigration_crm.Workflows.Phases.Progress.{
  Progress, advance, progress_of, finished, length-save_phase, finished-save_phase, find_own,
  finished_some, finished_none, current_phase_of,
}

module _ (clock : Clock) (b : Bool) (p : MatterPhase) where
  ended-AreSorted :
      (ps : List MatterPhase)
      → AreSorted ps
      → find (λ (q : MatterPhase). q.id == p.id) ps ≡ some p
      → AreSorted (save_phase (ended clock b p) ps)
  unfolding save_phase ended
  ended-AreSorted [] sorted found = tt
  ended-AreSorted (x ∷ ps) sorted found = elim (Bool-cases (x.id == p.id)) [
    | inl e ↦
        let same : x ≡ p = ground arith in
        rw e (subst (λ (q : MatterPhase). All (IsBefore q) ps) same sorted.0, sorted.1)
    | inr e ↦
        let later : find (λ (q : MatterPhase). q.id == p.id) ps ≡ some p = rw e at found in
        rw e (
          save_phase-All (IsBefore x) (ended clock b p) ps
              (find-All (λ (q : MatterPhase). q.id == p.id) (IsBefore x) ps sorted.0 later)
              sorted.0,
          ended-AreSorted ps sorted.1 later,
        )
  ]

  ended-finished :
      (ps : List MatterPhase)
      → find (λ (q : MatterPhase). q.id == p.id) ps ≡ some p
      → is_in_progress p.status ≡ true
      → finished (save_phase (ended clock b p) ps) ≡ suc (finished ps)
  unfolding ended is_finished is_in_progress
  ended-finished ps found current =
      let counted = finished-save_phase (ended clock b p) p ps found in ground arith

started-finished :
    (clock : Clock) (due : Option ℕ) (n : MatterPhase) (ps : List MatterPhase)
    → find (λ (q : MatterPhase). q.id == n.id) ps ≡ some n
    → is_not_started n.status ≡ true
    → finished (save_phase (started clock due n) ps) ≡ finished ps
unfolding started is_finished is_not_started
started-finished clock due n ps found fresh =
    let counted = finished-save_phase (started clock due n) n ps found in ground arith

following_is_not_started :
    (position : ℕ) (ps : List MatterPhase) {n : MatterPhase}
    → following_phase position ps ≡ some n
    → AreSorted ps
    → (find (λ (q : MatterPhase). q.id == n.id) ps ≡ some n) × (is_not_started n.status ≡ true)
unfolding following_phase
following_is_not_started position ps {n} e sorted =
    let q = λ (m : MatterPhase). ltb position m.position && is_not_started m.status in
    let passes : (ltb position n.position && is_not_started n.status) ≡ true = find_passes q ps e in
    (find_own q ps sorted e, ground arith)

progress_path :
    {t t' d d' : ℕ} {o o' : Bool}
    → t ≡ t'
    → d ≡ d'
    → o ≡ o'
    → ◌≡◌ {A = Progress}
        (record { total = t; done = d; over = o })
        (record { total = t'; done = d'; over = o' })
progress_path e f g = rw (e, f, g) refl

==_of_eq : (a b : ℕ) → a ≡ b → true ≡ (a == b)
==_of_eq a b e = ground arith

==_of_lt : (a b : ℕ) → a < b → false ≡ (a == b)
==_of_lt a b l = ground arith

-- What a matter's workflow is after its current phase is ended.
pub record IsAdvanced (w : MatterWorkflow) (workflow : Option MatterWorkflow) : Type 0 where
  pub after : MatterWorkflow
  pub is_it : workflow ≡ some after
  pub tracked : IsTracked after.completed_at after.phases
  pub counts : progress_of after ≡ advance (progress_of w)

module _ (clock : Clock) (b : Bool) (p : MatterPhase) (matter : Matter) (w : MatterWorkflow)
    (here : matter.workflow ≡ some w) (going : w.completed_at ≡ none)
    (found : find (λ (q : MatterPhase). q.id == p.id) w.phases ≡ some p)
    (current : is_in_progress p.status ≡ true) (tracked : IsTracked none w.phases) where
  left : List MatterPhase
  left = save_phase (ended clock b p) w.phases

  left-length : length left ≡ length w.phases
  unfolding left
  left-length = length-save_phase (ended clock b p) w.phases

  left-finished : finished left ≡ suc (finished w.phases)
  unfolding left
  left-finished = ended-finished clock b p w.phases found current

  left-AreSorted : AreSorted left
  unfolding left
  left-AreSorted = ended-AreSorted clock b p w.phases tracked.sorted found

  left-workflow : (end_phase clock b p matter).workflow ≡ some record w { phases = left }
  unfolding left
  left-workflow = end_phase-workflow clock b p matter w here

  -- The workflow after the move, for each phase that may follow.
  moved :
      (next : Option MatterPhase)
      → following_phase p.position left ≡ next
      → Follows clock left next
      → IsAdvanced w (move_on clock p next (end_phase clock b p matter)).workflow
  unfolding move_on Follows edit progress_of advance
  moved none e h = record {
    after = record w { phases = left; completed_at = some clock.now };
    is_it = rw left-workflow refl;
    tracked = h;
    counts = progress_path left-length left-finished (
        ==_of_eq (suc (finished w.phases)) (length w.phases)
          (sym left-finished ∙ finished_some clock.now left h.on_track ∙ left-length));
  }
  moved (some n) e h =
      let (due, workflow) =
        start_phase-workflow clock (some p) n (end_phase clock b p matter)
          (record w { phases = left }) left-workflow in
      let (own, fresh) = following_is_not_started p.position left e left-AreSorted in
      record {
        after = record w { phases = save_phase (started clock due n) left };
        is_it = workflow;
        tracked =
            subst (λ over. IsTracked over (save_phase (started clock due n) left)) (sym going)
              (h due);
        counts =
            progress_path (length-save_phase (started clock due n) left ∙ left-length)
              (started-finished clock due n left own fresh ∙ left-finished)
              (ap is_some going
                ∙ ==_of_lt (suc (finished w.phases)) (length w.phases) (
                    omega (
                      finished_none (save_phase (started clock due n) left) (h due).on_track,
                      length-save_phase (started clock due n) left,
                      started-finished clock due n left own fresh,
                      left-length,
                      left-finished,
                      arith,
                    )));
      }

-- What `finish_phase` does to the current phase of a workflow that is not over.
pub record IsFinishing (clock : Clock) (actor : Option ℕ) (b : Bool) (matter : Matter)
    (w : MatterWorkflow) : Type 0 where
  pub phase : MatterPhase
  pub is_current : current_phase w ≡ some phase
  pub after : Matter
  pub returns : finish_phase clock actor b phase.id matter ≡ ok after
  pub advanced : IsAdvanced w after.workflow

-- The current phase of a workflow on track that is not over can be completed or skipped, and that
-- counts one more finished phase and ends the workflow exactly with the last one.
pub finish_phase-IsFinishing :
    (clock : Clock) (actor : Option ℕ) (b : Bool) (matter : Matter) (w : MatterWorkflow)
    → matter.workflow ≡ some w
    → w.completed_at ≡ none
    → IsTracked none w.phases
    → IsFinishing clock actor b matter w
unfolding current_phase noted save_phase left
finish_phase-IsFinishing clock actor b matter w here going tracked =
    let (p, (found, current)) = current_phase_of w.phases tracked.on_track in
    let own =
      find_own (λ (q : MatterPhase). is_in_progress q.status) w.phases tracked.sorted found in
    let left = save_phase (ended clock b p) w.phases in
    let next = following_phase p.position left in
    record {
      phase = p;
      is_current = found;
      after = noted actor b (move_on clock p next (end_phase clock b p matter));
      returns = finish_phase-ok clock actor b p.id matter w p here own current;
      advanced =
          moved clock b p matter w here going own current tracked next refl
            (save_phase-Follows clock b p w.phases tracked.sorted tracked.on_track own current);
    }
