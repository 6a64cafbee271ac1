-- ===== src/Workflows/Phases/History.antt =====
-- Any sequence of a matter's workflow operations keeps its phases on track.
use mathlib.Core.Path.{subst}
use open_immigration_crm.Prelude.{
  ℕ, ◌+◌, ◌≡◌, ◌≤◌, inl, inr, refl, sym, All-map, List, [], ◌∷◌, Option, none, some, Option-cases,
  Bool, true, ◌==◌, ==_refl, All, find, find_passes, ==_iff, is_some, Bool-cases, arith, ok, err,
  IfOk, commit_or, commit_or-keeps,
}
use open_immigration_crm.Workflows.Records.{
  OutlinePhase, WorkflowTemplate, not_started, MatterPhase, MatterWorkflow, Matter, Clock,
  is_in_progress, is_not_started,
}
use open_immigration_crm.Workflows.Templates.{phases_from, save_template}
use open_immigration_crm.Workflows.Phases.{
  Error, no_phases, start_phase, due_in, started, save_phase, announce, edit, end_phase, ended,
  move_on, following_phase, noted, finish_phase, copied, with_workflow, apply_workflow,
  remove_workflow,
}
use open_immigration_crm.Workflows.Phases.Track.{
  AreSorted, IsOnTrack, IsTracked, Follows, save_phase-Follows, over_of_current,
}

abbrev pub IsGood : Option MatterWorkflow → Type 0
IsGood none = Unit
IsGood (some w) = IsTracked w.completed_at w.phases

-- The workflow, if the matter has one, is on track.
abbrev pub IsOrderly : Matter → Type 0
IsOrderly matter = IsGood matter.workflow

-- What a client of the workflow asks for: a template is saved from an outline and applied, a phase is
-- completed or skipped, the workflow is removed.
pub data Request : Type 0 where
  apply : (is_new : Bool) → List OutlinePhase → WorkflowTemplate → Request
  finish : (is_skipped : Bool) → (phase : ℕ) → Request
  remove : Request

unfoldable pub serve : Clock → Option ℕ → Request → Matter → Matter
serve clock actor (apply is_new outline template) matter =
    commit_or matter
      (apply_workflow clock (save_template actor is_new outline template) actor matter)
serve clock actor (finish is_skipped phase) matter =
    commit_or matter (finish_phase clock actor is_skipped phase matter)
serve clock actor remove matter = remove_workflow actor matter

unfoldable pub run : List (Clock × (Option ℕ × Request)) → Matter → Matter
unfolding serve
run [] matter = matter
run ((clock, (actor, request)) ∷ later) matter = run later (serve clock actor request matter)

pub start_phase-workflow :
    (clock : Clock) (previous : Option MatterPhase) (n : MatterPhase) (matter : Matter)
    (w : MatterWorkflow)
    → matter.workflow ≡ some w
    → (due : Option ℕ) × ((start_phase clock previous n matter).workflow
        ≡ some record w { phases = save_phase (started clock due n) w.phases })
unfolding start_phase edit announce
start_phase-workflow clock previous n matter w here = elim (Option-cases (due_in n.due_days)) [
  | inl e ↦ (n.due_item, rw (e, start_phase, here) refl)
  | inr (days, e) ↦ (some matter.next_id, rw (e, start_phase, here) refl)
]

move_on-IsOrderly :
    (clock : Clock) (p : MatterPhase) (next : Option MatterPhase) (matter : Matter)
    (w : MatterWorkflow)
    → matter.workflow ≡ some w
    → w.completed_at ≡ none
    → Follows clock w.phases next
    → IsGood (move_on clock p next matter).workflow
unfolding move_on edit Follows
move_on-IsOrderly clock p (some n) matter w here going h =
    let (due, e) = start_phase-workflow clock (some p) n matter w here in
    subst IsGood (sym e) (
      subst (λ over. IsTracked over (save_phase (started clock due n) w.phases)) (sym going)
        (h due))
move_on-IsOrderly clock p none matter w here going h = rw here h

-- What `finish_phase` does when it returns.
pub finish_phase-ok :
    (clock : Clock) (actor : Option ℕ) (b : Bool) (id : ℕ) (matter : Matter) (w : MatterWorkflow)
    (p : MatterPhase)
    → matter.workflow ≡ some w
    → find (λ (q : MatterPhase). q.id == id) w.phases ≡ some p
    → is_in_progress p.status ≡ true
    → finish_phase clock actor b id matter
      ≡ ok (
          noted actor b (
            move_on clock p
              (following_phase p.position (save_phase (ended clock b p) w.phases))
              (end_phase clock b p matter)))
unfolding finish_phase
finish_phase-ok clock actor b id matter w p here found current =
    simp (here, found, current, finish_phase) refl

pub end_phase-workflow :
    (clock : Clock) (b : Bool) (p : MatterPhase) (matter : Matter) (w : MatterWorkflow)
    → matter.workflow ≡ some w
    → (end_phase clock b p matter).workflow
      ≡ some record w { phases = save_phase (ended clock b p) w.phases }
unfolding end_phase edit
end_phase-workflow clock b p matter w here = rw here refl

finish_phase-IsOrderly :
    (clock : Clock) (actor : Option ℕ) (b : Bool) (id : ℕ) (matter : Matter)
    → IsOrderly matter
    → IfOk IsOrderly (finish_phase clock actor b id matter)
unfolding finish_phase noted
finish_phase-IsOrderly clock actor b id matter h = elim (Option-cases (matter.workflow)) [
  | inl e ↦ rw (e, IfOk) tt
  | inr (w, e) ↦
      let good : IsTracked w.completed_at w.phases = subst IsGood e h in
      elim (Option-cases (find (λ (p : MatterPhase). p.id == id) w.phases)) [
        | inl f ↦ rw (e, f, IfOk) tt
        | inr (p, f) ↦ elim (Bool-cases (is_in_progress p.status)) [
          | inr g ↦ rw (e, f, g, IfOk) tt
          | inl g ↦
              let going = over_of_current w.completed_at id p w.phases good.on_track f g in
              let named : find (λ (q : MatterPhase). q.id == p.id) w.phases ≡ some p =
                rw
                  (sym
                    ((==_iff p.id id).0 (find_passes (λ (q : MatterPhase). q.id == id) w.phases f)))
                  at f in
              subst (IfOk IsOrderly) (sym (finish_phase-ok clock actor b id matter w p e f g)) (
                move_on-IsOrderly clock p _ (end_phase clock b p matter)
                  (record w { phases = save_phase (ended clock b p) w.phases })
                  (end_phase-workflow clock b p matter w e) going
                  (save_phase-Follows clock b p w.phases good.sorted
                    (subst (λ over. IsOnTrack over w.phases) going good.on_track) named g))
        ]
      ]
]

copied-sorted :
    (id position : ℕ) (outline : List OutlinePhase)
    → AreSorted (copied id (phases_from position outline))
      × (All
            (λ (q : MatterPhase). (id ≤ q.id) × (position ≤ q.position))
            (copied id (phases_from position outline))
          × All
              (λ (q : MatterPhase). is_not_started q.status ≡ true)
              (copied id (phases_from position outline)))
unfolding copied phases_from is_not_started
copied-sorted id position [] = (tt, (tt, tt))
copied-sorted id position (o ∷ os) =
    let (sorted, (above, fresh)) = copied-sorted (id + 1) (position + 1) os in
    (
      (
        All-map (copied (id + 1) (phases_from (position + 1) os))
            (λ q (h : (id + 1 ≤ q.id) × (position + 1 ≤ q.position)).
              (omega (h.0, arith), omega (h.1, arith)))
            above,
        sorted,
      ),
      (
        (
          (omega (arith), omega (arith)),
          All-map (copied (id + 1) (phases_from (position + 1) os))
              (λ q (h : (id + 1 ≤ q.id) × (position + 1 ≤ q.position)).
                (omega (h.0, arith), omega (h.1, arith)))
              above,
        ),
        (refl, fresh),
      ),
    )

-- The first row that a template's phases become.
abbrev first_of : ℕ → OutlinePhase → MatterPhase
first_of id o = record {
  id = id;
  name = o.name;
  position = 0;
  due_days = o.due_days;
  status = not_started;
  started_at = none;
  completed_at = none;
  due_item = none;
}

apply_workflow-IsOrderly :
    (clock : Clock) (actor : Option ℕ) (is_new : Bool) (outline : List OutlinePhase)
    (template : WorkflowTemplate) (matter : Matter)
    → IfOk IsOrderly
        (apply_workflow clock (save_template actor is_new outline template) actor matter)
unfolding apply_workflow save_template with_workflow save_phase started is_in_progress phases_from
    copied
apply_workflow-IsOrderly clock actor is_new outline template matter =
    elim (Bool-cases (is_some matter.workflow)) [
      | inl e ↦ rw (e, IfOk) tt
      | inr e ↦ rw (e, IfOk) (begun outline)
    ]
  where
    begun :
        (os : List OutlinePhase)
        → IfOk {E = Error} IsOrderly (elim (copied matter.next_id (phases_from 0 os)) [
          | [] ↦ err no_phases
          | first ∷ _ ↦ ok (
              start_phase clock none first
                (with_workflow (save_template actor is_new os template) actor matter))
        ])
    begun [] = tt
    begun (o ∷ os) =
        let saved = with_workflow (save_template actor is_new (o ∷ os) template) actor matter in
        let (sorted, (_, fresh)) = copied-sorted matter.next_id 0 (o ∷ os) in
        let rest = copied (matter.next_id + 1) (phases_from 1 os) in
        let first = first_of matter.next_id o in
        let (due, e) = start_phase-workflow clock none first saved _ refl in
        subst IsGood (sym e) (
          rw (==_refl matter.next_id)
            record { sorted = sorted; on_track = inr (refl, (refl, fresh.1)) })

pub serve-IsOrderly :
    (clock : Clock) (actor : Option ℕ) (request : Request) (matter : Matter)
    → IsOrderly matter
    → IsOrderly (serve clock actor request matter)
unfolding serve remove_workflow
serve-IsOrderly clock actor (apply is_new outline template) matter h =
    commit_or-keeps IsOrderly matter _ h
      (apply_workflow-IsOrderly clock actor is_new outline template matter)
serve-IsOrderly clock actor (finish b id) matter h =
    commit_or-keeps IsOrderly matter _ h (finish_phase-IsOrderly clock actor b id matter h)
serve-IsOrderly clock actor remove matter h = elim (Option-cases (matter.workflow)) [
  | inl e ↦ rw (e, IsGood) h
  | inr (w, e) ↦ rw (e, IsGood) tt
]

-- Where it holds at first of a matter's workflow, if it has one, it holds after any sequence of
-- requests: its phases are finished ones, then the one in progress, then those not started, in the
-- order of their keys and positions; and it is over exactly when all phases are finished.
pub run-IsOrderly :
    (history : List (Clock × (Option ℕ × Request))) (matter : Matter)
    → IsOrderly matter
    → IsOrderly (run history matter)
unfolding run
run-IsOrderly [] matter h = h
run-IsOrderly ((clock, (actor, request)) ∷ later) matter h =
    run-IsOrderly later (serve clock actor request matter)
      (serve-IsOrderly clock actor request matter h)
