-- ===== src/Workflows/Phases.antt =====
-- Applying a template to a matter and moving the matter from phase to phase, after
-- crm/workflows/services.py.
pub mod Track
pub mod History
pub mod Progress
pub mod Refinement
pub mod End
use open_immigration_crm.Prelude.{
  ℕ, ◌+◌, max, List, [], ◌∷◌, ◌++◌, Option, none, some, Bool, true, false, not, ◌&&◌, ◌==◌, ltb,
  find, any, select, length, Text, text_eq, is_empty, is_some, Result, ok, err, if◌then◌else◌, map,
  ◌||◌,
}
use open_immigration_crm.Billing.Calendar.{add_days}
use open_immigration_crm.Workflows.Records.{
  PhaseTemplate, ItemTemplate, WorkflowTemplate, not_started, in_progress, completed, skipped,
  MatterPhase, MatterWorkflow, ChecklistItem, Deadline, system, status, applied, phase_completed,
  phase_skipped, removed, Matter, Clock, is_in_progress, is_not_started,
}

-- The `ValidationError`s, and `DoesNotExist`.
pub data Error : Type 0 where
  has_workflow no_phases not_current not_found : Error

-- `phase.save`: the row with this key.
unfoldable pub save_phase : MatterPhase → List MatterPhase → List MatterPhase
save_phase phase [] = []
save_phase phase (p ∷ ps) = if p.id == phase.id then phase ∷ ps else p ∷ save_phase phase ps

-- A change of the matter's workflow, if it has one.
unfoldable pub edit : (MatterWorkflow → MatterWorkflow) → Matter → Matter
edit f matter = record matter {
  workflow = elim (matter.workflow) [ none ↦ none | some workflow ↦ some (f workflow) ];
}

-- The days until a phase is due; zero days count as none.
unfoldable pub due_in : Option ℕ → Option ℕ
due_in none = none
due_in (some days) = if days == 0 then none else some days

-- A phase as `start_phase` saves it, with the key of its deadline.
unfoldable pub started : Clock → Option ℕ → MatterPhase → MatterPhase
started clock due_item phase = record phase {
  status = in_progress;
  started_at = some clock.now;
  due_item = due_item;
}

unfoldable pub name_of : Option MatterPhase → Option Text
name_of none = none
name_of (some phase) = some phase.name

unfoldable pub announce : Option MatterPhase → MatterPhase → Matter → Matter
unfolding name_of
announce previous phase matter = record matter {
  events = matter.events ++ (name_of previous, phase.name) ∷ [];
}

-- `start_phase`. Without days until it is due the phase keeps the deadline it has.
unfoldable pub start_phase : Clock → Option MatterPhase → MatterPhase → Matter → Matter
unfolding edit save_phase due_in started announce
start_phase clock previous phase matter = elim (due_in phase.due_days) [
  | none ↦ announce previous phase (
      edit (λ w. record w { phases = save_phase (started clock phase.due_item phase) w.phases })
        matter)
  | some days ↦
      let deadline : Deadline = record {
        id = matter.next_id;
        assigned_to = matter.assigned_to;
        scheduled_for = clock.aware (add_days clock.today days) 17;
        is_completed = false;
      } in
      announce previous phase (
        edit
          (λ w. record w {
            phases = save_phase (started clock (some matter.next_id) phase) w.phases;
          })
          (record matter {
            work_items = matter.work_items ++ deadline ∷ [];
            next_id = matter.next_id + 1;
          }))
]

-- `current_phase`
unfoldable pub current_phase : MatterWorkflow → Option MatterPhase
current_phase workflow = find (λ p. is_in_progress p.status) workflow.phases

-- The first phase not started behind a position; phases are kept in the order of their positions.
unfoldable pub following_phase : ℕ → List MatterPhase → Option MatterPhase
following_phase position phases =
    find (λ p. ltb position p.position && is_not_started p.status) phases

-- The deadline with this key, completed.
unfoldable pub complete_item : ℕ → List Deadline → List Deadline
complete_item id [] = []
complete_item id (d ∷ ds) =
    if d.id == id then record d { is_completed = true } ∷ ds else d ∷ complete_item id ds

unfoldable pub complete_due : Option ℕ → List Deadline → List Deadline
unfolding complete_item
complete_due none items = items
complete_due (some id) items = complete_item id items

unfoldable pub ended : Clock → Bool → MatterPhase → MatterPhase
ended clock is_skipped phase = record phase {
  status = if is_skipped then skipped else completed;
  completed_at = some clock.now;
}

-- The matter when the phase is saved as ended and its deadline is completed.
unfoldable pub end_phase : Clock → Bool → MatterPhase → Matter → Matter
unfolding edit save_phase ended complete_due
end_phase clock is_skipped phase matter =
    edit (λ w. record w { phases = save_phase (ended clock is_skipped phase) w.phases })
      (record matter { work_items = complete_due phase.due_item matter.work_items })

-- The phase that follows is started, or the workflow is over.
unfoldable pub move_on : Clock → MatterPhase → Option MatterPhase → Matter → Matter
unfolding start_phase edit
move_on clock phase (some next) matter = start_phase clock (some phase) next matter
move_on clock phase none matter = edit (λ w. record w { completed_at = some clock.now }) matter

unfoldable pub noted : Option ℕ → Bool → Matter → Matter
noted actor is_skipped matter = record matter {
  activities = matter.activities ++ (status, actor) ∷ [];
  audit = matter.audit ++ (actor, if is_skipped then phase_skipped else phase_completed) ∷ [];
}

-- `finish_phase`, of the phase with a key.
unfoldable pub finish_phase : Clock → Option ℕ → Bool → ℕ → Matter → Result Error Matter
unfolding end_phase move_on following_phase noted
finish_phase clock actor is_skipped id matter = elim (matter.workflow) [
  | none ↦ err not_found
  | some workflow ↦ elim (find (λ (p : MatterPhase). p.id == id) workflow.phases) [
    | none ↦ err not_found
    | some phase ↦
        if is_in_progress phase.status
        then (let next =
              following_phase phase.position
                (save_phase (ended clock is_skipped phase) workflow.phases) in
            ok (
              noted actor is_skipped
                (move_on clock phase next (end_phase clock is_skipped phase matter))))
        else err not_current
  ]
]

-- `template.phases`, as rows of the matter with their keys.
unfoldable pub copied : ℕ → List PhaseTemplate → List MatterPhase
copied id [] = []
copied id (t ∷ ts) =
    record {
      id = id;
      name = t.name;
      position = t.position;
      due_days = t.due_days;
      status = not_started;
      started_at = none;
      completed_at = none;
      due_item = none;
    }
    ∷ copied (id + 1) ts

-- The items of one phase on the checklist, behind a position.
unfoldable pub listed : ℕ → ℕ → List ItemTemplate → List ChecklistItem
listed phase position [] = []
listed phase position (item ∷ items) =
    record {
      phase = some phase;
      title = item.title;
      description = item.description;
      position = position + 1;
    }
    ∷ listed phase (position + 1) items

unfoldable pub checklist_of : ℕ → ℕ → List PhaseTemplate → List ChecklistItem
unfolding listed
checklist_of id position [] = []
checklist_of id position (t ∷ ts) =
    listed id position t.items ++ checklist_of (id + 1) (position + length t.items) ts

-- The largest position on the checklist, or 0.
unfoldable pub top_position : List ChecklistItem → ℕ
top_position [] = 0
top_position (item ∷ items) = max item.position (top_position items)

unfoldable pub with_workflow : WorkflowTemplate → Option ℕ → Matter → Matter
unfolding copied checklist_of top_position
with_workflow template actor matter = record matter {
  workflow = some record {
    template = template.id;
    name = template.name;
    applied_by = actor;
    completed_at = none;
    phases = copied matter.next_id template.phases;
  };
  checklist =
      matter.checklist
      ++ checklist_of matter.next_id (top_position matter.checklist) template.phases;
  activities = matter.activities ++ (system, actor) ∷ [];
  audit = matter.audit ++ (actor, applied) ∷ [];
  next_id = matter.next_id + length template.phases;
}

-- `apply_workflow`
unfoldable pub apply_workflow : Clock → WorkflowTemplate → Option ℕ → Matter → Result Error Matter
unfolding with_workflow start_phase
apply_workflow clock template actor matter =
    if is_some matter.workflow
    then err has_workflow
    else elim (copied matter.next_id template.phases) [
      | [] ↦ err no_phases
      | first ∷ _ ↦ ok (start_phase clock none first (with_workflow template actor matter))
    ]

unfoldable pub is_deadline_of : Deadline → MatterPhase → Bool
is_deadline_of d p = elim (p.due_item) [ none ↦ false | some id ↦ id == d.id ]

-- `remove_workflow`: open deadlines of its phases go, the checklist stays without its phases.
unfoldable pub remove_workflow : Option ℕ → Matter → Matter
unfolding is_deadline_of
remove_workflow actor matter = elim (matter.workflow) [
  | none ↦ matter
  | some workflow ↦ record matter {
    workflow = none;
    checklist = map (λ (i : ChecklistItem). record i { phase = none }) matter.checklist;
    work_items =
        select (λ (d : Deadline). d.is_completed || not (any (is_deadline_of d) workflow.phases))
          matter.work_items;
    activities = matter.activities ++ (system, actor) ∷ [];
    audit = matter.audit ++ (actor, removed) ∷ [];
  }
]

-- `templates_for`; templates come in the order of their names.
unfoldable pub templates_for : List WorkflowTemplate → Matter → List WorkflowTemplate
templates_for templates matter =
    let offered =
      select (λ (t : WorkflowTemplate). t.is_active && not (is_empty t.phases)) templates in
    select (λ (t : WorkflowTemplate). text_eq t.case_type matter.case_type) offered
    ++ select (λ (t : WorkflowTemplate). is_empty t.case_type) offered

-- `apply_automatic_workflow`
unfoldable pub apply_automatic_workflow :
    Clock → List WorkflowTemplate → Matter → Result Error Matter
unfolding apply_workflow
apply_automatic_workflow clock templates matter =
    elim (find
      (λ (t : WorkflowTemplate).
        t.is_active && t.apply_to_new_matters && text_eq t.case_type matter.case_type)
      templates) [
        | none ↦ ok matter
        | some template ↦
            if is_empty template.phases
            then ok matter
            else apply_workflow clock template none matter
      ]
