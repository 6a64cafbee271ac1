-- ===== src/Workflows/Tests.antt =====
-- The theorems on workflows at one matter with three phases.
use open_immigration_crm.Prelude.{
  ℕ, ◌+◌, ◌*◌, ◌-◌, ◌<◌, ◌≡◌, ◌&&◌, ◌++◌, leb, IfOk, if◌then◌else◌, refl, inl, inr, List, [], ◌∷◌,
  Option, none, some, true, false, codes, is_some, arith,
}
use open_immigration_crm.Workflows.Records.{
  WorkflowTemplate, OutlinePhase, PhaseStatus, MatterPhase, MatterWorkflow, Matter, Clock,
  is_in_progress, is_not_started, is_finished,
}
use open_immigration_crm.Workflows.Outline.{parse_outline}
use open_immigration_crm.Workflows.Outline.Limits.{IsWithin, parse_outline-IsWithin}
use open_immigration_crm.Workflows.Phases.History.{Request, IsOrderly, run, run-IsOrderly}
use open_immigration_crm.Workflows.Phases.Track.{IsTracked}
use open_immigration_crm.Workflows.Phases.Refinement.{IsFinishing, finish_phase-IsFinishing}
use open_immigration_crm.Workflows.Phases.End.{finish_all, finish_all_ends}

abbrev clock : Clock
clock = record {
  now = 900;
  today = record { year = 2025; month = 3; day = 1 };
  aware = λ date hour. date.day * 24 + hour;
}

abbrev outline : List OutlinePhase
outline =
    record { name = codes "Intake"; due_days = some 3; items = (codes "Passport", []) ∷ [] }
    ∷ record { name = codes "Filing"; due_days = none; items = [] }
    ∷ []

abbrev template : WorkflowTemplate
template = record {
  id = 7;
  name = codes "Naturalization";
  case_type = [];
  apply_to_new_matters = false;
  is_active = true;
  created_by = none;
  phases = [];
}

abbrev matter_with : Option MatterWorkflow → Matter
matter_with workflow = record {
  case_type = [];
  assigned_to = some 2;
  workflow = workflow;
  checklist = [];
  work_items = [];
  activities = [];
  audit = [];
  events = [];
  next_id = 10;
}

abbrev history : List (Clock × (Option ℕ × Request))
history =
    (clock, (some 2, Request.apply true outline template))
    ∷ (clock, (some 2, Request.finish false 10))
    ∷ (clock, (none, Request.finish true 11))
    ∷ []

run-IsOrderly_example : IsOrderly (run history (matter_with none))
run-IsOrderly_example = run-IsOrderly history (matter_with none) tt

abbrev phase : ℕ → PhaseStatus → MatterPhase
phase id status = record {
  id = id;
  name = codes "Phase";
  position = id;
  due_days = some 2;
  status = status;
  started_at = none;
  completed_at = none;
  due_item = none;
}

abbrev workflow : MatterWorkflow
workflow = record {
  template = 7;
  name = codes "Naturalization";
  applied_by = some 2;
  completed_at = none;
  phases =
      phase 1 PhaseStatus.skipped
      ∷ phase 2 PhaseStatus.in_progress
      ∷ phase 3 PhaseStatus.not_started
      ∷ [];
}

workflow-IsTracked : IsTracked none workflow.phases
unfolding is_finished is_in_progress is_not_started
workflow-IsTracked = record {
  sorted = (
    ((omega arith, omega arith), ((omega arith, omega arith), tt)),
    (((omega arith, omega arith), tt), (tt, tt)),
  );
  on_track = inl (refl, inr (refl, (refl, (refl, tt))));
}

finish_phase-IsFinishing_example :
    IsFinishing clock (some 2) true (matter_with (some workflow)) workflow
finish_phase-IsFinishing_example =
    finish_phase-IsFinishing clock (some 2) true (matter_with (some workflow)) workflow refl refl
      workflow-IsTracked

finish_all_ends_example :
    (after : MatterWorkflow) × (((finish_all
          ((clock, (some 2, false)) ∷ (clock, (none, true)) ∷ [])
          (matter_with (some workflow))).workflow
        ≡ some after)
      × (is_some after.completed_at ≡ true))
unfolding is_finished
finish_all_ends_example =
    finish_all_ends ((clock, (some 2, false)) ∷ (clock, (none, true)) ∷ [])
      (matter_with (some workflow)) workflow refl workflow-IsTracked (omega arith)

abbrev digit : ℕ → Option ℕ
digit c = if leb 48 c && leb c 57 then some (c - 48) else none

digit_small : (c d : ℕ) → digit c ≡ some d → d < 10
digit_small c d e = ground arith

parse_outline-IsWithin_example :
    IfOk IsWithin
      (parse_outline digit (codes "Intake (due in 3 days)" ++ 10 ∷ codes "- Passport | A copy"))
parse_outline-IsWithin_example =
    parse_outline-IsWithin digit digit_small
      (codes "Intake (due in 3 days)" ++ 10 ∷ codes "- Passport | A copy")
