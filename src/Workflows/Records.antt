-- ===== src/Workflows/Records.antt =====
-- The rows of crm/workflows/models.py, and of crm/models.py what a matter's workflow touches: its
-- checklist, its work items, its activities and the audit log. Keys, users and moments are numbers.
use open_immigration_crm.Prelude.{ℕ, List, Option, Bool, true, false, Text}
use open_immigration_crm.Billing.Calendar.{Date}

pub record ItemTemplate : Type 0 where
  pub title : Text
  pub description : Text
  pub position : ℕ

pub record PhaseTemplate : Type 0 where
  pub name : Text
  pub position : ℕ
  pub due_days : Option ℕ
  pub items : List ItemTemplate

-- The empty `case_type` is a template for every kind of matter.
pub record WorkflowTemplate : Type 0 where
  pub id : ℕ
  pub name : Text
  pub case_type : Text
  pub apply_to_new_matters : Bool
  pub is_active : Bool
  pub created_by : Option ℕ
  pub phases : List PhaseTemplate

-- `MatterPhase.Status`
pub data PhaseStatus : Type 0 where
  not_started in_progress completed skipped : PhaseStatus

pub record MatterPhase : Type 0 where
  pub id : ℕ
  pub name : Text
  pub position : ℕ
  pub due_days : Option ℕ
  pub status : PhaseStatus
  pub started_at : Option ℕ
  pub completed_at : Option ℕ
  pub due_item : Option ℕ

pub record MatterWorkflow : Type 0 where
  pub template : ℕ
  pub name : Text
  pub applied_by : Option ℕ
  pub completed_at : Option ℕ
  pub phases : List MatterPhase

pub record ChecklistItem : Type 0 where
  pub phase : Option ℕ
  pub title : Text
  pub description : Text
  pub position : ℕ

-- A deadline in the work queue.
pub record Deadline : Type 0 where
  pub id : ℕ
  pub assigned_to : Option ℕ
  pub scheduled_for : ℕ
  pub is_completed : Bool

pub data ActivityKind : Type 0 where
  system status : ActivityKind

pub data WorkflowAction : Type 0 where
  applied phase_completed phase_skipped removed : WorkflowAction

-- A matter with what hangs off it; `events` are the phases that `emit` announced, each with the one
-- before it.
pub record Matter : Type 0 where
  pub case_type : Text
  pub assigned_to : Option ℕ
  pub workflow : Option MatterWorkflow
  pub checklist : List ChecklistItem
  pub work_items : List Deadline
  pub activities : List (ActivityKind × Option ℕ)
  pub audit : List (Option ℕ × WorkflowAction)
  pub events : List (Option Text × Text)
  pub next_id : ℕ

-- The clock, and the time zone that `timezone.make_aware` reads.
pub record Clock : Type 0 where
  pub now : ℕ
  pub today : Date
  pub aware : Date → ℕ → ℕ

unfoldable pub is_in_progress : PhaseStatus → Bool
is_in_progress in_progress = true
is_in_progress _ = false

unfoldable pub is_not_started : PhaseStatus → Bool
is_not_started not_started = true
is_not_started _ = false

unfoldable pub is_finished : PhaseStatus → Bool
is_finished completed = true
is_finished skipped = true
is_finished _ = false

-- A phase as `parse_outline` reads it: its name, the days until it is due, and its items.
pub record OutlinePhase : Type 0 where
  pub name : Text
  pub due_days : Option ℕ
  pub items : List (Text × Text)
