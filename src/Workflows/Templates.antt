-- ===== src/Workflows/Templates.antt =====
-- `save_template` of crm/workflows/services.py, and `WorkflowTemplate.clean`.
use open_immigration_crm.Prelude.{
  ℕ, ◌+◌, List, [], ◌∷◌, Option, none, some, Bool, not, ◌&&◌, ◌==◌, any, Text, text_eq, is_empty,
  if◌then◌else◌,
}
use open_immigration_crm.Workflows.Records.{
  ItemTemplate, PhaseTemplate, WorkflowTemplate, OutlinePhase,
}

-- `enumerate` of the items, and of the phases.
unfoldable pub items_from : ℕ → List (Text × Text) → List ItemTemplate
items_from position [] = []
items_from position ((title, description) ∷ items) =
    record { title = title; description = description; position = position }
    ∷ items_from (position + 1) items

unfoldable pub phases_from : ℕ → List OutlinePhase → List PhaseTemplate
unfolding items_from
phases_from position [] = []
phases_from position (phase ∷ phases) =
    record {
      name = phase.name;
      position = position;
      due_days = phase.due_days;
      items = items_from 0 phase.items;
    }
    ∷ phases_from (position + 1) phases

-- `save_template`: the phases are replaced by the outline's.
unfoldable pub save_template :
    Option ℕ → Bool → List OutlinePhase → WorkflowTemplate → WorkflowTemplate
unfolding phases_from
save_template actor is_new outline template = record template {
  created_by = if is_new then actor else template.created_by;
  phases = phases_from 0 outline;
}

-- The `ValidationError`s of `WorkflowTemplate.clean`.
pub data Problem : Type 0 where
  no_case_type already_applies : Problem

unfoldable pub is_rival : WorkflowTemplate → WorkflowTemplate → Bool
is_rival template other =
    not (other.id == template.id)
    && text_eq other.case_type template.case_type
    && other.apply_to_new_matters
    && other.is_active

-- `WorkflowTemplate.clean`, with the other templates.
unfoldable pub clean : List WorkflowTemplate → WorkflowTemplate → Option Problem
unfolding is_rival
clean templates template =
    if template.apply_to_new_matters && is_empty template.case_type
    then some no_case_type
    else if template.apply_to_new_matters && template.is_active && any (is_rival template) templates
    then some already_applies
    else none
