-- ===== src/Workflows.antt =====
-- crm/workflows: templates written as outlines, and the phases they put a matter through.
pub mod Records
pub mod Templates
pub mod Outline
pub mod Phases
mod Tests
