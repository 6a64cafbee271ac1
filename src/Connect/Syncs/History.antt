-- ===== src/Connect/Syncs/History.antt =====
-- What happens to syncs, step by step: the clock goes on, workers tick, staff start syncs, and jobs
-- begin and end, in any order.
use open_immigration_crm.Prelude.{ℕ, ◌+◌, List, [], ◌∷◌, Text}
use open_immigration_crm.Connect.Records.{Connection}
use open_immigration_crm.Connect.Syncs.{World, start_syncs, Ticked, tick}
use open_immigration_crm.Connect.Syncs.Jobs.{Synced, begin_sync, end_sync}

pub data Step : Type 0 where
  pass : (seconds : ℕ) → Step
  work : (worker : Text) → List Ticked → Step
  start : Connection → Step
  begin : (id : ℕ) → Step
  end : (id : ℕ) → Synced → Step

unfoldable pub take_step : Step → World → World
take_step (pass seconds) w = record w { now = w.now + seconds }
take_step (work worker results) w = (tick worker results w).0
take_step (start connection) w = (start_syncs connection w).0
take_step (begin id) w = begin_sync id w
take_step (end id answer) w = end_sync answer id w

unfoldable pub take_steps : List Step → World → World
unfolding take_step
take_steps [] w = w
take_steps (step ∷ steps) w = take_steps steps (take_step step w)
