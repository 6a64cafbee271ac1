-- ===== src/Connect/Syncs/Tests.antt =====
-- The theorems on syncs at one connection.
use open_immigration_crm.Prelude.{◌≡◌, [], ◌∷◌, none, codes}
use open_immigration_crm.Connect.Records.{ConnectionStatus}
use open_immigration_crm.Connect.Examples.{connection_with}
use open_immigration_crm.Connect.Syncs.{World, Ticked, queue_due_syncs}
use open_immigration_crm.Connect.Syncs.Jobs.{Synced, Failure}
use open_immigration_crm.Connect.Syncs.History.{Step, take_steps}
use open_immigration_crm.Connect.Syncs.Spacing.{IsSpaced, take_steps-IsSpaced}
use open_immigration_crm.Connect.Syncs.Repeated.{queue_due_syncs_twice}

abbrev world : World
world = record {
  now = 5000;
  connections = connection_with ConnectionStatus.active none none ∷ [];
  runs = [];
  enqueued = [];
  heartbeats = [];
  next_id = 1;
}

take_steps-IsSpaced_example : IsSpaced (
    take_steps
      (Step.work (codes "worker") (Ticked.raised ∷ [])
        ∷ Step.begin 1
        ∷ Step.pass 4000
        ∷ Step.start (connection_with ConnectionStatus.active none none)
        ∷ Step.end 1 (Synced.broke (Failure.unexpected (codes "OSError")))
        ∷ [])
      world)
take_steps-IsSpaced_example =
    take_steps-IsSpaced
      (Step.work (codes "worker") (Ticked.raised ∷ [])
        ∷ Step.begin 1
        ∷ Step.pass 4000
        ∷ Step.start (connection_with ConnectionStatus.active none none)
        ∷ Step.end 1 (Synced.broke (Failure.unexpected (codes "OSError")))
        ∷ [])
      world (record { past = tt; spaced = tt })

queue_due_syncs_twice_example :
    queue_due_syncs (queue_due_syncs world).0 ≡ ((queue_due_syncs world).0, 0)
queue_due_syncs_twice_example = queue_due_syncs_twice world
