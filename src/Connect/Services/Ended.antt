-- ===== src/Connect/Services/Ended.antt =====
-- What is left of a connection that was disconnected.
use open_immigration_crm.Prelude.{
  ℕ, ◌≡◌, ◌≢◌, inl, inr, refl, Option, none, some, Option-cases, Bool-cases, is_some, false, Text,
  arith,
}
use open_immigration_crm.Connect.Records.{Capability, Connection, is_active}
use open_immigration_crm.Connect.Policy.{Site, Attempt, evaluate, allowed, preview_mode}
use open_immigration_crm.Connect.Syncs.{World, SyncRun, skipped, queue_due, start_syncs}
use open_immigration_crm.Connect.Syncs.Jobs.{begun}
use open_immigration_crm.Connect.Webhooks.{has_hash}
use open_immigration_crm.Connect.Services.{Call, AuditLog, disconnect}

-- A connection that keeps no credentials, that no request reaches, through which nothing is sent,
-- that no sync is queued for, and of which a run that was queued is skipped.
pub record IsOver (connection : Connection) (hash : Text) (site : Site) (a : Attempt)
    (capability : Option Capability) (w : World) (count : ℕ) (run : SyncRun) : Type 0 where
  pub no_credentials : connection.credentials ≡ none
  pub no_secret : connection.webhook_secret ≡ none
  pub unreached : has_hash hash connection ≡ false
  pub not_allowed : evaluate site capability (record a { connection = connection }) ≢ allowed
  pub not_previewed : evaluate site capability (record a { connection = connection }) ≢ preview_mode
  pub not_due : queue_due connection (w, count) ≡ (w, count)
  pub not_started : start_syncs connection w ≡ (w, 0)
  pub not_begun : begun connection w run ≡ record run { status = skipped; finished_at = some w.now }

evaluate_inactive :
    (site : Site) (capability : Option Capability) (a : Attempt)
    → is_active a.connection.status ≡ false
    → (evaluate site capability a ≢ allowed) × (evaluate site capability a ≢ preview_mode)
unfolding evaluate
evaluate_inactive site capability a e = (ground arith, ground arith)

queue_due_inactive :
    (connection : Connection) (found : World × ℕ)
    → is_active connection.status ≡ false
    → queue_due connection found ≡ found
unfolding queue_due
queue_due_inactive connection found e = rw (e, queue_due) refl

start_syncs_inactive :
    (connection : Connection) (w : World)
    → is_active connection.status ≡ false
    → start_syncs connection w ≡ (w, 0)
unfolding start_syncs
start_syncs_inactive connection w e = elim (Option-cases (connection.connector_class)) [
  | inl f ↦ rw (f, start_syncs) refl
  | inr (cls, f) ↦ rw (f, e, start_syncs) refl
]

begun_inactive :
    (connection : Connection) (w : World) (run : SyncRun)
    → is_active connection.status ≡ false
    → begun connection w run ≡ record run { status = skipped; finished_at = some w.now }
unfolding begun
begun_inactive connection w run e = elim (Bool-cases (is_some connection.connector_class)) [
  | inl f ↦ rw (f, e, begun) refl
  | inr f ↦ rw (f, begun) refl
]

-- Whatever the provider answers, a connection that was disconnected keeps no credentials and no
-- secret, no token leads to it, no action through it is allowed or previewed, neither the scheduler
-- nor staff queue a sync of it, and `run_sync` makes of a run that was queued before a skipped one.
pub disconnect-IsOver :
    (actor : Option ℕ) (call : Call) (connection : Connection) (log : AuditLog) (hash : Text)
    (site : Site) (a : Attempt) (capability : Option Capability) (w : World) (count : ℕ)
    (run : SyncRun)
    → IsOver (disconnect actor call connection log).0 hash site a capability w count run
unfolding disconnect has_hash is_active
disconnect-IsOver actor call connection log hash site a capability w count run = record {
  no_credentials = refl;
  no_secret = refl;
  unreached = refl;
  not_allowed =
      (evaluate_inactive site capability
        (record a { connection = (disconnect actor call connection log).0 }) refl).0;
  not_previewed =
      (evaluate_inactive site capability
        (record a { connection = (disconnect actor call connection log).0 }) refl).1;
  not_due = queue_due_inactive (disconnect actor call connection log).0 (w, count) refl;
  not_started = start_syncs_inactive (disconnect actor call connection log).0 w refl;
  not_begun = begun_inactive (disconnect actor call connection log).0 w run refl;
}
