-- ===== src/Connect/Syncs.antt =====
-- Runs of syncs and their scheduler, after crm/connect/models.py and crm/connect/scheduler.py.
pub mod Jobs
pub mod History
pub mod Saved
pub mod Spacing
pub mod Repeated
mod Tests
use open_immigration_crm.Prelude.{
  ℕ, ◌+◌, ◌*◌, List, [], ◌∷◌, ◌++◌, Option, none, some, Bool, true, false, not, ◌&&◌, ◌||◌, ◌==◌,
  leb, ltb, find, any, select, map, Text, text_eq, is_empty, is_some, take, codes, if◌then◌else◌,
}
use open_immigration_crm.Connect.Records.{
  Capability, phone, texting, mailbox, system_email, calendar, scheduling, video, payments,
  accounting, storage, esignature, ai_models, translation, legal_research, case_status, shipping,
  lead_capture, marketing, sign_in, migration, automation, capability_eq, enabled, Connection,
  is_active, mark_connection,
}

-- `SyncRun.Status`
pub data RunStatus : Type 0 where
  queued running succeeded failed skipped : RunStatus

-- A cursor is kept as the text of its JSON object.
abbrev pub Cursor : Type 0
Cursor = Text

unfoldable pub no_cursor : Cursor
no_cursor = codes "{}"

pub record SyncRun : Type 0 where
  pub id : ℕ
  pub connection : ℕ
  pub capability : Capability
  pub status : RunStatus
  pub cursor_before : Cursor
  pub cursor_after : Cursor
  pub records_received : ℕ
  pub error : Text
  pub created_at : ℕ
  pub started_at : Option ℕ
  pub finished_at : Option ℕ

-- The tables and the clock. Runs are kept newest first, as `Meta.ordering` gives them; `enqueued` are
-- the runs whose job was handed to the worker, `heartbeats` the workers and when each was last seen.
pub record World : Type 0 where
  pub now : ℕ
  pub connections : List Connection
  pub runs : List SyncRun
  pub enqueued : List ℕ
  pub heartbeats : List (Text × ℕ)
  pub next_id : ℕ

unfoldable pub is_under_way : RunStatus → Bool
is_under_way queued = true
is_under_way running = true
is_under_way _ = false

unfoldable pub is_of : ℕ → Capability → SyncRun → Bool
is_of connection capability run =
    run.connection == connection && capability_eq run.capability capability

-- `STALE_RUN_AFTER`
unfoldable pub stale_run_after : ℕ
stale_run_after = 3600

unfoldable pub last_run : ℕ → Capability → World → Option SyncRun
unfolding is_of
last_run connection capability w = find (is_of connection capability) w.runs

-- `sync_is_due`
unfoldable pub sync_is_due : ℕ → ℕ → Option SyncRun → Bool
unfolding is_under_way stale_run_after
sync_is_due interval now none = true
sync_is_due interval now (some last) =
    if is_under_way last.status
    then leb (last.created_at + stale_run_after) now
    else leb (last.created_at + interval) now

-- The condition of `start_syncs`: no run is under way, or it is abandoned.
unfoldable pub is_free : ℕ → Option SyncRun → Bool
unfolding is_under_way stale_run_after
is_free now none = true
is_free now (some last) =
    not (is_under_way last.status) || leb (last.created_at + stale_run_after) now

unfoldable pub new_run : ℕ → Capability → World → SyncRun
unfolding no_cursor
new_run connection capability w = record {
  id = w.next_id;
  connection = connection;
  capability = capability;
  status = queued;
  cursor_before = no_cursor;
  cursor_after = no_cursor;
  records_received = 0;
  error = [];
  created_at = w.now;
  started_at = none;
  finished_at = none;
}

-- `queue_sync`
unfoldable pub queue_sync : ℕ → Capability → World → World
unfolding new_run
queue_sync connection capability w = record w {
  runs = new_run connection capability w ∷ w.runs;
  enqueued = w.enqueued ++ w.next_id ∷ [];
  next_id = w.next_id + 1;
}

-- Every capability, in the order of their values.
unfoldable pub in_order : List Capability
in_order =
    accounting ∷ ai_models ∷ automation ∷ calendar ∷ case_status ∷ esignature ∷ lead_capture
    ∷ legal_research ∷ mailbox ∷ marketing ∷ migration ∷ payments ∷ phone ∷ scheduling ∷ shipping
    ∷ sign_in ∷ storage ∷ system_email ∷ texting ∷ translation ∷ video ∷ []

-- The sorted intersection of two sets of capabilities.
unfoldable pub common : List Capability → List Capability → List Capability
unfolding in_order
common capabilities others = select (λ c. enabled c capabilities && enabled c others) in_order

-- The loop over a connection's capabilities: one sync for each whose last run passes a test, and how
-- many they are.
unfoldable pub queue_each : (Option SyncRun → Bool) → ℕ → List Capability → World × ℕ → World × ℕ
unfolding queue_sync last_run
queue_each test connection [] (w, count) = (w, count)
queue_each test connection (c ∷ cs) (w, count) =
    queue_each test connection cs (
      if test (last_run connection c w) then (queue_sync connection c w, count + 1) else (w, count))

-- One turn of the loop of `queue_due_syncs`.
unfoldable pub queue_due : Connection → World × ℕ → World × ℕ
unfolding queue_each sync_is_due common
queue_due connection (w, count) =
    if is_active connection.status
    then elim (connection.connector_class) [
      | none ↦ (w, count)
      | some cls ↦ elim (cls.sync_interval) [
        | none ↦ (w, count)
        | some interval ↦
            queue_each (sync_is_due interval w.now) connection.id
              (common connection.enabled_capabilities cls.sync_capabilities) (w, count)
      ]
    ]
    else (w, count)

unfoldable pub queue_all : List Connection → World × ℕ → World × ℕ
unfolding queue_due
queue_all [] found = found
queue_all (connection ∷ connections) found = queue_all connections (queue_due connection found)

-- `queue_due_syncs`, with how many were queued.
unfoldable pub queue_due_syncs : World → World × ℕ
unfolding queue_all
queue_due_syncs w = queue_all w.connections (w, 0)

-- `start_syncs`
unfoldable pub start_syncs : Connection → World → World × ℕ
unfolding queue_each is_free common
start_syncs connection w = elim (connection.connector_class) [
  | none ↦ (w, 0)
  | some cls ↦
      if is_active connection.status
      then queue_each (is_free w.now) connection.id
          (common connection.enabled_capabilities cls.sync_capabilities) (w, 0)
      else (w, 0)
]

-- `update_or_create` of a worker's heartbeat.
unfoldable pub beat : Text → ℕ → List (Text × ℕ) → List (Text × ℕ)
beat worker now [] = (worker, now) ∷ []
beat worker now ((name, seen) ∷ rest) =
    if text_eq name worker then (name, now) ∷ rest else (name, seen) ∷ beat worker now rest

-- What a receiver of `worker_ticked` does: it raises, or returns a number, or something else.
pub data Ticked : Type 0 where
  raised nothing : Ticked
  did : ℕ → Ticked

unfoldable pub add_ticked : List Ticked → ℕ → ℕ
add_ticked [] count = count
add_ticked (did n ∷ results) count = add_ticked results (count + n)
add_ticked (_ ∷ results) count = add_ticked results count

-- `tick`, with what the receivers do.
unfoldable pub tick : Text → List Ticked → World → World × ℕ
unfolding beat queue_due_syncs add_ticked
tick worker results w =
    let (after, count) =
      queue_due_syncs (record w { heartbeats = beat worker w.now w.heartbeats }) in
    (after, add_ticked results count)

-- `worker_is_running`, for a setting of WORKER_TICK_SECONDS.
unfoldable pub worker_is_running : ℕ → ℕ → World → Bool
worker_is_running tick_seconds now w =
    any (λ (h : Text × ℕ). leb now (h.1 + tick_seconds * 3)) w.heartbeats
