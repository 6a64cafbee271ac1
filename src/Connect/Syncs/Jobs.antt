-- ===== src/Connect/Syncs/Jobs.antt =====
-- The job that runs a sync: `run_sync` and `safe_error` of crm/connect/tasks.py.
use open_immigration_crm.Prelude.{
  ℕ, List, [], ◌∷◌, ◌++◌, Option, none, some, Bool, true, false, ◌&&◌, ◌==◌, ltb, find, select, map,
  Text, is_empty, is_some, take, codes, if◌then◌else◌,
}
use open_immigration_crm.Connect.Records.{Capability, Connection, is_active, mark_connection}
use open_immigration_crm.Connect.Syncs.{
  RunStatus, queued, running, succeeded, failed, skipped, Cursor, no_cursor, SyncRun, World, is_of,
}

-- An exception: a `ConnectorError` with its text, or another by its class.
pub data Failure : Type 0 where
  connector_error unexpected : Text → Failure

unfoldable pub safe_error : Failure → Text
safe_error (connector_error text) = take 500 text
safe_error (unexpected name) = codes "Unexpected " ++ name

-- `SyncBatch`, with the number of its records; and what `sync` and the receivers of the records do.
pub data Synced : Type 0 where
  batch : (records : ℕ) (cursor : Cursor) (warning : Text) → Synced
  broke : Failure → Synced

-- `save` of a run.
unfoldable pub save_run : SyncRun → List SyncRun → List SyncRun
save_run run [] = []
save_run run (r ∷ rs) = if r.id == run.id then run ∷ rs else r ∷ save_run run rs

unfoldable pub is_succeeded : RunStatus → Bool
is_succeeded succeeded = true
is_succeeded _ = false

unfoldable pub finish_time : SyncRun → ℕ
finish_time run = elim (run.finished_at) [ none ↦ 0 | some time ↦ time ]

-- The run that finished last.
unfoldable pub latest : List SyncRun → Option SyncRun
unfolding finish_time
latest [] = none
latest (r ∷ rs) = elim (latest rs) [
  | none ↦ some r
  | some s ↦ if ltb (finish_time r) (finish_time s) then some s else some r
]

-- `previous` of `run_sync`: of the runs of this capability that succeeded, the one that finished last.
unfoldable pub previous_run : ℕ → Capability → List SyncRun → Option SyncRun
unfolding is_of is_succeeded latest
previous_run connection capability runs =
    latest (select (λ (r : SyncRun). is_of connection capability r && is_succeeded r.status) runs)

unfoldable pub cursor_from : Option SyncRun → Cursor
unfolding no_cursor
cursor_from none = no_cursor
cursor_from (some run) = run.cursor_after

unfoldable pub is_queued : RunStatus → Bool
is_queued queued = true
is_queued _ = false

unfoldable pub is_running : RunStatus → Bool
is_running running = true
is_running _ = false

-- The run as `run_sync` saves it before it calls the connector, or when it skips the run.
unfoldable pub begun : Connection → World → SyncRun → SyncRun
unfolding previous_run cursor_from
begun connection w run =
    if is_some connection.connector_class && is_active connection.status
    then record run {
      status = running;
      cursor_before = cursor_from (previous_run connection.id run.capability w.runs);
      started_at = some w.now;
    }
    else record run { status = skipped; finished_at = some w.now }

-- The first half of `run_sync`, until the connector is called.
unfoldable pub begin_sync : ℕ → World → World
unfolding begun save_run is_queued
begin_sync id w = elim (find (λ (r : SyncRun). r.id == id) w.runs) [
  | none ↦ w
  | some run ↦
      if is_queued run.status
      then elim (find (λ (c : Connection). c.id == run.connection) w.connections) [
        | none ↦ w
        | some connection ↦ record w { runs = save_run (begun connection w run) w.runs }
      ]
      else w
]

unfoldable pub ended : Synced → ℕ → SyncRun → SyncRun
unfolding safe_error
ended (broke failure) now run = record run {
  status = failed;
  error = safe_error failure;
  finished_at = some now;
}
ended (batch records cursor warning) now run = record run {
  status = succeeded;
  cursor_after = cursor;
  records_received = records;
  error = if is_empty warning then run.error else take 500 warning;
  finished_at = some now;
}

unfoldable pub marked : Synced → ℕ → Connection → Connection
unfolding safe_error mark_connection
marked (broke failure) now connection = mark_connection connection now (safe_error failure)
marked (batch records cursor warning) now connection =
    if is_empty warning
    then mark_connection connection now []
    else mark_connection (mark_connection connection now []) now (take 500 warning)

-- The second half of `run_sync`, from the connector's answer on, for a run that was begun.
unfoldable pub end_sync : Synced → ℕ → World → World
unfolding ended marked save_run is_running
end_sync answer id w = elim (find (λ (r : SyncRun). r.id == id) w.runs) [
  | none ↦ w
  | some run ↦
      if is_running run.status
      then record w {
        runs = save_run (ended answer w.now run) w.runs;
        connections =
            map (λ (c : Connection). if c.id == run.connection then marked answer w.now c else c)
              w.connections;
      }
      else w
]
