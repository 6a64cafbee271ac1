-- ===== src/Connect/Syncs/Saved.antt =====
-- Saving a run that a job has changed keeps what holds of the runs.
use mathlib.Core.Path.{subst}
use open_immigration_crm.Prelude.{
  ℕ, ◌≡◌, inl, inr, refl, List, [], ◌∷◌, some, Option-cases, true, ◌&&◌, ◌==◌, is_some, All, find,
  find_passes, Bool-cases, arith,
}
use open_immigration_crm.Connect.Records.{Connection, is_active}
use open_immigration_crm.Connect.Syncs.{SyncRun, World, is_under_way, is_of}
use open_immigration_crm.Connect.Syncs.Jobs.{
  Synced, batch, broke, save_run, begun, begin_sync, ended, end_sync, is_queued, is_running,
}

-- A run as a job saves it: still the same sync, and under way only if it was.
pub record Continues (old new : SyncRun) : Type 0 where
  pub id : new.id ≡ old.id
  pub connection : new.connection ≡ old.connection
  pub capability : new.capability ≡ old.capability
  pub created_at : new.created_at ≡ old.created_at
  pub under_way : is_under_way new.status ≡ true → is_under_way old.status ≡ true

pub begun-Continues :
    (connection : Connection) (w : World) (run : SyncRun)
    → is_queued run.status ≡ true
    → Continues run (begun connection w run)
unfolding begun is_under_way is_queued
begun-Continues connection w run q =
    elim (Bool-cases (is_some connection.connector_class && is_active connection.status)) [
      | inl e ↦ rw e (record {
        id = refl;
        connection = refl;
        capability = refl;
        created_at = refl;
        under_way = λ u. ground arith;
      })
      | inr e ↦ rw e (record {
        id = refl;
        connection = refl;
        capability = refl;
        created_at = refl;
        under_way = λ u. absurd (cc);
      })
    ]

pub ended-Continues :
    (answer : Synced) (now : ℕ) (run : SyncRun) → Continues run (ended answer now run)
unfolding ended is_under_way
ended-Continues (broke failure) now run = record {
  id = refl;
  connection = refl;
  capability = refl;
  created_at = refl;
  under_way = λ u. absurd (cc);
}
ended-Continues (batch records cursor warning) now run = record {
  id = refl;
  connection = refl;
  capability = refl;
  created_at = refl;
  under_way = λ u. absurd (cc);
}

pub is_of-Continues :
    (a : ℕ) {old new : SyncRun} → Continues old new → (c : _) → is_of a c new ≡ is_of a c old
unfolding is_of
is_of-Continues a h c = rw (h.connection, h.capability) refl

pub save_run-All :
    (P : SyncRun → Type 0) (old new : SyncRun) (rs : List SyncRun)
    → (P old → P new)
    → find (λ (r : SyncRun). r.id == new.id) rs ≡ some old
    → All P rs
    → All P (save_run new rs)
unfolding save_run
save_run-All P old new [] step found hs = tt
save_run-All P old new (x ∷ rs) step found hs = elim (Bool-cases (x.id == new.id)) [
  | inl e ↦ let same : x ≡ old = ground arith in rw e (step (subst P same hs.0), hs.1)
  | inr e ↦
      let later : find (λ (r : SyncRun). r.id == new.id) rs ≡ some old = rw e at found in
      rw e (hs.0, save_run-All P old new rs step later hs.1)
]

-- The row is found by its own key.
own_key :
    (id : ℕ) (old new : SyncRun) (rs : List SyncRun)
    → Continues old new
    → find (λ (r : SyncRun). r.id == id) rs ≡ some old
    → find (λ (r : SyncRun). r.id == new.id) rs ≡ some old
own_key id old new rs h found =
    let passes : (old.id == id) ≡ true = find_passes (λ (r : SyncRun). r.id == id) rs found in
    let same : id ≡ new.id = ground (arith, h.id) in
    subst (λ k. find (λ (r : SyncRun). r.id == k) rs ≡ some old) same found

-- What is kept by every change of a run that a job makes is kept by both halves of a job.
module _ (P : World → Type 0) where
  pub begin_sync-keeps :
      (id : ℕ) (w : World)
      → P w
      → ((old : SyncRun) (connection : Connection)
          → find (λ (r : SyncRun). r.id == (begun connection w old).id) w.runs ≡ some old
          → is_queued old.status ≡ true
          → P (record w { runs = save_run (begun connection w old) w.runs }))
      → P (begin_sync id w)
  unfolding begin_sync
  begin_sync-keeps id w h step = elim (Option-cases (find (λ (r : SyncRun). r.id == id) w.runs)) [
    | inl e ↦ rw (e, begin_sync) h
    | inr (run, e) ↦
        rw (e, begin_sync)
          (elim (Bool-cases (is_queued run.status)) [
            | inr q ↦ rw q h
            | inl q ↦
                rw q
                  (elim (Option-cases
                    (find (λ (c : Connection). c.id == run.connection) w.connections)) [
                      | inl f ↦ rw f h
                      | inr (connection, f) ↦ rw f (
                          step run connection
                            (own_key id run (begun connection w run) w.runs
                              (begun-Continues connection w run q) e)
                            q)
                    ])
          ])
  ]

  pub end_sync-keeps :
      (answer : Synced) (id : ℕ) (w : World)
      → P w
      → ((old : SyncRun) (connections : List Connection)
          → find (λ (r : SyncRun). r.id == (ended answer w.now old).id) w.runs ≡ some old
          → is_running old.status ≡ true
          → P (record w {
            runs = save_run (ended answer w.now old) w.runs;
            connections = connections;
          }))
      → P (end_sync answer id w)
  unfolding end_sync
  end_sync-keeps answer id w h step =
      elim (Option-cases (find (λ (r : SyncRun). r.id == id) w.runs)) [
        | inl e ↦ rw (e, end_sync) h
        | inr (run, e) ↦
            rw (e, end_sync)
              (elim (Bool-cases (is_running run.status)) [
                | inr q ↦ rw q h
                | inl q ↦ rw q (
                    step run _
                      (own_key id run (ended answer w.now run) w.runs
                        (ended-Continues answer w.now run) e)
                      q)
              ])
      ]
