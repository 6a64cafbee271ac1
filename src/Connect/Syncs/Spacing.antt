-- ===== src/Connect/Syncs/Spacing.antt =====
-- Two syncs of the same data are not under way at once, unless an hour lies between them.
use mathlib.Core.Path.{subst}
use open_immigration_crm.Prelude.{
  ℕ, ◌+◌, ◌≡◌, ◌≤◌, inl, inr, refl, sym, ◌∙◌, List, [], ◌∷◌, Option, none, some, Option-cases, Bool,
  true, ◌||◌, not, ◌==◌, leb, All, All-map, All-both, find, Bool-cases, arith,
}
use open_immigration_crm.Connect.Records.{Capability, Connection, capability_eq, is_active}
use open_immigration_crm.Connect.Syncs.{
  SyncRun, World, is_under_way, is_of, stale_run_after, last_run, sync_is_due, is_free, new_run,
  queue_sync, queue_each, queue_due, queue_all, queue_due_syncs, start_syncs, common, tick, beat,
}
use open_immigration_crm.Connect.Syncs.Jobs.{save_run, begun, ended}
use open_immigration_crm.Connect.Syncs.Saved.{
  Continues, is_of-Continues, begun-Continues, ended-Continues, save_run-All, begin_sync-keeps,
  end_sync-keeps,
}
use open_immigration_crm.Connect.Syncs.History.{Step, take_step, take_steps}

-- A run and an older one: of the same connection and capability, the older one is over or an hour
-- older.
abbrev pub IsBehind : SyncRun → SyncRun → Type 0
IsBehind r s =
    (s.created_at ≤ r.created_at)
    × (is_of r.connection r.capability s ≡ true
        → is_under_way s.status ≡ true
        → s.created_at + stale_run_after ≤ r.created_at)

abbrev pub AreSpaced : List SyncRun → Type 0
AreSpaced [] = Unit
AreSpaced (r ∷ rs) = All (IsBehind r) rs × AreSpaced rs

pub record IsSpaced (w : World) : Type 0 where
  pub past : All (λ r. r.created_at ≤ w.now) w.runs
  pub spaced : AreSpaced w.runs

is_of_trans :
    (a : ℕ) (c : Capability) (x y : SyncRun)
    → is_of a c x ≡ true
    → is_of a c y ≡ true
    → is_of x.connection x.capability y ≡ true
unfolding is_of capability_eq
is_of_trans a c x y h k = ground arith

-- Where the last run is over or an hour old, no run under way is younger than an hour.
clear :
    (now a : ℕ) (c : Capability) (rs : List SyncRun)
    → All (λ r. r.created_at ≤ now) rs
    → AreSpaced rs
    → is_free now (find (is_of a c) rs) ≡ true
    → All
        (λ s.
          is_of a c s ≡ true → is_under_way s.status ≡ true → s.created_at + stale_run_after ≤ now)
        rs
unfolding is_free stale_run_after
clear now a c [] past spaced free = tt
clear now a c (x ∷ rs) past spaced free = elim (Bool-cases (is_of a c x)) [
  | inl e ↦
      let own : (not (is_under_way x.status) || leb (x.created_at + 3600) now) ≡ true =
        rw e at free in
      (
        λ h u. ground arith,
        All-map rs
            (λ s behind h u.
              (let later = behind.1 (is_of_trans a c x s e h) u in omega (later, past.0, arith)))
            spaced.0,
      )
  | inr e ↦
      let other : is_free now (find (is_of a c) rs) ≡ true = rw e at free in
      (λ h u. absurd (cc), clear now a c rs past.1 spaced.1 other)
]

queue_sync-IsSpaced :
    (a : ℕ) (c : Capability) (w : World)
    → IsSpaced w
    → is_free w.now (last_run a c w) ≡ true
    → IsSpaced (queue_sync a c w)
unfolding queue_sync new_run last_run
queue_sync-IsSpaced a c w h free = record {
  past = (omega arith, h.past);
  spaced = (All-both _ _ w.runs h.past (clear w.now a c w.runs h.past h.spaced free), h.spaced);
}

queue_sync-now : (a : ℕ) (c : Capability) (w : World) → (queue_sync a c w).now ≡ w.now
unfolding queue_sync
queue_sync-now a c w = refl

-- The worlds of one moment.
record IsSpacedAt (now : ℕ) (w : World) : Type 0 where
  same : w.now ≡ now
  kept : IsSpaced w

module _ (now : ℕ) (test : Option SyncRun → Bool)
    (frees : (o : Option SyncRun) → test o ≡ true → is_free now o ≡ true) where
  queue_each-IsSpaced :
      (a : ℕ) (cs : List Capability) (found : World × ℕ)
      → IsSpacedAt now found.0
      → IsSpacedAt now (queue_each test a cs found).0
  unfolding queue_each
  queue_each-IsSpaced a [] (w, n) h = h
  queue_each-IsSpaced a (c ∷ cs) (w, n) h = elim (Bool-cases (test (last_run a c w))) [
    | inl e ↦
        let free : is_free w.now (last_run a c w) ≡ true = rw h.same (frees (last_run a c w) e) in
        rw (e, queue_each)
          (queue_each-IsSpaced a cs (queue_sync a c w, n + 1)
            record {
              same = queue_sync-now a c w ∙ h.same;
              kept = queue_sync-IsSpaced a c w h.kept free;
            })
    | inr e ↦ rw (e, queue_each) (queue_each-IsSpaced a cs (w, n) h)
  ]

sync_is_due-is_free :
    (interval now : ℕ) (o : Option SyncRun)
    → sync_is_due interval now o ≡ true
    → is_free now o ≡ true
unfolding sync_is_due is_free
sync_is_due-is_free interval now none h = refl
sync_is_due-is_free interval now (some r) h = elim (Bool-cases (is_under_way r.status)) [
  | inl e ↦ rw e (rw e at h)
  | inr e ↦ rw e refl
]

queue_due-IsSpaced :
    (now : ℕ) (connection : Connection) (found : World × ℕ)
    → IsSpacedAt now found.0
    → IsSpacedAt now (queue_due connection found).0
unfolding queue_due
queue_due-IsSpaced now connection (w, n) h = elim (Bool-cases (is_active connection.status)) [
  | inr e ↦ rw e h
  | inl e ↦ rw e (elim (Option-cases (connection.connector_class)) [
    | inl f ↦ rw f h
    | inr (cls, f) ↦ rw f (elim (Option-cases (cls.sync_interval)) [
      | inl g ↦ rw g h
      | inr (interval, g) ↦ rw g (
          queue_each-IsSpaced now (sync_is_due interval w.now)
            (λ o due. rw (sym h.same) (sync_is_due-is_free interval w.now o due)) connection.id
            (common connection.enabled_capabilities cls.sync_capabilities) (w, n) h)
    ])
  ])
]

queue_all-IsSpaced :
    (now : ℕ) (connections : List Connection) (found : World × ℕ)
    → IsSpacedAt now found.0
    → IsSpacedAt now (queue_all connections found).0
unfolding queue_all
queue_all-IsSpaced now [] found h = h
queue_all-IsSpaced now (c ∷ cs) found h =
    queue_all-IsSpaced now cs (queue_due c found) (queue_due-IsSpaced now c found h)

start_syncs-IsSpaced :
    (connection : Connection) (w : World) → IsSpaced w → IsSpaced (start_syncs connection w).0
unfolding start_syncs
start_syncs-IsSpaced connection w h = elim (Option-cases (connection.connector_class)) [
  | inl f ↦ rw f h
  | inr (cls, f) ↦ rw f (elim (Bool-cases (is_active connection.status)) [
    | inr e ↦ rw e h
    | inl e ↦
        rw e
          (queue_each-IsSpaced w.now (is_free w.now) (λ o free. free) connection.id
            (common connection.enabled_capabilities cls.sync_capabilities) (w, 0)
            (record { same = refl; kept = h })).kept
  ])
]

save_run-AreSpaced :
    (old new : SyncRun) (rs : List SyncRun)
    → Continues old new
    → find (λ (r : SyncRun). r.id == new.id) rs ≡ some old
    → AreSpaced rs
    → AreSpaced (save_run new rs)
unfolding save_run
save_run-AreSpaced old new [] h found spaced = tt
save_run-AreSpaced old new (x ∷ rs) h found spaced = elim (Bool-cases (x.id == new.id)) [
  | inl e ↦
      let same : x ≡ old = ground arith in
      let behind : All (IsBehind old) rs = subst (λ r. All (IsBehind r) rs) same spaced.0 in
      rw e (
        All-map rs
            (λ s b. (
              omega (b.0, h.created_at, arith),
              λ k u.
                  (let older = b.1 (rw (sym h.connection, sym h.capability) k) u in
                    omega (older, h.created_at, arith)),
            ))
            behind,
        spaced.1,
      )
  | inr e ↦
      let later : find (λ (r : SyncRun). r.id == new.id) rs ≡ some old = rw e at found in
      rw e (
        save_run-All (IsBehind x) old new rs
            (λ b. (
              omega (b.0, h.created_at, arith),
              λ k u.
                  (let older =
                      b.1 (sym (is_of-Continues x.connection h x.capability) ∙ k) (h.under_way u) in
                    omega (older, h.created_at, arith)),
            ))
            later spaced.0,
        save_run-AreSpaced old new rs h later spaced.1,
      )
]

save_run-IsSpaced :
    (old new : SyncRun) (w : World) (connections : List Connection)
    → Continues old new
    → find (λ (r : SyncRun). r.id == new.id) w.runs ≡ some old
    → IsSpaced w
    → IsSpaced (record w { runs = save_run new w.runs; connections = connections })
save_run-IsSpaced old new w connections h found spaced = record {
  past =
      save_run-All (λ r. r.created_at ≤ w.now) old new w.runs (λ b. omega (b, h.created_at, arith))
        found spaced.past;
  spaced = save_run-AreSpaced old new w.runs h found spaced.spaced;
}

take_step-IsSpaced : (step : Step) (w : World) → IsSpaced w → IsSpaced (take_step step w)
unfolding take_step tick queue_due_syncs
take_step-IsSpaced (Step.pass seconds) w h = record {
  past = All-map w.runs (λ r b. omega (b, arith)) h.past;
  spaced = h.spaced;
}
take_step-IsSpaced (Step.work worker results) w h =
    (queue_all-IsSpaced w.now w.connections
      (record w { heartbeats = beat worker w.now w.heartbeats }, 0)
      (record { same = refl; kept = record { past = h.past; spaced = h.spaced } })).kept
take_step-IsSpaced (Step.start connection) w h = start_syncs-IsSpaced connection w h
take_step-IsSpaced (Step.begin id) w h = begin_sync-keeps IsSpaced id w h (λ old connection found q.
    save_run-IsSpaced old (begun connection w old) w w.connections
      (begun-Continues connection w old q) found h)
take_step-IsSpaced (Step.end id answer) w h =
    end_sync-keeps IsSpaced answer id w h (λ old connections found q.
      save_run-IsSpaced old (ended answer w.now old) w connections
        (ended-Continues answer w.now old) found h)

-- Where it holds at first, it holds however ticks, starts by staff and jobs follow each other: no run
-- is of a later time than now, and two runs of one connection and capability are created an hour apart
-- or more, or the older one is over.
pub take_steps-IsSpaced :
    (steps : List Step) (w : World) → IsSpaced w → IsSpaced (take_steps steps w)
unfolding take_steps
take_steps-IsSpaced [] w h = h
take_steps-IsSpaced (step ∷ steps) w h =
    take_steps-IsSpaced steps (take_step step w) (take_step-IsSpaced step w h)
