-- ===== src/Connect/Syncs/Repeated.antt =====
-- Queueing the syncs that are due leaves none due.
use mathlib.Core.Path.{subst}
use open_immigration_crm.Prelude.{
  ℕ, ◌+◌, ◌≡◌, ◌⊎◌, inl, inr, refl, sym, ap, ◌∙◌, List, [], ◌∷◌, Option, Option-cases, Bool, true,
  false, All, All-map, if◌then◌else◌, Bool-cases, arith,
}
use open_immigration_crm.Connect.Records.{Capability, Connection, capability_eq, is_active}
use open_immigration_crm.Connect.Syncs.{
  SyncRun, World, is_under_way, is_of, stale_run_after, last_run, sync_is_due, new_run, queue_sync,
  queue_each, queue_due, queue_all, queue_due_syncs, common,
}

-- What every new run keeps, the loops keep.
module _ (P : World → Type 0)
    (step : (a : ℕ) (c : Capability) (w : World) → P w → P (queue_sync a c w)) where
  queue_each-keeps :
      (test : Option SyncRun → Bool) (a : ℕ) (cs : List Capability) (found : World × ℕ)
      → P found.0
      → P (queue_each test a cs found).0
  unfolding queue_each
  queue_each-keeps test a [] (w, n) h = h
  queue_each-keeps test a (c ∷ cs) (w, n) h = elim (Bool-cases (test (last_run a c w))) [
    | inl e ↦
        rw (e, queue_each) (queue_each-keeps test a cs (queue_sync a c w, n + 1) (step a c w h))
    | inr e ↦ rw (e, queue_each) (queue_each-keeps test a cs (w, n) h)
  ]

  queue_due-keeps :
      (connection : Connection) (found : World × ℕ) → P found.0 → P (queue_due connection found).0
  unfolding queue_due
  queue_due-keeps connection (w, n) h = elim (Bool-cases (is_active connection.status)) [
    | inr e ↦ rw e h
    | inl e ↦ rw e (elim (Option-cases (connection.connector_class)) [
      | inl f ↦ rw f h
      | inr (cls, f) ↦ rw f (elim (Option-cases (cls.sync_interval)) [
        | inl g ↦ rw g h
        | inr (interval, g) ↦ rw g (
            queue_each-keeps (sync_is_due interval w.now) connection.id
              (common connection.enabled_capabilities cls.sync_capabilities) (w, n) h)
      ])
    ])
  ]

  queue_all-keeps :
      (connections : List Connection) (found : World × ℕ)
      → P found.0
      → P (queue_all connections found).0
  unfolding queue_all
  queue_all-keeps [] found h = h
  queue_all-keeps (c ∷ cs) found h =
      queue_all-keeps cs (queue_due c found) (queue_due-keeps c found h)

one_turn :
    (test : Option SyncRun → Bool) (a : ℕ) (c : Capability) (cs : List Capability)
    (found : World × ℕ) (b : Bool)
    → test (last_run a c found.0) ≡ b
    → queue_each test a (c ∷ cs) found
      ≡ queue_each test a cs (if b then (queue_sync a c found.0, found.1 + 1) else found)
unfolding queue_each
one_turn test a c cs (w, n) b e = rw (e, queue_each) refl

queue_sync-same : (a : ℕ) (c : Capability) (w : World) → (queue_sync a c w).now ≡ w.now
unfolding queue_sync
queue_sync-same a c w = refl

queue_sync-connections :
    (a : ℕ) (c : Capability) (w : World) → (queue_sync a c w).connections ≡ w.connections
unfolding queue_sync
queue_sync-connections a c w = refl

IsUnscheduled : Connection → Type 0
IsUnscheduled connection = (found : World × ℕ) → queue_due connection found ≡ found

-- The connection's turn queues what is due of some capabilities.
IsScheduled : Connection → ℕ → List Capability → Type 0
IsScheduled connection interval cs =
    (w : World) (n : ℕ)
    → queue_due connection (w, n) ≡ queue_each (sync_is_due interval w.now) connection.id cs (w, n)

schedule_cases :
    (connection : Connection)
    → IsUnscheduled connection
      ⊎ ((interval : ℕ) × ((cs : List Capability) × IsScheduled connection interval cs))
unfolding IsUnscheduled IsScheduled queue_due
schedule_cases connection = elim (Bool-cases (is_active connection.status)) [
  | inr e ↦ inl (λ found. rw (e, queue_due) refl)
  | inl e ↦ elim (Option-cases (connection.connector_class)) [
    | inl f ↦ inl (λ found. rw (e, f, queue_due) refl)
    | inr (cls, f) ↦ elim (Option-cases (cls.sync_interval)) [
      | inl g ↦ inl (λ found. rw (e, f, g, queue_due) refl)
      | inr (interval, g) ↦ inr (
        interval,
        (
          common connection.enabled_capabilities cls.sync_capabilities,
          λ w n. rw (e, f, g, queue_due) refl,
        ),
      )
    ]
  ]
]

module _ (now : ℕ) where
  -- The last run of this connection and capability is too young for another.
  IsDone : ℕ → ℕ → Capability → World → Type 0
  IsDone interval a c w = (w.now ≡ now) × (sync_is_due interval now (last_run a c w) ≡ false)

  queue_sync-IsDone :
      (interval a : ℕ) (c : Capability) (w : World)
      → w.now ≡ now
      → IsDone interval a c (queue_sync a c w)
  unfolding IsDone queue_sync new_run last_run is_of capability_eq sync_is_due is_under_way
      stale_run_after
  queue_sync-IsDone interval a c w h = (h, ground (arith, h))

  queue_sync-keeps :
      (interval a : ℕ) (c : Capability) (b : ℕ) (d : Capability) (w : World)
      → IsDone interval a c w
      → IsDone interval a c (queue_sync b d w)
  unfolding IsDone queue_sync new_run last_run sync_is_due is_under_way stale_run_after
  queue_sync-keeps interval a c b d w h = elim (Bool-cases (is_of a c (new_run b d w))) [
    | inl e ↦ (h.0, rw e (ground (arith, h.0)))
    | inr e ↦ (h.0, rw e h.1)
  ]

  -- What is due has been queued.
  queue_each-IsDone :
      (interval a : ℕ) (cs : List Capability) (found : World × ℕ)
      → found.0.now ≡ now
      → All (λ c. IsDone interval a c (queue_each (sync_is_due interval now) a cs found).0) cs
  unfolding queue_each IsDone
  queue_each-IsDone interval a [] (w, n) h = tt
  queue_each-IsDone interval a (c ∷ cs) (w, n) h =
      let test = sync_is_due interval now in
      let Dones = λ (found : World × ℕ). All (λ d. IsDone interval a d found.0) (c ∷ cs) in
      elim (Bool-cases (test (last_run a c w))) [
        | inl e ↦
            let done = queue_sync-IsDone interval a c w h in
            subst Dones (sym (one_turn test a c cs (w, n) true e)) (
              queue_each-keeps (IsDone interval a c) (queue_sync-keeps interval a c) test a cs
                  (queue_sync a c w, n + 1) done,
              queue_each-IsDone interval a cs (queue_sync a c w, n + 1) done.0,
            )
        | inr e ↦ subst Dones (sym (one_turn test a c cs (w, n) false e)) (
          queue_each-keeps (IsDone interval a c) (queue_sync-keeps interval a c) test a cs (w, n)
              (h, e),
          queue_each-IsDone interval a cs (w, n) h,
        )
      ]

  queue_each_done :
      (interval a n : ℕ) (w : World) (cs : List Capability)
      → All (λ c. IsDone interval a c w) cs
      → queue_each (sync_is_due interval now) a cs (w, n) ≡ (w, n)
  unfolding queue_each IsDone
  queue_each_done interval a n w [] hs = refl
  queue_each_done interval a n w (c ∷ cs) hs =
      rw (hs.0.1, queue_each) (queue_each_done interval a n w cs hs.1)

  -- No sync of this connection is due.
  IsSettled : Connection → World → Type 0
  IsSettled connection w =
      (w.now ≡ now)
      × (IsUnscheduled connection
          ⊎ ((interval : ℕ) × ((cs : List Capability) × (IsScheduled connection interval cs
                  × All (λ c. IsDone interval connection.id c w) cs))))

  queue_sync-IsSettled :
      (connection : Connection) (b : ℕ) (d : Capability) (w : World)
      → IsSettled connection w
      → IsSettled connection (queue_sync b d w)
  unfolding IsSettled queue_sync
  queue_sync-IsSettled connection b d w (same, inl never) = (same, inl never)
  queue_sync-IsSettled connection b d w (same, inr (interval, (cs, (turn, done)))) = (
    same,
    inr (
      interval,
      (cs, (turn, All-map cs (λ c h. queue_sync-keeps interval connection.id c b d w h) done)),
    ),
  )

  queue_due-IsSettled :
      (connection : Connection) (found : World × ℕ)
      → found.0.now ≡ now
      → IsSettled connection (queue_due connection found).0
  unfolding IsSettled IsScheduled
  queue_due-IsSettled connection (w, n) h = (
    queue_due-keeps (λ v. v.now ≡ now) (λ a c v same. queue_sync-same a c v ∙ same) connection
        (w, n) h,
    elim (schedule_cases connection) [
      | inl never ↦ inl never
      | inr (interval, (cs, turn)) ↦ inr (
        interval,
        (
          cs,
          (
            turn,
            subst (λ (v : World × ℕ). All (λ c. IsDone interval connection.id c v.0) cs)
                (sym (
                  turn w n
                  ∙ ap (λ m. queue_each (sync_is_due interval m) connection.id cs (w, n)) h))
                (queue_each-IsDone interval connection.id cs (w, n) h),
          ),
        ),
      )
    ],
  )

  queue_due_settled :
      (connection : Connection) (w : World) (n : ℕ)
      → IsSettled connection w
      → queue_due connection (w, n) ≡ (w, n)
  unfolding IsSettled IsScheduled IsUnscheduled
  queue_due_settled connection w n (same, inl never) = never (w, n)
  queue_due_settled connection w n (same, inr (interval, (cs, (turn, done)))) =
      turn w n
      ∙ ap (λ m. queue_each (sync_is_due interval m) connection.id cs (w, n)) same
      ∙ queue_each_done interval connection.id n w cs done

  queue_all-IsSettled :
      (connections : List Connection) (found : World × ℕ)
      → found.0.now ≡ now
      → All (λ c. IsSettled c (queue_all connections found).0) connections
  unfolding queue_all IsSettled
  queue_all-IsSettled [] found h = tt
  queue_all-IsSettled (c ∷ cs) found h =
      let settled = queue_due-IsSettled c found h in
      (
        queue_all-keeps (IsSettled c) (queue_sync-IsSettled c) cs (queue_due c found) settled,
        queue_all-IsSettled cs (queue_due c found) settled.0,
      )

  queue_all_settled :
      (connections : List Connection) (w : World) (n : ℕ)
      → All (λ c. IsSettled c w) connections
      → queue_all connections (w, n) ≡ (w, n)
  unfolding queue_all IsSettled
  queue_all_settled [] w n hs = refl
  queue_all_settled (c ∷ cs) w n hs =
      ap (queue_all cs) (queue_due_settled c w n hs.0) ∙ queue_all_settled cs w n hs.1

-- Where the syncs that are due have just been queued, none is due: queueing them at the same moment
-- again changes nothing and counts none.
pub queue_due_syncs_twice :
    (w : World) → queue_due_syncs (queue_due_syncs w).0 ≡ ((queue_due_syncs w).0, 0)
unfolding queue_due_syncs
queue_due_syncs_twice w =
    let after = (queue_all w.connections (w, 0)).0 in
    let same : after.connections ≡ w.connections =
      queue_all-keeps (λ v. v.connections ≡ w.connections)
        (λ a c v h. queue_sync-connections a c v ∙ h) w.connections (w, 0) refl in
    ap (λ cs. queue_all cs (after, 0)) same
    ∙ queue_all_settled w.now w.connections after 0
        (queue_all-IsSettled w.now w.connections (w, 0) refl)
