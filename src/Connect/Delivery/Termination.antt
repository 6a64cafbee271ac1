-- ===== src/Connect/Delivery/Termination.antt =====
-- The runs of a delivery's job in crm/events/tasks.py, as often as attempts are left of seven.
use open_immigration_crm.Prelude.{
  ℕ, suc, ◌+◌, ◌-◌, ◌≡◌, ◌≤◌, ◌⊎◌, refl, ap, ◌∙◌, List, [], ◌∷◌, Option, none, some, Option-cases,
  Bool, true, false, not, Bool-cases, ◌==◌, ==_refl, find, length, is_some, arith, inl, inr,
  find_passes, ==_iff,
}
use open_immigration_crm.Connect.Records.{Connection, mark_connection, capability_of}
use open_immigration_crm.Connect.Policy.{OutboundRequest, Site, Performed, send, looked_up}
use open_immigration_crm.Connect.Delivery.{
  EventDelivery, is_settled, max_attempts, judge, retry, settle, mark, deliver_action, Worker,
  save_connection, save_delivery, attempt, deliver_event, call_of, enqueued, get_elem?,
  retry_delays,
}
use open_immigration_crm.Connect.Delivery.Settled.{IsConsistent, IsFine, judge-IsFine, judge-total}

-- The connector, if it is installed, has the action that deliveries use; else `send` raises.
unfoldable pub can_deliver : Connection → Bool
can_deliver connection = elim (connection.connector_class) [
  | none ↦ true
  | some cls ↦ is_some (capability_of deliver_action cls.outbound_actions)
]

-- The job of a delivery run once for each answer; `none` if one of the runs raises.
unfoldable pub run_jobs : ℕ → List (Performed × (ℕ × ℕ)) → Worker → Option Worker
run_jobs id [] worker = some worker
run_jobs id ((answer, (now, saved_at)) ∷ calls) worker =
    elim (deliver_event answer now saved_at id worker) [
      | none ↦ none
      | some after ↦ run_jobs id calls after
    ]

send-total :
    (answer : Performed) (site : Site) (connection : Connection) (now saved_at : ℕ)
    → can_deliver connection ≡ true
    → is_some (send answer site (call_of connection now saved_at)) ≡ true
unfolding can_deliver send looked_up call_of
send-total answer site connection now saved_at able = ground arith

mark-can_deliver :
    (connection : Connection) (outbound : OutboundRequest) (now : ℕ)
    → can_deliver (mark connection outbound now) ≡ can_deliver connection
unfolding can_deliver mark mark_connection
mark-can_deliver connection outbound now = ground arith

save_connection-can_deliver :
    (connections : ℕ → Connection) (id : ℕ) (outbound : OutboundRequest) (now : ℕ)
    → can_deliver (save_connection (mark (connections id) outbound now) connections id)
      ≡ can_deliver (connections id)
unfolding save_connection
save_connection-can_deliver connections id outbound now =
    elim (Bool-cases (id == (mark (connections id) outbound now).id)) [
      | inl e ↦ rw e (mark-can_deliver (connections id) outbound now)
      | inr e ↦ rw e refl
    ]

find-save_delivery :
    (id : ℕ) (after : EventDelivery) (ds : List EventDelivery) {d : EventDelivery}
    → after.id ≡ id
    → find (λ (x : EventDelivery). x.id == id) ds ≡ some d
    → find (λ (x : EventDelivery). x.id == id) (save_delivery after ds) ≡ some after
unfolding save_delivery
find-save_delivery id after [] same e = absurd (cc)
find-save_delivery id after (x ∷ ds) same e = elim (Bool-cases (x.id == id)) [
  | inl f ↦ rw (ap (λ k. x.id == k) same ∙ f, ap (λ k. k == id) same ∙ ==_refl id) refl
  | inr f ↦ rw (ap (λ k. x.id == k) same ∙ f, f) (find-save_delivery id after ds same (rw f at e))
]

-- The judgement keeps the row and its count.
judge-keeps :
    (delivery after : EventDelivery) (outbound : OutboundRequest) (now : ℕ)
    → judge delivery outbound now ≡ some after
    → (after.id ≡ delivery.id)
      × ((after.attempts ≡ delivery.attempts) × (after.connection ≡ delivery.connection))
unfolding judge settle retry
judge-keeps delivery after outbound now e =
    elim (Option-cases (get_elem? retry_delays (delivery.attempts - 1))) [
      | inl f ↦ (ground arith, (ground arith, ground arith))
      | inr (delay, f) ↦ (ground arith, (ground arith, ground arith))
    ]

-- What one run of a job leaves of its delivery.
record IsRun (id connection : ℕ) (attempts : ℕ) (result : Option Worker) : Type 0 where
  after : Worker
  delivery : EventDelivery
  done : result ≡ some after
  found : find (λ (x : EventDelivery). x.id == id) after.deliveries ≡ some delivery
  consistent : IsConsistent delivery
  able : can_deliver (after.connections connection) ≡ true
  owned : delivery.connection ≡ connection
  counted : (is_settled delivery.status ≡ true) ⊎ (delivery.attempts ≡ suc attempts)

attempt-IsRun :
    (answer : Performed) (now saved_at id : ℕ) (delivery : EventDelivery) (worker : Worker)
    → IsConsistent delivery
    → is_settled delivery.status ≡ false
    → delivery.id ≡ id
    → find (λ (x : EventDelivery). x.id == id) worker.deliveries ≡ some delivery
    → can_deliver (worker.connections delivery.connection) ≡ true
    → IsRun id delivery.connection delivery.attempts (attempt answer now saved_at delivery worker)
unfolding attempt send call_of
attempt-IsRun answer now saved_at id delivery worker h waiting named here able =
    let connection = worker.connections delivery.connection in
    let counted : EventDelivery = record delivery { attempts = suc delivery.attempts } in
    elim (Option-cases (send answer worker.site (call_of connection now saved_at))) [
      | inl e ↦ absurd (cc (send-total answer worker.site connection now saved_at able))
      | inr ((outbound, site), e) ↦ elim (Option-cases (judge counted outbound saved_at)) [
        | inl f ↦ absurd (cc (judge-total counted outbound saved_at (omega (arith))))
        | inr (after, f) ↦
            let keeps = judge-keeps counted after outbound saved_at f in
            let fine : IsFine (judge counted outbound saved_at) =
              judge-IsFine counted outbound saved_at (omega (h.has_attempts waiting, arith))
                (h.payload_kept ∙ ap not waiting) (h.finished ∙ waiting) in
            record {
              after = record {
                site = site;
                connections =
                    save_connection (mark connection outbound saved_at) worker.connections;
                deliveries = save_delivery after worker.deliveries;
                jobs = enqueued after worker.jobs;
              };
              delivery = after;
              done = rw (e, f) refl;
              found = find-save_delivery id after worker.deliveries (keeps.0 ∙ named) here;
              consistent = rw f at fine;
              able =
                  save_connection-can_deliver worker.connections delivery.connection outbound
                    saved_at
                  ∙ able;
              owned = keeps.1.1;
              counted = inr keeps.1.0;
            }
      ]
    ]

deliver_event-settled :
    (answer : Performed) (now saved_at id : ℕ) (worker : Worker) (delivery : EventDelivery)
    → find (λ (x : EventDelivery). x.id == id) worker.deliveries ≡ some delivery
    → is_settled delivery.status ≡ true
    → deliver_event answer now saved_at id worker ≡ some worker
unfolding deliver_event
deliver_event-settled answer now saved_at id worker delivery here settled =
    rw (here, settled, deliver_event) refl

run_jobs-settled :
    (id : ℕ) (calls : List (Performed × (ℕ × ℕ))) (worker : Worker) (delivery : EventDelivery)
    → find (λ (x : EventDelivery). x.id == id) worker.deliveries ≡ some delivery
    → is_settled delivery.status ≡ true
    → run_jobs id calls worker ≡ some worker
unfolding run_jobs deliver_event
run_jobs-settled id [] worker delivery here settled = refl
run_jobs-settled id ((answer, (now, saved_at)) ∷ calls) worker delivery here settled =
    rw (deliver_event-settled answer now saved_at id worker delivery here settled, run_jobs)
      (run_jobs-settled id calls worker delivery here settled)

deliver_event-waiting :
    (answer : Performed) (now saved_at id : ℕ) (worker : Worker) (delivery : EventDelivery)
    → find (λ (x : EventDelivery). x.id == id) worker.deliveries ≡ some delivery
    → is_settled delivery.status ≡ false
    → deliver_event answer now saved_at id worker ≡ attempt answer now saved_at delivery worker
unfolding deliver_event
deliver_event-waiting answer now saved_at id worker delivery here waiting =
    rw (here, waiting, deliver_event) refl

-- Seven attempts are enough: for a consistent delivery whose connector, if installed, has the
-- delivery action, when its job is run as often as attempts are left of seven, and whatever the
-- connector answers, no run raises and the delivery is settled at the end.
pub run_jobs-is_settled :
    (id : ℕ) (calls : List (Performed × (ℕ × ℕ))) (worker : Worker) (delivery : EventDelivery)
    → find (λ (x : EventDelivery). x.id == id) worker.deliveries ≡ some delivery
    → IsConsistent delivery
    → can_deliver (worker.connections delivery.connection) ≡ true
    → max_attempts ≤ delivery.attempts + length calls
    → (after : Worker) × ((settled : EventDelivery) × ((run_jobs id calls worker ≡ some after)
          × ((find (λ (x : EventDelivery). x.id == id) after.deliveries ≡ some settled)
              × (is_settled settled.status ≡ true))))
unfolding run_jobs
run_jobs-is_settled id [] worker delivery here h able enough =
    elim (Bool-cases (is_settled delivery.status)) [
      | inl e ↦ (worker, (delivery, (refl, (here, e))))
      | inr e ↦ absurd (omega (h.has_attempts e, enough, arith))
    ]
run_jobs-is_settled id ((answer, (now, saved_at)) ∷ calls) worker delivery here h able enough =
    elim (Bool-cases (is_settled delivery.status)) [
      | inl e ↦ (
        worker,
        (
          delivery,
          (
            run_jobs-settled id ((answer, (now, saved_at)) ∷ calls) worker delivery here e,
            (here, e),
          ),
        ),
      )
      | inr e ↦
          let named =
            (==_iff delivery.id id).0
              (find_passes (λ (x : EventDelivery). x.id == id) worker.deliveries here) in
          let once = attempt-IsRun answer now saved_at id delivery worker h e named here able in
          let runs : deliver_event answer now saved_at id worker ≡ some once.after =
            deliver_event-waiting answer now saved_at id worker delivery here e ∙ once.done in
          rw (runs, run_jobs)
            (elim once.counted [
              | inl settled ↦ (
                once.after,
                (
                  once.delivery,
                  (
                    run_jobs-settled id calls once.after once.delivery once.found settled,
                    (once.found, settled),
                  ),
                ),
              )
              | inr counted ↦
                  run_jobs-is_settled id calls once.after once.delivery once.found once.consistent
                    (rw once.owned once.able) (omega (enough, counted, arith))
            ])
    ]
