-- ===== src/Connect/Delivery/History.antt =====
-- Any sequence of emitted events and worker runs, after crm/events/tasks.py and crm/events/services.py.
use mathlib.Core.Path.{subst}
use mathlib.Core.Option.{some-injective}
use open_immigration_crm.Prelude.{
  ℕ, suc, ◌≡◌, refl, ap, ◌∙◌, List, [], ◌∷◌, Option, none, some, Option-cases, Bool, false, not,
  Bool-cases, ◌==◌, find, All, arith, Text, inl, inr,
}
use open_immigration_crm.Connect.Policy.{Performed, send}
use open_immigration_crm.Connect.Delivery.{
  EventDelivery, is_settled, is_retrying, judge, Worker, save_delivery, attempt, deliver_event,
  queue_delivery, call_of,
}
use open_immigration_crm.Connect.Delivery.Settled.{IsConsistent, IsFine, judge-IsFine}

-- What happens to the worker's tables: an event is queued, or a job runs.
pub data Step : Type 0 where
  event : (id connection : ℕ) → (event_type payload : Text) → Step
  job : (answer : Performed) → (now saved_at id : ℕ) → Step

-- The worker after a job: an exception leaves the tables as they were.
unfoldable pub or_before : Worker → Option Worker → Worker
or_before worker none = worker
or_before worker (some after) = after

unfoldable pub step : Step → Worker → Worker
unfolding or_before
step (event id connection event_type payload) worker =
    queue_delivery id connection event_type payload worker
step (job answer now saved_at id) worker =
    or_before worker (deliver_event answer now saved_at id worker)

unfoldable pub run : List Step → Worker → Worker
unfolding step
run [] worker = worker
run (s ∷ steps) worker = run steps (step s worker)

abbrev IsSound : Worker → Type 0
IsSound worker = All IsConsistent worker.deliveries

save_delivery-All :
    (delivery : EventDelivery) (ds : List EventDelivery)
    → IsConsistent delivery
    → All IsConsistent ds
    → All IsConsistent (save_delivery delivery ds)
unfolding save_delivery
save_delivery-All delivery [] h hs = tt
save_delivery-All delivery (d ∷ ds) h hs = elim (Bool-cases (d.id == delivery.id)) [
  | inl e ↦ rw e (h, save_delivery-All delivery ds h hs.1)
  | inr e ↦ rw e (hs.0, save_delivery-All delivery ds h hs.1)
]

find-All :
    (p : EventDelivery → Bool) (ds : List EventDelivery) {d : EventDelivery}
    → All IsConsistent ds
    → find p ds ≡ some d
    → IsConsistent d
find-All p [] hs e = absurd (cc)
find-All p (x ∷ ds) {d} hs e = elim (Bool-cases (p x)) [
  | inl f ↦ subst IsConsistent (some-injective x d (rw f at e)) hs.0
  | inr f ↦ find-All p ds hs.1 (rw f at e)
]

attempt-IsSound :
    (answer : Performed) (now saved_at : ℕ) (delivery : EventDelivery) (worker : Worker)
    → IsConsistent delivery
    → is_settled delivery.status ≡ false
    → IsSound worker
    → IsSound (or_before worker (attempt answer now saved_at delivery worker))
unfolding or_before attempt send call_of
attempt-IsSound answer now saved_at delivery worker h waiting sound =
    let connection = worker.connections delivery.connection in
    elim (Option-cases (send answer worker.site (call_of connection now saved_at))) [
      | inl e ↦ rw (e, or_before) sound
      | inr ((outbound, site), e) ↦
          let counted : EventDelivery = record delivery { attempts = suc delivery.attempts } in
          let fine : IsFine (judge counted outbound saved_at) =
            judge-IsFine counted outbound saved_at (omega (h.has_attempts waiting, arith))
              (h.payload_kept ∙ ap not waiting) (h.finished ∙ waiting) in
          rw e (elim (Option-cases (judge counted outbound saved_at)) [
            | inl f ↦ rw (f, or_before) sound
            | inr (after, f) ↦
                rw (f, or_before) (save_delivery-All after worker.deliveries (rw f at fine) sound)
          ])
    ]

step-IsSound : (s : Step) (worker : Worker) → IsSound worker → IsSound (step s worker)
unfolding step deliver_event queue_delivery or_before is_settled is_retrying
step-IsSound (event id connection event_type payload) worker sound = (
  record {
    bounded = omega (arith);
    has_attempts = λ _. omega (arith);
    payload_kept = refl;
    finished = refl;
    scheduled = refl;
  },
  sound,
)
step-IsSound (job answer now saved_at id) worker sound =
    elim (Option-cases (find (λ (d : EventDelivery). d.id == id) worker.deliveries)) [
      | inl e ↦ rw (e, or_before) sound
      | inr (delivery, e) ↦
          rw (e, or_before)
            (elim (Bool-cases (is_settled delivery.status)) [
              | inl f ↦ rw (f, or_before) sound
              | inr f ↦ rw f (
                  attempt-IsSound answer now saved_at delivery worker
                    (find-All (λ d. d.id == id) worker.deliveries sound e) f sound)
            ])
    ]

-- Whatever is emitted and whenever jobs run, if the deliveries are consistent at first they stay
-- so: a delivery has a payload until it settles and no longer, is finished exactly when it is
-- settled, has a next attempt exactly while it is retrying, and is attempted seven times at most,
-- less than that before it settles.
pub run-IsConsistent :
    (steps : List Step) (worker : Worker)
    → All IsConsistent worker.deliveries
    → All IsConsistent (run steps worker).deliveries
unfolding run
run-IsConsistent [] worker sound = sound
run-IsConsistent (s ∷ steps) worker sound =
    run-IsConsistent steps (step s worker) (step-IsSound s worker sound)
