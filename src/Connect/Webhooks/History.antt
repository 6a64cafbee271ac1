-- ===== src/Connect/Webhooks/History.antt =====
-- Events that arrive and jobs that run, in any order.
use mathlib.Core.Path.{subst}
use open_immigration_crm.Prelude.{
  ℕ, ◌+◌, ◌≡◌, ◌<◌, inl, inr, refl, sym, List, [], ◌∷◌, some, Option-cases, true, false, ◌==◌,
  All-map, All-both, find, find_passes, find-All, any-All, Text, take, Bool-cases, arith,
}
use open_immigration_crm.Connect.Records.{Connection}
use open_immigration_crm.Connect.Webhooks.{
  WebhookEvent, Hooks, HttpRequest, Methods, Handled, gave, broke, died, is_repeat, is_processed,
  handled_by, settled, save_event, take_records, lose_run, process_webhook_event, receive_webhook,
  new_event,
}
use open_immigration_crm.Connect.Webhooks.Processed.{
  IsSound, IsKept, count_new, save_event-All, save_event-AreOthers, settled-IsSound, taken_other,
  All-take_records,
}
use open_immigration_crm.Connect.Webhooks.Received.{receive_webhook-IsAdmitted}

-- What happens: time passes, connections change, a request arrives, a job runs.
pub data Step : Type 0 where
  pass : (seconds : ℕ) → Step
  change : List Connection → Step
  arrive : HttpRequest → (token : Text) → Step
  process : (id : ℕ) → Handled → Step

module _ (methods : Methods) (max_bytes : ℕ) where
  unfoldable pub take_step : Step → Hooks → Hooks
  take_step (pass seconds) hooks = record hooks { now = hooks.now + seconds }
  take_step (change connections) hooks = record hooks { connections = connections }
  take_step (arrive request token) hooks = (receive_webhook methods max_bytes request token hooks).1
  take_step (process id answer) hooks = process_webhook_event answer id hooks

  unfoldable pub take_steps : List Step → Hooks → Hooks
  unfolding take_step
  take_steps [] hooks = hooks
  take_steps (step ∷ steps) hooks = take_steps steps (take_step step hooks)

arrive-IsKept :
    (methods : Methods) (max_bytes : ℕ) (request : HttpRequest) (token : Text) (hooks : Hooks)
    → IsKept hooks
    → IsKept (receive_webhook methods max_bytes request token hooks).1
unfolding new_event is_processed
arrive-IsKept methods max_bytes request token hooks h =
    elim (receive_webhook-IsAdmitted methods max_bytes request token hooks) [
      | inl same ↦ subst IsKept (sym same) h
      | inr (connection, (spec, (known, (webhooks, a)))) ↦ subst IsKept (sym a.stored) record {
        sound = (
          (
            omega arith,
            (omega (count_new hooks.next_id hooks.taken h.taken_old, arith), (refl, refl)),
          ),
          h.sound,
        );
        others = (
          All-both _ _ hooks.events h.events_old
              (any-All (is_repeat connection.id (take 255 a.sent.event_id)) hooks.events a.is_new),
          h.others,
        );
        events_old = (omega arith, All-map hooks.events (λ e l. omega (l, arith)) h.events_old);
        taken_old = All-map hooks.taken (λ i l. omega (l, arith)) h.taken_old;
      }
    ]

settled-same :
    (answer : Handled) (now : ℕ) (e : WebhookEvent)
    → ((settled answer now e).id ≡ e.id)
      × (((settled answer now e).connection ≡ e.connection)
          × ((settled answer now e).event_id ≡ e.event_id))
unfolding settled
settled-same (gave records) now e = (refl, (refl, refl))
settled-same (broke was_handed failure) now e = (refl, (refl, refl))
settled-same (died was_handed) now e = (refl, (refl, refl))

handle-IsKept :
    (answer : Handled) (event : WebhookEvent) (hooks : Hooks)
    → is_processed event.status ≡ false
    → find (λ (e : WebhookEvent). e.id == event.id) hooks.events ≡ some event
    → IsKept hooks
    → IsKept (record hooks {
      events = save_event (settled answer hooks.now event) hooks.events;
      taken = take_records answer event.id hooks.taken;
      lost = lose_run answer event.id hooks.lost;
    })
handle-IsKept answer event hooks fresh found h =
    let new = settled answer hooks.now event in
    let (same_id, (same_connection, same_event)) = settled-same answer hooks.now event in
    let own : find (λ (e : WebhookEvent). e.id == new.id) hooks.events ≡ some event =
      subst (λ k. find (λ (e : WebhookEvent). e.id == k) hooks.events ≡ some event) (sym same_id)
        found in
    let old : event.id < hooks.next_id =
      find-All (λ (e : WebhookEvent). e.id == event.id) (λ (e : WebhookEvent). e.id < hooks.next_id)
        hooks.events h.events_old found in
    record {
      sound =
          save_event-All (IsSound hooks.taken hooks.lost)
            (IsSound (take_records answer event.id hooks.taken)
              (lose_run answer event.id hooks.lost))
            event new hooks.events h.others own
            (settled-IsSound answer hooks.now hooks.taken hooks.lost event fresh)
            (λ e different.
              (taken_other answer event.id hooks.taken hooks.lost e
                (subst (λ k. (e.id == k) ≡ false) same_id different)))
            h.sound;
      others =
          save_event-AreOthers event new same_id same_connection same_event hooks.events h.others
            own;
      events_old =
          save_event-All (λ (e : WebhookEvent). e.id < hooks.next_id)
            (λ (e : WebhookEvent). e.id < hooks.next_id) event new hooks.events h.others own
            (λ l. omega (l, same_id, arith)) (λ e different l. l) h.events_old;
      taken_old = All-take_records hooks.next_id event.id answer hooks.taken old h.taken_old;
    }

process-IsKept :
    (answer : Handled) (id : ℕ) (hooks : Hooks)
    → IsKept hooks
    → IsKept (process_webhook_event answer id hooks)
unfolding process_webhook_event
process-IsKept answer id hooks h =
    elim (Option-cases (find (λ (e : WebhookEvent). e.id == id) hooks.events)) [
      | inl e ↦ rw (e, process_webhook_event) h
      | inr (event, e) ↦ elim (Bool-cases (is_processed event.status)) [
        | inl p ↦ rw (e, p, process_webhook_event) h
        | inr p ↦
            elim (Option-cases
              (find (λ (c : Connection). c.id == event.connection) hooks.connections)) [
                | inl f ↦ rw (e, p, f, process_webhook_event) h
                | inr (connection, f) ↦
                    let passes : (event.id == id) ≡ true =
                      find_passes (λ (x : WebhookEvent). x.id == id) hooks.events e in
                    let same : id ≡ event.id = ground arith in
                    let own : find (λ (x : WebhookEvent). x.id == event.id) hooks.events
                        ≡ some event =
                      subst (λ k. find (λ (x : WebhookEvent). x.id == k) hooks.events ≡ some event)
                        same e in
                    rw (e, p, f, process_webhook_event)
                      (handle-IsKept (handled_by connection.connector_class answer) event hooks p
                        own h)
              ]
      ]
    ]

take_step-IsKept :
    (methods : Methods) (max_bytes : ℕ) (step : Step) (hooks : Hooks)
    → IsKept hooks
    → IsKept (take_step methods max_bytes step hooks)
unfolding take_step
take_step-IsKept methods max_bytes (pass seconds) hooks h = record {
  sound = h.sound;
  others = h.others;
  events_old = h.events_old;
  taken_old = h.taken_old;
}
take_step-IsKept methods max_bytes (change connections) hooks h = record {
  sound = h.sound;
  others = h.others;
  events_old = h.events_old;
  taken_old = h.taken_old;
}
take_step-IsKept methods max_bytes (arrive request token) hooks h =
    arrive-IsKept methods max_bytes request token hooks h
take_step-IsKept methods max_bytes (process id answer) hooks h = process-IsKept answer id hooks h

-- Where it holds at first, it holds whatever arrives, however connections change and whenever jobs
-- run, if the jobs of one event do not overlap: of one connection an event id is stored once; the
-- records of an event that is processed were handed on; except for the run that processed it, every
-- run that handed them on, to some receivers, failed or stopped before the event was saved; and the
-- payload is there until the event is processed and gone from then on.
pub take_steps-IsKept :
    (methods : Methods) (max_bytes : ℕ) (steps : List Step) (hooks : Hooks)
    → IsKept hooks
    → IsKept (take_steps methods max_bytes steps hooks)
unfolding take_steps
take_steps-IsKept methods max_bytes [] hooks h = h
take_steps-IsKept methods max_bytes (step ∷ steps) hooks h =
    take_steps-IsKept methods max_bytes steps (take_step methods max_bytes step hooks)
      (take_step-IsKept methods max_bytes step hooks h)
