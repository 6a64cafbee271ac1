-- ===== src/Connect/Delivery.antt =====
-- Event delivery by the background worker, after crm/events/tasks.py, crm/events/models.py and the
-- loop of `queue_deliveries` in crm/events/services.py.
pub mod Settled
pub mod History
pub mod Termination
use open_immigration_crm.Prelude.{
  ℕ, zero, suc, ◌+◌, ◌-◌, List, [], ◌∷◌, ◌++◌, Option, none, some, Bool, true, false, ◌||◌, ◌==◌,
  ltb, find, map, length, Text, take, codes, if◌then◌else◌,
}
use open_immigration_crm.Connect.Records.{
  Connection, is_sent, is_previewed, is_failed, mark_connection,
}
use open_immigration_crm.Connect.Policy.{
  Code, rate_limited, OutboundRequest, Site, Attempt, Performed, send,
}

-- `EventDelivery.Status`
pub data DeliveryStatus : Type 0 where
  queued retrying sent previewed blocked failed : DeliveryStatus

pub record EventDelivery : Type 0 where
  pub id : ℕ
  pub connection : ℕ
  pub event_type : Text
  pub payload : Option Text
  pub status : DeliveryStatus
  pub attempts : ℕ
  pub next_attempt_at : Option ℕ
  pub last_error : Text
  pub finished_at : Option ℕ

-- `EventDelivery.is_settled`
unfoldable pub is_settled : DeliveryStatus → Bool
is_settled queued = false
is_settled retrying = false
is_settled _ = true

unfoldable pub is_retrying : DeliveryStatus → Bool
is_retrying retrying = true
is_retrying _ = false

-- `RETRY_DELAYS`, in seconds.
abbrev pub retry_delays : List ℕ
retry_delays = 60 ∷ 300 ∷ 1800 ∷ 7200 ∷ 28800 ∷ 86400 ∷ []

abbrev pub max_attempts : ℕ
max_attempts = 7

-- `RETRY_DELAYS[index]`; `none` is an `IndexError`.
unfoldable pub get_elem? : List ℕ → ℕ → Option ℕ
get_elem? [] index = none
get_elem? (x ∷ xs) zero = some x
get_elem? (x ∷ xs) (suc index) = get_elem? xs index

unfoldable pub settle : EventDelivery → DeliveryStatus → Text → ℕ → EventDelivery
settle delivery status error now = record delivery {
  status = status;
  last_error = take 500 error;
  next_attempt_at = none;
  finished_at = some now;
  payload = none;
}

unfoldable pub is_rate_limited : Code → Bool
is_rate_limited rate_limited = true
is_rate_limited _ = false

unfoldable pub retry : EventDelivery → OutboundRequest → ℕ → Option EventDelivery
retry delivery outbound now = elim (get_elem? retry_delays (delivery.attempts - 1)) [
  | none ↦ none
  | some delay ↦ some record delivery {
    status = retrying;
    last_error = outbound.error;
    next_attempt_at = some (now + delay);
  }
]

-- What `attempt` makes of the request that `send` recorded; the attempt is counted already.
unfoldable pub judge : EventDelivery → OutboundRequest → ℕ → Option EventDelivery
judge delivery outbound now =
    if is_sent outbound.status
    then some (settle delivery sent [] now)
    else if is_previewed outbound.status
    then some (settle delivery previewed [] now)
    else if is_failed outbound.status || is_rate_limited outbound.decision_code
    then if ltb delivery.attempts max_attempts
      then retry delivery outbound now
      else some (settle delivery failed outbound.error now)
    else some (settle delivery blocked outbound.error now)

unfoldable pub mark : Connection → OutboundRequest → ℕ → Connection
mark connection outbound now =
    if is_sent outbound.status
    then mark_connection connection now []
    else if is_failed outbound.status
    then mark_connection connection now outbound.error
    else connection

-- The tables that deliveries use, and the jobs enqueued so far: a delivery and its `run_after`.
pub record Worker : Type 0 where
  pub site : Site
  pub connections : ℕ → Connection
  pub deliveries : List EventDelivery
  pub jobs : List (ℕ × Option ℕ)

unfoldable pub deliver_action : Text
deliver_action = codes "deliver_event"

unfoldable pub call_of : Connection → ℕ → ℕ → Attempt
call_of connection now saved_at = record {
  connection = connection;
  action = deliver_action;
  actor = none;
  is_automation = true;
  target = none;
  now = now;
  saved_at = saved_at;
}

unfoldable pub save_connection : Connection → (ℕ → Connection) → ℕ → Connection
save_connection connection connections id =
    if id == connection.id then connection else connections id

unfoldable pub save_delivery : EventDelivery → List EventDelivery → List EventDelivery
save_delivery delivery = map (λ d. if d.id == delivery.id then delivery else d)

unfoldable pub enqueued : EventDelivery → List (ℕ × Option ℕ) → List (ℕ × Option ℕ)
enqueued delivery jobs =
    if is_retrying delivery.status then (delivery.id, delivery.next_attempt_at) ∷ jobs else jobs

-- `attempt`; `none` is an exception, after which nothing is saved.
unfoldable pub attempt : Performed → ℕ → ℕ → EventDelivery → Worker → Option Worker
attempt answer now saved_at delivery worker =
    let connection = worker.connections delivery.connection in
    elim (send answer worker.site (call_of connection now saved_at)) [
      | none ↦ none
      | some (outbound, site) ↦
          elim (judge (record delivery { attempts = suc delivery.attempts }) outbound saved_at) [
            | none ↦ none
            | some after ↦ some record {
              site = site;
              connections = save_connection (mark connection outbound saved_at) worker.connections;
              deliveries = save_delivery after worker.deliveries;
              jobs = enqueued after worker.jobs;
            }
          ]
    ]

-- `deliver_event`
unfoldable pub deliver_event : Performed → ℕ → ℕ → ℕ → Worker → Option Worker
deliver_event answer now saved_at id worker = elim (find (λ d. d.id == id) worker.deliveries) [
  | none ↦ some worker
  | some delivery ↦ elim (is_settled delivery.status) [
    | true ↦ some worker
    | false ↦ attempt answer now saved_at delivery worker
  ]
]

-- One pass of the loop of `queue_deliveries`, with the key that the row is given.
unfoldable pub queue_delivery : ℕ → ℕ → Text → Text → Worker → Worker
queue_delivery id connection event_type payload worker = record worker {
  deliveries =
      record {
        id = id;
        connection = connection;
        event_type = event_type;
        payload = some payload;
        status = queued;
        attempts = 0;
        next_attempt_at = none;
        last_error = [];
        finished_at = none;
      }
      ∷ worker.deliveries;
  jobs = (id, none) ∷ worker.jobs;
}
