-- ===== src/Connect/Webhooks.antt =====
-- Events that providers send: `receive_webhook` of crm/connect/views.py stores them, and
-- `process_webhook_event` of crm/connect/tasks.py hands on their records.
pub mod Received
pub mod Repeats
pub mod Processed
pub mod History
mod Tests
use open_immigration_crm.Prelude.{
  ℕ, ◌+◌, List, [], ◌∷◌, ◌++◌, Option, none, some, Bool, true, false, not, ◌&&◌, ◌||◌, ◌==◌, ltb,
  find, any, length, Text, text_eq, is_empty, is_some, take, codes, if◌then◌else◌,
}
use open_immigration_crm.Connect.Records.{
  Capability, enabled, ConnectionStatus, active, needs_attention, WebhookSpec, Connector,
  Connection,
}
use open_immigration_crm.Connect.Syncs.Jobs.{Failure, connector_error, safe_error}

-- `WebhookEvent.Status`
pub data EventStatus : Type 0 where
  queued processed failed : EventStatus

-- `WebhookEvent`; a payload is kept as the text of its JSON object.
pub record WebhookEvent : Type 0 where
  pub id : ℕ
  pub connection : ℕ
  pub event_id : Text
  pub capability : Capability
  pub payload : Option Text
  pub status : EventStatus
  pub attempts : ℕ
  pub records_received : ℕ
  pub error : Text
  pub received_at : ℕ
  pub processed_at : Option ℕ

-- The tables and the clock. Of the runs of jobs, `taken` are those that handed an event's records to
-- some receiver, and `lost` those that failed or stopped before the event was saved, each by its event.
pub record Hooks : Type 0 where
  pub now : ℕ
  pub connections : List Connection
  pub events : List WebhookEvent
  pub enqueued : List ℕ
  pub taken : List ℕ
  pub lost : List ℕ
  pub next_id : ℕ

pub data HttpMethod : Type 0 where
  get post : HttpMethod

pub record HttpRequest : Type 0 where
  pub method : HttpMethod
  pub url : Text
  pub body : List ℕ
  pub headers : List (Text × Text)

-- `WebhookEnvelope`; the empty text is no capability of a connector.
pub record WebhookEnvelope : Type 0 where
  pub event_id : Text
  pub capability : Option Capability
  pub payload : Text

-- What `parse_webhook` does: a `ConnectorError` says that the event is malformed.
pub data Parsed : Type 0 where
  envelope : WebhookEnvelope → Parsed
  malformed raised : Parsed

-- What the view calls: the digest, and the methods of a connector.
pub record Methods : Type 0 where
  pub sha256 : Text → Text
  pub webhook_challenge : Connection → HttpRequest → Option (ℕ × Text)
  pub verify_webhook : Connection → HttpRequest → Text → Bool
  pub parse_webhook : Connection → HttpRequest → Parsed

-- An answer, or an exception that the view lets through.
pub data Response : Type 0 where
  plain : (status : ℕ) (text : Text) → Response
  crashed : Response

-- `ACCEPTING_STATUSES`
unfoldable pub is_accepting : ConnectionStatus → Bool
is_accepting active = true
is_accepting needs_attention = true
is_accepting _ = false

unfoldable pub has_hash : Text → Connection → Bool
unfolding is_accepting
has_hash hash connection = elim (connection.webhook_token_hash) [
  | none ↦ false
  | some h ↦ text_eq h hash && is_accepting connection.status
]

unfoldable pub webhooks_of : Connection → Option WebhookSpec
webhooks_of connection = elim (connection.connector_class) [ none ↦ none | some cls ↦ cls.webhooks ]

unfoldable pub or_blank : Option Text → Text
or_blank none = []
or_blank (some text) = text

-- The unique constraint on events.
unfoldable pub is_repeat : ℕ → Text → WebhookEvent → Bool
is_repeat connection event_id event =
    event.connection == connection && text_eq event.event_id event_id

unfoldable pub new_event : ℕ → Text → Capability → Text → Hooks → WebhookEvent
new_event connection event_id capability payload hooks = record {
  id = hooks.next_id;
  connection = connection;
  event_id = event_id;
  capability = capability;
  payload = some payload;
  status = queued;
  attempts = 0;
  records_received = 0;
  error = [];
  received_at = hooks.now;
  processed_at = none;
}

-- `create`, and `on_commit`; an `IntegrityError` leaves the tables as they are.
unfoldable pub store : ℕ → Text → Capability → Text → Hooks → Hooks
unfolding is_repeat new_event
store connection event_id capability payload hooks =
    if any (is_repeat connection event_id) hooks.events then hooks else record hooks {
      events = new_event connection event_id capability payload hooks ∷ hooks.events;
      enqueued = hooks.enqueued ++ hooks.next_id ∷ [];
      next_id = hooks.next_id + 1;
    }

-- The envelope's capability, if the connector's webhooks are for it and it has an event id.
unfoldable pub accepted : WebhookSpec → WebhookEnvelope → Option Capability
accepted spec e = elim (e.capability) [
  | none ↦ none
  | some capability ↦
      if not (is_empty e.event_id) && enabled capability spec.capabilities
      then some capability
      else none
]

unfoldable pub malformed_event : Response
malformed_event = plain 400 (codes "malformed event")

-- From a verified request on.
unfoldable pub admit : Connection → WebhookSpec → Parsed → Hooks → Response × Hooks
unfolding accepted store malformed_event
admit connection spec raised hooks = (crashed, hooks)
admit connection spec malformed hooks = (malformed_event, hooks)
admit connection spec (envelope e) hooks = elim (accepted spec e) [
  | none ↦ (malformed_event, hooks)
  | some capability ↦ (
    plain spec.ack_status spec.ack_body,
    store connection.id (take 255 e.event_id) capability e.payload hooks,
  )
]

unfoldable pub is_post : HttpMethod → Bool
is_post post = true
is_post get = false

-- From the connection on.
unfoldable pub receive_at :
    Methods → ℕ → HttpRequest → Connection → WebhookSpec → Hooks → Response × Hooks
unfolding admit or_blank
receive_at methods max_bytes request connection spec hooks =
    if ltb max_bytes (length request.body)
    then (plain 413 (codes "too large"), hooks)
    else elim (methods.webhook_challenge connection request) [
      | some (status, text) ↦ (plain status text, hooks)
      | none ↦
          if not (is_post request.method)
          then (plain 405 (codes "method not allowed"), hooks)
          else let secret = or_blank connection.webhook_secret in
            if is_empty secret || not (methods.verify_webhook connection request secret)
            then (plain 401 (codes "invalid signature"), hooks)
            else admit connection spec (methods.parse_webhook connection request) hooks
    ]

-- `receive_webhook`
unfoldable pub receive_webhook :
    Methods → ℕ → HttpRequest → (token : Text) → Hooks → Response × Hooks
unfolding has_hash webhooks_of receive_at
receive_webhook methods max_bytes request token hooks =
    elim (find (has_hash (methods.sha256 token)) hooks.connections) [
      | none ↦ (plain 404 (codes "not found"), hooks)
      | some connection ↦ elim (webhooks_of connection) [
        | none ↦ (plain 404 (codes "not found"), hooks)
        | some spec ↦ receive_at methods max_bytes request connection spec hooks
      ]
    ]

-- What `handle_webhook` and the receivers of its records do: all take the records; `handle_webhook` or
-- a receiver raises, before or after other receivers had the records; or the worker stops before the
-- event is saved.
pub data Handled : Type 0 where
  gave : (records : ℕ) → Handled
  broke : (was_handed : Bool) → Failure → Handled
  died : (was_handed : Bool) → Handled

unfoldable pub is_processed : EventStatus → Bool
is_processed processed = true
is_processed _ = false

-- Without the connector, what it would do does not matter: nothing is handed on.
unfoldable pub handled_by : Option Connector → Handled → Handled
handled_by none (died was_handed) = died false
handled_by none answer =
    broke false (connector_error (codes "This connection's connector is not installed."))
handled_by (some cls) answer = answer

unfoldable pub settled : Handled → ℕ → WebhookEvent → WebhookEvent
unfolding safe_error
settled (died was_handed) now event = event
settled (broke was_handed failure) now event = record event {
  attempts = event.attempts + 1;
  status = failed;
  error = safe_error failure;
}
settled (gave records) now event = record event {
  attempts = event.attempts + 1;
  status = processed;
  records_received = records;
  error = [];
  payload = none;
  processed_at = some now;
}

-- `event.save`
unfoldable pub save_event : WebhookEvent → List WebhookEvent → List WebhookEvent
save_event event [] = []
save_event event (e ∷ es) = if e.id == event.id then event ∷ es else e ∷ save_event event es

-- `records_received.send`, for the events whose records some receiver had.
unfoldable pub take_records : Handled → ℕ → List ℕ → List ℕ
take_records (gave records) id taken = id ∷ taken
take_records (broke was_handed failure) id taken = if was_handed then id ∷ taken else taken
take_records (died was_handed) id taken = if was_handed then id ∷ taken else taken

unfoldable pub lose_run : Handled → ℕ → List ℕ → List ℕ
lose_run (gave records) id lost = lost
lose_run (broke was_handed failure) id lost = id ∷ lost
lose_run (died was_handed) id lost = id ∷ lost

-- `process_webhook_event`
unfoldable pub process_webhook_event : Handled → ℕ → Hooks → Hooks
unfolding handled_by settled save_event is_processed take_records lose_run
process_webhook_event answer id hooks =
    elim (find (λ (e : WebhookEvent). e.id == id) hooks.events) [
      | none ↦ hooks
      | some event ↦
          if is_processed event.status
          then hooks
          else elim (find (λ (c : Connection). c.id == event.connection) hooks.connections) [
            | none ↦ hooks
            | some connection ↦
                let handled = handled_by connection.connector_class answer in
                record hooks {
                  events = save_event (settled handled hooks.now event) hooks.events;
                  taken = take_records handled event.id hooks.taken;
                  lost = lose_run handled event.id hooks.lost;
                }
          ]
    ]
