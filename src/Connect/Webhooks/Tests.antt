-- ===== src/Connect/Webhooks/Tests.antt =====
-- The theorems on webhooks at one connection, and on connections that are disconnected, offered or
-- have their webhooks enabled.
use open_immigration_crm.Prelude.{
  ◌≡◌, ◌⊎◌, refl, [], ◌∷◌, none, some, true, false, codes, All, find, text_eq, arith,
}
use open_immigration_crm.Connect.Records.{Capability, ConnectionStatus, Connection, WebhookSpec}
use open_immigration_crm.Connect.Examples.{connection_with, staff}
use open_immigration_crm.Connect.Policy.{Site, Attempt}
use open_immigration_crm.Connect.Syncs.{World, SyncRun, RunStatus}
use open_immigration_crm.Connect.Syncs.Jobs
use open_immigration_crm.Connect.Webhooks
use open_immigration_crm.Connect.Webhooks.{
  Hooks, HttpMethod, HttpRequest, Methods, Parsed, receive_webhook, webhooks_of, has_hash,
  is_accepting, is_post, admit,
}
use open_immigration_crm.Connect.Webhooks.Received.{IsAdmitted, receive_webhook-IsAdmitted}
use open_immigration_crm.Connect.Webhooks.Repeats.{receive_webhook_twice}
use open_immigration_crm.Connect.Webhooks.Processed.{IsKept}
use open_immigration_crm.Connect.Webhooks.History.{Step, take_steps, take_steps-IsKept}
use open_immigration_crm.Connect.Services.{Call, disconnect}
use open_immigration_crm.Connect.Services.Ended.{IsOver, disconnect-IsOver}
use open_immigration_crm.Connect.Access.{usable_connections, enable_webhooks}
use open_immigration_crm.Connect.Access.Usable.{IsOffered, All-usable_connections}
use open_immigration_crm.Connect.Access.Addressed.{receive_webhook-enable_webhooks}

-- A digest that puts a mark before the text, a signature that is the secret itself.
abbrev methods : Methods
methods = record {
  sha256 = λ t. 35 ∷ t;
  webhook_challenge = λ connection request. none;
  verify_webhook = λ connection request secret. text_eq request.body secret;
  parse_webhook = λ connection request.
      Parsed.envelope record {
        event_id = request.url;
        capability = some Capability.mailbox;
        payload = codes "{}";
      };
}

abbrev request : HttpRequest
request = record {
  method = HttpMethod.post;
  url = codes "/hooks/t";
  body = codes "s3cret";
  headers = [];
}

abbrev connection : Connection
connection = connection_with ConnectionStatus.active (some (codes "#t")) (some (codes "s3cret"))

abbrev hooks : Hooks
hooks = record {
  now = 100;
  connections = connection ∷ [];
  events = [];
  enqueued = [];
  taken = [];
  lost = [];
  next_id = 1;
}

receive_webhook-IsAdmitted_example :
    ((receive_webhook methods 1000 request (codes "t") hooks).1 ≡ hooks)
    ⊎ ((connection : Connection) × ((spec : WebhookSpec) × ((find
                (has_hash (methods.sha256 (codes "t")))
                hooks.connections
              ≡ some connection)
            × ((webhooks_of connection ≡ some spec)
                × IsAdmitted methods 1000 request connection spec hooks
                    (receive_webhook methods 1000 request (codes "t") hooks).1))))
receive_webhook-IsAdmitted_example =
    receive_webhook-IsAdmitted methods 1000 request (codes "t") hooks

receive_webhook_twice_example :
    receive_webhook methods 1000 request
      (codes "t")
      (receive_webhook methods 1000 request (codes "t") hooks).1
    ≡ receive_webhook methods 1000 request (codes "t") hooks
receive_webhook_twice_example = receive_webhook_twice methods 1000 request (codes "t") hooks

take_steps-IsKept_example : IsKept (
    take_steps methods 1000
      (Step.arrive request (codes "t")
        ∷ Step.process 1 (Webhooks.broke true (Jobs.connector_error (codes "Timed out")))
        ∷ Step.process 1 (Webhooks.gave 3)
        ∷ Step.arrive request (codes "t")
        ∷ Step.process 1 (Webhooks.gave 3)
        ∷ [])
      hooks)
take_steps-IsKept_example =
    take_steps-IsKept methods 1000
      (Step.arrive request (codes "t")
        ∷ Step.process 1 (Webhooks.broke true (Jobs.connector_error (codes "Timed out")))
        ∷ Step.process 1 (Webhooks.gave 3)
        ∷ Step.arrive request (codes "t")
        ∷ Step.process 1 (Webhooks.gave 3)
        ∷ [])
      hooks (record { sound = tt; others = tt; events_old = tt; taken_old = tt })

abbrev site : Site
site = record { outbound_enabled = true; hourly_limit = 9; requests = []; performed = [] }

abbrev attempt : Attempt
attempt = record {
  connection = connection;
  action = codes "send_email";
  actor = some staff;
  is_automation = false;
  target = none;
  now = 100;
  saved_at = 101;
}

abbrev world : World
world = record {
  now = 5000;
  connections = connection ∷ [];
  runs = [];
  enqueued = [];
  heartbeats = [];
  next_id = 1;
}

abbrev queued_run : SyncRun
queued_run = record {
  id = 1;
  connection = 1;
  capability = Capability.mailbox;
  status = RunStatus.queued;
  cursor_before = codes "";
  cursor_after = codes "";
  records_received = 0;
  error = [];
  created_at = 4000;
  started_at = none;
  finished_at = none;
}

disconnect-IsOver_example :
    IsOver
      (disconnect (some 2) Call.worked connection []).0
      (codes "#t")
      site
      attempt
      (some Capability.mailbox)
      world
      0
      queued_run
disconnect-IsOver_example =
    disconnect-IsOver (some 2) Call.worked connection [] (codes "#t") site attempt
      (some Capability.mailbox) world 0 queued_run

All-usable_connections_example :
    All
      (λ c.
        IsOffered site Capability.mailbox
          (record attempt { connection = c; actor = some staff; is_automation = false }))
      (usable_connections staff (codes "send_email") Capability.mailbox (connection ∷ []))
All-usable_connections_example =
    All-usable_connections site staff (codes "send_email") Capability.mailbox attempt
      (connection ∷ [])

receive_webhook-enable_webhooks_example :
    (spec : WebhookSpec) × (receive_webhook methods 1000 request (codes "t") hooks
      ≡ admit connection spec (methods.parse_webhook connection request) hooks)
unfolding enable_webhooks is_accepting is_post
receive_webhook-enable_webhooks_example =
    receive_webhook-enable_webhooks methods (codes "t") (codes "s3cret") (some 2) [] false
      (connection_with ConnectionStatus.active none none) [] (codes "t", codes "s3cret") connection
      _ 1000 request hooks [] refl refl refl refl (omega arith) refl refl refl
