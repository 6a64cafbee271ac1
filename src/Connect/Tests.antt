-- ===== src/Connect/Tests.antt =====
-- The theorems on outbound requests and deliveries at one automation connection.
use open_immigration_crm.Prelude.{
  Text, ℕ, ◌≡◌, ◌≤◌, ◌⊎◌, ◌==◌, refl, List, [], ◌∷◌, none, some, true, false, codes, All, find,
  arith,
}
use open_immigration_crm.Connect.Records
use open_immigration_crm.Connect.Records.{
  Capability, Connection, Connector, RequestStatus, capability_of,
}
use open_immigration_crm.Connect.Policy
use open_immigration_crm.Connect.Policy.{
  allowed, Site, Attempt, OutboundRequest, Performed, evaluate, sent_last_hour, send, recorded,
  decided, blank, settle, looked_up,
}
use open_immigration_crm.Connect.Policy.Outcome.{IsCalled, IsHeld, send_lem}
use open_immigration_crm.Connect.Policy.HourlyLimit.{sends, hourly_limit_holds}
use open_immigration_crm.Connect.Emission.{
  Pending, emit_all, emit, subscribed, is_covered, object_name, ends_with, is_disconnected,
}
use open_immigration_crm.Connect.Emission.Order.{AreNew, emit_all-AreNew}
use open_immigration_crm.Connect.Delivery.{
  EventDelivery, DeliveryStatus, Worker, is_settled, is_retrying, deliver_action,
}
use open_immigration_crm.Connect.Delivery.Settled.{IsConsistent}
use open_immigration_crm.Connect.Delivery.History.{Step, run, run-IsConsistent}
use open_immigration_crm.Connect.Delivery.Termination.{run_jobs, can_deliver, run_jobs-is_settled}

abbrev connector : Connector
connector = record {
  name = codes "Automation";
  capabilities = Capability.automation ∷ [];
  auth_fields = none;
  settings_fields = [];
  connection_scope = Records.firm;
  outbound_actions = (codes "deliver_event", Capability.automation) ∷ [];
  owner_sync_actions = [];
  data_flows_version = 1;
  sync_capabilities = [];
  sync_interval = some 900;
  webhooks = none;
}

abbrev connection : Connection
connection = record {
  id = 4;
  connector_class = some connector;
  owner = none;
  status = Records.active;
  enabled_capabilities = Capability.automation ∷ [];
  credentials = none;
  config = [];
  granted_scopes = [];
  preview_mode = false;
  outbound_admin_only = false;
  data_flows_version = some 1;
  data_flows_acknowledged_by = some 2;
  data_flows_acknowledged_at = some 5;
  last_success_at = none;
  last_error_at = none;
  last_error = [];
  webhook_token_hash = none;
  webhook_secret = none;
  created_by = none;
}

abbrev site : Site
site = record { outbound_enabled = true; hourly_limit = 1; requests = []; performed = [] }

abbrev call : Attempt
call = record {
  connection = connection;
  action = codes "deliver_event";
  actor = none;
  is_automation = true;
  target = none;
  now = 5000;
  saved_at = 5002;
}

abbrev answer : Performed
answer = Performed.replied_text (codes "202")

abbrev request : OutboundRequest
request = record {
  connection = 4;
  capability = some Capability.automation;
  action = codes "deliver_event";
  actor = none;
  is_automation = true;
  decision_code = allowed;
  status = RequestStatus.sent;
  provider_ref = codes "202";
  error = [];
  created_at = 5002;
}

abbrev site_after : Site
site_after = record site { requests = request ∷ []; performed = (4, codes "deliver_event") ∷ [] }

sent_now : send answer site call ≡ some (request, site_after)
unfolding send recorded decided evaluate Records.is_active Policy.is_on Records.enabled
    Records.data_flows_acknowledged Policy.is_someone_elses Policy.needs_manager Policy.is_texting
    sent_last_hour blank
sent_now = refl

send_lem_example : IsCalled site call request site_after ⊎ IsHeld site call request site_after
send_lem_example = send_lem answer site call request site_after sent_now

none_sent : (c : ℕ) → sent_last_hour c 5000 site.requests ≤ site.hourly_limit
unfolding sent_last_hour
none_sent c = omega (arith)

hourly_limit_holds_example :
    sent_last_hour 4 6000 (sends site ((answer, call) ∷ (answer, call) ∷ [])).requests
    ≤ site.hourly_limit
hourly_limit_holds_example =
    hourly_limit_holds site ((answer, call) ∷ (answer, call) ∷ []) 5000 6000 4
      (omega (arith), (omega (arith), omega (arith))) none_sent

abbrev delivery : EventDelivery
delivery = record {
  id = 8;
  connection = 4;
  event_type = codes "contact.created";
  payload = some (codes "{}");
  status = DeliveryStatus.queued;
  attempts = 0;
  next_attempt_at = none;
  last_error = [];
  finished_at = none;
}

abbrev worker : Worker
worker = record {
  site = site;
  connections = λ id. connection;
  deliveries = delivery ∷ [];
  jobs = [];
}

abbrev refused : Performed
refused = Performed.connector_error (codes "Timed out")

delivery-IsConsistent : IsConsistent delivery
unfolding is_settled is_retrying
delivery-IsConsistent = record {
  bounded = omega (arith);
  has_attempts = λ e. omega (arith);
  payload_kept = refl;
  finished = refl;
  scheduled = refl;
}

abbrev steps : List Step
steps =
    Step.job refused 5000 5002 8
    ∷ Step.event 9 4 (codes "contact.updated") (codes "{}")
    ∷ Step.job answer 5062 5063 8
    ∷ []

run-IsConsistent_example : All IsConsistent (run steps worker).deliveries
run-IsConsistent_example = run-IsConsistent steps worker (delivery-IsConsistent, tt)

connection_can_deliver : can_deliver connection ≡ true
unfolding can_deliver capability_of deliver_action
connection_can_deliver = refl

queued_here : find (λ (x : EventDelivery). x.id == 8) worker.deliveries ≡ some delivery
queued_here = refl

abbrev tries : List (Performed × (ℕ × ℕ))
tries =
    (refused, (1, 2))
    ∷ (refused, (70, 71))
    ∷ (refused, (400, 401))
    ∷ (refused, (3000, 3001))
    ∷ (refused, (12000, 12001))
    ∷ (refused, (50000, 50001))
    ∷ (refused, (200000, 200001))
    ∷ []

run_jobs-is_settled_example :
    (after : Worker) × ((settled : EventDelivery) × ((run_jobs 8 tries worker ≡ some after)
        × ((find (λ (x : EventDelivery). x.id == 8) after.deliveries ≡ some settled)
            × (is_settled settled.status ≡ true))))
run_jobs-is_settled_example =
    run_jobs-is_settled 8 tries worker delivery queued_here delivery-IsConsistent
      connection_can_deliver (omega (arith))

abbrev contact_types : List Text
contact_types = codes "contact.created" ∷ codes "contact.updated" ∷ []

-- A contact that is made and then saved twice more.
abbrev queued_once : Pending
queued_once = record {
  types = codes "contact.created" ∷ [];
  callbacks = (codes "contact.created", 4 ∷ []) ∷ [];
}

contact_saved :
    emit_all contact_types
      (connection ∷ [])
      (λ id. contact_types)
      (codes "contact.created" ∷ codes "contact.updated" ∷ codes "contact.created" ∷ [])
      (record { types = []; callbacks = [] })
    ≡ some queued_once
unfolding emit_all emit subscribed is_covered object_name ends_with is_disconnected Records.enabled
contact_saved = refl

emit_all-AreNew_example : AreNew queued_once.callbacks
emit_all-AreNew_example =
    emit_all-AreNew contact_types (connection ∷ []) (λ id. contact_types)
      (codes "contact.created" ∷ codes "contact.updated" ∷ codes "contact.created" ∷ []) queued_once
      contact_saved
