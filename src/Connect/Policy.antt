-- ===== src/Connect/Policy.antt =====
-- The outbound policy of crm/connect/policy.py: `evaluate` decides, and `send` records what it decides
-- and calls the connector.
pub mod Permission
pub mod Outcome
pub mod HourlyLimit
use open_immigration_crm.Prelude.{
  ℕ, ◌+◌, List, [], ◌∷◌, ◌++◌, Option, none, some, Bool, true, false, not, ◌&&◌, ◌||◌, ◌==◌, leb,
  any, is_some, select, length, Text, text_eq, take, codes, if◌then◌else◌,
}
use open_immigration_crm.Connect.Records.{
  Capability, texting, ConnectionStatus, active, Connector, Connection, RequestStatus, sent,
  previewed, blocked, failed, User, Target, contact, matter, other, capability_of, capability_eq,
  enabled, is_active, is_sent, data_flows_acknowledged,
}

-- `Codes`, `OK` among them.
pub data Code : Type 0 where
  allowed preview_mode outbound_disabled connector_not_installed : Code
  connection_inactive capability_not_enabled data_flows_not_acknowledged : Code
  personal_connection admin_only recipient_opted_out rate_limited : Code

pub record OutboundRequest : Type 0 where
  pub connection : ℕ
  pub capability : Option Capability
  pub action : Text
  pub actor : Option ℕ
  pub is_automation : Bool
  pub decision_code : Code
  pub status : RequestStatus
  pub provider_ref : Text
  pub error : Text
  pub created_at : ℕ

-- The settings of the site and the requests recorded so far, newest first; and every call of a
-- connector, by connection and action.
pub record Site : Type 0 where
  pub outbound_enabled : Bool
  pub hourly_limit : ℕ
  pub requests : List OutboundRequest
  pub performed : List (ℕ × Text)

-- What a call of `send` is given, with the moment of the decision and the moment at which the
-- request is saved.
pub record Attempt : Type 0 where
  pub connection : Connection
  pub action : Text
  pub actor : Option User
  pub is_automation : Bool
  pub target : Option Target
  pub now : ℕ
  pub saved_at : ℕ

unfoldable pub opted_out : Option Target → Bool
opted_out none = false
opted_out (some (contact _ at)) = is_some at
opted_out (some (matter _ at)) = is_some at
opted_out (some (other _)) = false

unfoldable pub assigned_to : Option Target → Option ℕ
assigned_to none = none
assigned_to (some (contact user _)) = user
assigned_to (some (matter user _)) = user
assigned_to (some (other user)) = user

-- `==` of two nullable keys.
unfoldable pub same_key : Option ℕ → Option ℕ → Bool
same_key none none = true
same_key (some a) (some b) = a == b
same_key _ _ = false

unfoldable pub owner_sync : Attempt → Bool
unfolding assigned_to same_key
owner_sync a = elim (a.connection.connector_class) [
  | none ↦ false
  | some cls ↦
      any (λ name. text_eq name a.action) cls.owner_sync_actions
      && same_key (assigned_to a.target) a.connection.owner
]

unfoldable pub is_owner : Attempt → Bool
unfolding same_key
is_owner a = elim (a.actor) [
  | none ↦ false
  | some user ↦ same_key (some user.id) a.connection.owner
]

unfoldable pub manages : Option User → Bool
manages none = false
manages (some user) = user.manages_connections

-- The last condition of the personal-connection rule.
unfoldable pub is_someone_elses : Attempt → Bool
unfolding is_owner owner_sync
is_someone_elses a =
    is_some a.connection.owner
    && (a.is_automation || not (is_owner a))
    && not (a.is_automation && owner_sync a)

unfoldable pub needs_manager : Attempt → Bool
unfolding manages
needs_manager a = a.connection.outbound_admin_only && not a.is_automation && not (manages a.actor)

unfoldable pub is_recent : ℕ → ℕ → OutboundRequest → Bool
is_recent connection now request =
    request.connection == connection
    && is_sent request.status
    && leb now (request.created_at + 3600)

-- `sent_last_hour`
unfoldable pub sent_last_hour : ℕ → ℕ → List OutboundRequest → ℕ
unfolding is_recent
sent_last_hour connection now requests = length (select (is_recent connection now) requests)

-- `capability in enabled_capabilities`; no capability is the empty text, which is in no such list.
unfoldable pub is_on : Option Capability → Connection → Bool
is_on none connection = false
is_on (some capability) connection = enabled capability connection.enabled_capabilities

unfoldable pub is_texting : Option Capability → Bool
is_texting none = false
is_texting (some capability) = capability_eq capability texting

-- `evaluate`, with the checks in their documented order.
unfoldable pub evaluate : Site → Option Capability → Attempt → Code
evaluate site capability a =
    if not site.outbound_enabled
    then outbound_disabled
    else if not (is_some a.connection.connector_class)
    then connector_not_installed
    else if not (is_active a.connection.status)
    then connection_inactive
    else if not (is_on capability a.connection)
    then capability_not_enabled
    else if not (data_flows_acknowledged a.connection)
    then data_flows_not_acknowledged
    else if is_someone_elses a
    then personal_connection
    else if needs_manager a
    then admin_only
    else if is_texting capability && opted_out a.target
    then recipient_opted_out
    else if leb site.hourly_limit (sent_last_hour a.connection.id a.now site.requests)
    then rate_limited
    else if a.connection.preview_mode
    then preview_mode
    else allowed

-- The reason a decision gives.
unfoldable pub reason : Code → Text
reason allowed = []
reason preview_mode = codes "Preview mode: recorded but not sent."
reason outbound_disabled = codes "Outbound actions are turned off for this site."
reason connector_not_installed = codes "This connection's connector is not installed."
reason connection_inactive = codes "This connection is not active."
reason capability_not_enabled = codes "That capability is off for this connection."
reason data_flows_not_acknowledged =
    codes
      "Someone who manages connections and AI must review what this connection sends before it is used."
reason personal_connection =
    codes
      "A personal connection runs only its owner's own requests, and automations only to keep the owner's own records in step."
reason admin_only =
    codes "Only people who manage connections and AI can send through this connection."
reason recipient_opted_out = codes "The recipient opted out of texts."
reason rate_limited = codes "This connection reached its hourly limit."

-- What `connector().perform` does: answer with a text or a structure (with its `"id"`, if any),
-- raise a `ConnectorError`, or raise something else, of which only the class is kept.
pub data Performed : Type 0 where
  replied_text : Text → Performed
  replied_structure : (id : Option Text) → Performed
  connector_error : Text → Performed
  unexpected : (class : Text) → Performed

unfoldable pub or_empty : Option Text → Text
or_empty none = []
or_empty (some t) = t

-- The request after `connector().perform` answered or raised.
unfoldable pub settle : Performed → OutboundRequest → OutboundRequest
unfolding or_empty
settle (replied_text text) request = record request { provider_ref = take 255 text; status = sent }
settle (replied_structure id) request = record request {
  provider_ref = take 255 (or_empty id);
  status = sent;
}
settle (connector_error text) request = record request { status = failed; error = take 500 text }
settle (unexpected name) request = record request {
  status = failed;
  error = codes "Unexpected " ++ name;
}

-- The request before it is decided.
unfoldable pub blank : Option Capability → Code → Attempt → OutboundRequest
blank capability code a = record {
  connection = a.connection.id;
  capability = capability;
  action = a.action;
  actor = elim (a.actor) [ none ↦ none | some user ↦ some user.id ];
  is_automation = a.is_automation;
  decision_code = code;
  status = blocked;
  provider_ref = [];
  error = [];
  created_at = a.saved_at;
}

-- What `send` does with a decided request: the request as saved, and whether the connector is
-- called.
unfoldable pub decided : Code → Performed → OutboundRequest → OutboundRequest × Bool
unfolding settle reason
decided allowed answer request = (settle answer request, true)
decided preview_mode answer request = (record request { status = previewed }, false)
decided code answer request = (record request { status = blocked; error = reason code }, false)

-- The capability of an action; `none` is a `ValueError`, `some none` a missing connector.
unfoldable pub looked_up : Attempt → Option (Option Capability)
unfolding capability_of
looked_up a = elim (a.connection.connector_class) [
  | none ↦ some none
  | some cls ↦ elim (capability_of a.action cls.outbound_actions) [
    | none ↦ none
    | some capability ↦ some (some capability)
  ]
]

unfoldable pub recorded : Attempt → OutboundRequest × Bool → Site → OutboundRequest × Site
recorded a (request, is_called) site = (
  request,
  record site {
    requests = request ∷ site.requests;
    performed = if is_called then (a.connection.id, a.action) ∷ site.performed else site.performed;
  },
)

-- `send`, with what the connector answers if it is called; `none` is a `ValueError`.
unfoldable pub send : Performed → Site → Attempt → Option (OutboundRequest × Site)
unfolding looked_up
send answer site a = elim (looked_up a) [
  | none ↦ none
  | some capability ↦
      let code = evaluate site capability a in
      some (recorded a (decided code answer (blank capability code a)) site)
]
