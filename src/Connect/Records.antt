-- ===== src/Connect/Records.antt =====
-- Connections and their connectors, after crm/connect/models.py and crm/connect/base.py. Keys,
-- users and moments (in seconds) are numbers; action names are texts.
use open_immigration_crm.Prelude.{
  ℕ, List, [], ◌∷◌, Option, none, some, Bool, true, false, ◌==◌, leb, any, Text, text_eq,
}

-- `Capability`
pub data Capability : Type 0 where
  phone texting mailbox system_email calendar scheduling video payments : Capability
  accounting storage esignature ai_models translation legal_research : Capability
  case_status shipping lead_capture marketing sign_in migration automation : Capability

unfoldable pub tag : Capability → ℕ
tag phone = 0
tag texting = 1
tag mailbox = 2
tag system_email = 3
tag calendar = 4
tag scheduling = 5
tag video = 6
tag payments = 7
tag accounting = 8
tag storage = 9
tag esignature = 10
tag ai_models = 11
tag translation = 12
tag legal_research = 13
tag case_status = 14
tag shipping = 15
tag lead_capture = 16
tag marketing = 17
tag sign_in = 18
tag migration = 19
tag automation = 20

unfoldable pub capability_eq : Capability → Capability → Bool
unfolding tag
capability_eq a b = tag a == tag b

-- `Connection.Status`
pub data ConnectionStatus : Type 0 where
  active needs_attention needs_reauth paused disconnected : ConnectionStatus

unfoldable pub is_active : ConnectionStatus → Bool
is_active active = true
is_active _ = false

-- `ConnectionScope`
pub data Scope : Type 0 where
  firm user : Scope

-- `CredentialField`
pub record CredentialField : Type 0 where
  pub name : Text
  pub label : Text
  pub required : Bool

-- `SettingField`; a field with live options, or with several values, is checked elsewhere. What
-- `validate` raises is an option.
pub record SettingField : Type 0 where
  pub name : Text
  pub label : Text
  pub choices : List (Text × Text)
  pub default : Text
  pub required : Bool
  pub validate : Text → Option Text
  pub is_live : Bool

-- `secret_source` of `WebhookSpec`
pub data SecretSource : Type 0 where
  crm provider : SecretSource
  credential : (name : Text) → SecretSource

-- `WebhookSpec`
pub record WebhookSpec : Type 0 where
  pub capabilities : List Capability
  pub secret_source : SecretSource
  pub register_label : Text
  pub ack_status : ℕ
  pub ack_body : Text

-- The manifest of a connector. `auth_fields` are the fields of an `ApiKeyAuth`.
pub record Connector : Type 0 where
  pub name : Text
  pub capabilities : List Capability
  pub auth_fields : Option (List CredentialField)
  pub settings_fields : List SettingField
  pub connection_scope : Scope
  pub outbound_actions : List (Text × Capability)
  pub owner_sync_actions : List Text
  pub data_flows_version : ℕ
  pub sync_capabilities : List Capability
  pub sync_interval : Option ℕ
  pub webhooks : Option WebhookSpec

-- A dictionary of texts, as `credentials` and `config` are kept.
abbrev pub Dict : Type 0
Dict = List (Text × Text)

pub record Connection : Type 0 where
  pub id : ℕ
  -- `registry.get(connector_key)`
  pub connector_class : Option Connector
  pub owner : Option ℕ
  pub status : ConnectionStatus
  pub enabled_capabilities : List Capability
  pub credentials : Option Dict
  pub config : Dict
  pub granted_scopes : List Text
  pub preview_mode : Bool
  pub outbound_admin_only : Bool
  pub data_flows_version : Option ℕ
  pub data_flows_acknowledged_by : Option ℕ
  pub data_flows_acknowledged_at : Option ℕ
  pub last_success_at : Option ℕ
  pub last_error_at : Option ℕ
  pub last_error : Text
  pub webhook_token_hash : Option Text
  pub webhook_secret : Option Text
  pub created_by : Option ℕ

-- `Connection.data_flows_acknowledged`
unfoldable pub data_flows_acknowledged : Connection → Bool
data_flows_acknowledged connection = elim (connection.connector_class) [
  | none ↦ false
  | some cls ↦ elim (connection.data_flows_version) [
    | none ↦ false
    | some version ↦ leb cls.data_flows_version version
  ]
]

-- `OutboundRequest.Status`
pub data RequestStatus : Type 0 where
  sent previewed blocked failed : RequestStatus

unfoldable pub is_sent : RequestStatus → Bool
is_sent sent = true
is_sent _ = false

-- A user, with what `is_staff` of crm/roles.py and `has_perm(MANAGE_CONNECTIONS)` say of them.
pub record User : Type 0 where
  pub id : ℕ
  pub is_staff : Bool
  pub manages_connections : Bool

-- What an action is about: a contact, a record with a primary contact, or another record; each with
-- its `assigned_to_id`, and a contact with its `texting_opted_out_at`.
pub data Target : Type 0 where
  contact : (assigned_to opted_out_at : Option ℕ) → Target
  matter : (assigned_to contact_opted_out_at : Option ℕ) → Target
  other : (assigned_to : Option ℕ) → Target

-- `outbound_actions.get(action)`
unfoldable pub capability_of : Text → List (Text × Capability) → Option Capability
capability_of action [] = none
capability_of action ((name, capability) ∷ actions) = elim (text_eq name action) [
  | true ↦ some capability
  | false ↦ capability_of action actions
]

unfoldable pub enabled : Capability → List Capability → Bool
unfolding capability_eq
enabled capability capabilities = any (capability_eq capability) capabilities

unfoldable pub is_previewed : RequestStatus → Bool
is_previewed previewed = true
is_previewed _ = false

unfoldable pub is_failed : RequestStatus → Bool
is_failed failed = true
is_failed _ = false

-- `mark_connection` of crm/connect/tasks.py; the empty error marks a success.
unfoldable pub mark_connection : Connection → ℕ → Text → Connection
mark_connection connection now [] = record connection { last_success_at = some now }
mark_connection connection now (c ∷ error) = record connection {
  last_error_at = some now;
  last_error = c ∷ error;
}
