-- ===== src/Connect/Services.antt =====
-- Connections as staff make, check, use and end them, after crm/connect/services.py.
pub mod Ended
use open_immigration_crm.Prelude.{
  ℕ, ◌+◌, List, [], ◌∷◌, ◌++◌, Option, none, some, Bool, true, false, not, ◌&&◌, ◌||◌, ◌==◌, any,
  select, map, Text, text_eq, is_empty, is_some, take, codes, Result, ok, err, if◌then◌else◌,
}
use open_immigration_crm.Connect.Records.{
  Capability, automation, storage, capability_eq, capability_of, enabled, ConnectionStatus, active,
  needs_attention, needs_reauth, disconnected, is_active, Scope, firm, user, CredentialField,
  SecretSource, crm, provider, credential, WebhookSpec, Dict, Connector, Connection, User,
}
use open_immigration_crm.Connect.Settings.{SettingError, get, get_or, clean_settings}
use open_immigration_crm.Connect.Policy.{same_key}
use open_immigration_crm.Connect.Syncs.{in_order}

-- The `ValidationError`s.
pub data ServiceError : Type 0 where
  no_connector choose_capabilities set_owner leave_owner_empty : ServiceError
  missing : (labels : List Text) → ServiceError
  bad_setting : SettingError → ServiceError
  not_installed no_webhooks paste_secret connect_again : ServiceError

pub data ConnectionAction : Type 0 where
  created acknowledged ended webhooks_enabled : ConnectionAction

-- The audit log's entries: who, what, which connection, and the detail.
abbrev pub AuditLog : Type 0
AuditLog = List (Option ℕ × (ConnectionAction × (ℕ × Text)))

-- `record_audit`
unfoldable pub record_audit : Option ℕ → ConnectionAction → Connection → Text → AuditLog → AuditLog
record_audit actor action connection detail log =
    log ++ (actor, (action, (connection.id, take 500 detail))) ∷ []

-- What `create_connection` is given.
pub record NewConnection : Type 0 where
  pub created_by : Option ℕ
  pub capabilities : List Capability
  pub credentials : Option Dict
  pub owner : Option ℕ
  pub config : Dict

-- `sorted(set(capabilities))`
unfoldable pub sorted_set : List Capability → List Capability
sorted_set capabilities = select (λ c. enabled c capabilities) in_order

-- Whether every one of the capabilities is among others.
unfoldable pub is_subset : List Capability → List Capability → Bool
is_subset capabilities others = not (any (λ c. not (enabled c others)) capabilities)

unfoldable pub or_no_dict : Option Dict → Dict
or_no_dict none = []
or_no_dict (some dict) = dict

-- The labels of the required credentials that are not given.
unfoldable pub missing_from : Dict → List CredentialField → List Text
missing_from credentials fields =
    map (λ (f : CredentialField). f.label)
      (select (λ (f : CredentialField). f.required && is_empty (get_or [] f.name credentials))
        fields)

unfoldable pub missing_labels : Connector → Option Dict → List Text
unfolding missing_from or_no_dict
missing_labels cls credentials = elim (cls.auth_fields) [
  | none ↦ []
  | some fields ↦ missing_from (or_no_dict credentials) fields
]

unfoldable pub is_user_scope : Scope → Bool
is_user_scope user = true
is_user_scope firm = false

-- The checks of `create_connection`, in order.
unfoldable pub creation_error : Connector → NewConnection → Option ServiceError
unfolding sorted_set is_subset is_user_scope missing_labels
creation_error cls new =
    let capabilities = sorted_set new.capabilities in
    let labels = missing_labels cls new.credentials in
    if is_empty capabilities || not (is_subset capabilities cls.capabilities)
    then some choose_capabilities
    else if is_user_scope cls.connection_scope && not (is_some new.owner)
    then some set_owner
    else if not (is_user_scope cls.connection_scope) && is_some new.owner
    then some leave_owner_empty
    else if not (is_empty labels)
    then some (missing labels)
    else none

-- `Connection.objects.create`, with a key.
unfoldable pub new_connection : ℕ → Connector → NewConnection → Dict → Connection
unfolding sorted_set
new_connection id cls new config = record {
  id = id;
  connector_class = some cls;
  owner = new.owner;
  status = active;
  enabled_capabilities = sorted_set new.capabilities;
  credentials = new.credentials;
  config = config;
  granted_scopes = [];
  preview_mode = true;
  outbound_admin_only = false;
  data_flows_version = none;
  data_flows_acknowledged_by = none;
  data_flows_acknowledged_at = none;
  last_success_at = none;
  last_error_at = none;
  last_error = [];
  webhook_token_hash = none;
  webhook_secret = none;
  created_by = new.created_by;
}

-- `create_connection`, of the connector that the registry gives.
unfoldable pub create_connection :
    ℕ → Option Connector → NewConnection → AuditLog → Result ServiceError (Connection × AuditLog)
unfolding creation_error new_connection
create_connection id none new log = err no_connector
create_connection id (some cls) new log = elim (creation_error cls new) [
  | some error ↦ err error
  | none ↦ elim (clean_settings cls.settings_fields new.config) [
    | err error ↦ err (bad_setting error)
    | ok config ↦
        let connection = new_connection id cls new config in
        ok (connection, record_audit new.created_by created connection cls.name log)
  ]
]

-- `acknowledge_data_flows`; the detail is the version's text, which is given.
unfoldable pub acknowledge_data_flows :
    ℕ → ℕ → Text → Connection → AuditLog → Result ServiceError (Connection × AuditLog)
unfolding record_audit
acknowledge_data_flows actor now detail connection log = elim (connection.connector_class) [
  | none ↦ err not_installed
  | some cls ↦ ok (
    record connection {
      data_flows_version = some cls.data_flows_version;
      data_flows_acknowledged_by = some actor;
      data_flows_acknowledged_at = some now;
    },
    record_audit (some actor) acknowledged connection detail log,
  )
]

-- What a connector's own call does: it works, or raises a `ConnectorError`.
pub data Call : Type 0 where
  worked : Call
  refused : (text : Text) → Call

-- `check_connection`
unfoldable pub check_connection : Call → ℕ → Connection → Result ServiceError (Connection × Bool)
check_connection call now connection =
    if not (is_some connection.connector_class) then err not_installed else elim call [
      | refused text ↦ ok (
        record connection {
          status = needs_attention;
          last_error_at = some now;
          last_error = take 500 text;
        },
        false,
      )
      | worked ↦
          ok (
            record connection { status = active; last_success_at = some now; last_error = [] },
            true,
          )
    ]

unfoldable pub revoke_note : Option Connector → Call → Text
revoke_note none call = []
revoke_note (some cls) worked = []
revoke_note (some cls) (refused text) = codes "Provider revocation failed: " ++ take 200 text

-- `disconnect`
unfoldable pub disconnect : Option ℕ → Call → Connection → AuditLog → Connection × AuditLog
unfolding record_audit revoke_note
disconnect actor call connection log =
    let after = record connection {
      credentials = none;
      granted_scopes = [];
      webhook_token_hash = none;
      webhook_secret = none;
      status = disconnected;
    } in
    (after, record_audit actor ended after (revoke_note connection.connector_class call) log)
