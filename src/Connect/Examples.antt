-- ===== src/Connect/Examples.antt =====
-- One connection to a mailbox, which the tests of syncs and webhooks share.
use open_immigration_crm.Prelude.{[], ◌∷◌, Option, none, some, true, false, Text, codes}
use open_immigration_crm.Connect.Records.{
  Capability, ConnectionStatus, Scope, SecretSource, Connector, Connection, User,
}

abbrev pub mail : Connector
mail = record {
  name = codes "Mail";
  capabilities = Capability.mailbox ∷ Capability.calendar ∷ [];
  auth_fields = none;
  settings_fields = [];
  connection_scope = Scope.firm;
  outbound_actions = (codes "send_email", Capability.mailbox) ∷ [];
  owner_sync_actions = [];
  data_flows_version = 1;
  sync_capabilities = Capability.mailbox ∷ Capability.calendar ∷ [];
  sync_interval = some 900;
  webhooks = some record {
    capabilities = Capability.mailbox ∷ [];
    secret_source = SecretSource.crm;
    register_label = [];
    ack_status = 200;
    ack_body = codes "ok";
  };
}

abbrev pub connection_with : ConnectionStatus → Option Text → Option Text → Connection
connection_with status hash secret = record {
  id = 4;
  connector_class = some mail;
  owner = none;
  status = status;
  enabled_capabilities = Capability.mailbox ∷ [];
  credentials = some [];
  config = [];
  granted_scopes = [];
  preview_mode = true;
  outbound_admin_only = false;
  data_flows_version = some 1;
  data_flows_acknowledged_by = some 2;
  data_flows_acknowledged_at = some 5;
  last_success_at = none;
  last_error_at = none;
  last_error = [];
  webhook_token_hash = hash;
  webhook_secret = secret;
  created_by = none;
}

abbrev pub staff : User
staff = record { id = 2; is_staff = true; manages_connections = false }
