-- ===== src/Connect/Access.antt =====
-- Who sees, manages and uses which connections, what the CRM warns of, and turning webhooks on,
-- after crm/connect/services.py.
pub mod Usable
pub mod Addressed
use open_immigration_crm.Prelude.{
  ℕ, List, [], ◌∷◌, Option, none, some, Bool, true, false, not, ◌&&◌, ◌||◌, any, select, Text,
  is_empty, is_some, Result, ok, err, if◌then◌else◌,
}
use open_immigration_crm.Connect.Records.{
  Capability, automation, storage, capability_eq, capability_of, enabled, ConnectionStatus, active,
  needs_attention, needs_reauth, disconnected, is_active, SecretSource, crm, provider, credential,
  WebhookSpec, Connector, Connection, User,
}
use open_immigration_crm.Connect.Settings.{get_or}
use open_immigration_crm.Connect.Policy.{same_key}
use open_immigration_crm.Connect.Services.{
  ServiceError, no_webhooks, paste_secret, connect_again, AuditLog, webhooks_enabled, record_audit,
  or_no_dict,
}

unfoldable pub is_provider : SecretSource → Bool
is_provider provider = true
is_provider _ = false

-- The secret that `enable_webhooks` is given or finds among the credentials.
unfoldable pub given_secret : SecretSource → Text → Connection → Text
given_secret (credential name) secret connection =
    get_or [] name (or_no_dict connection.credentials)
given_secret _ secret connection = secret

unfoldable pub is_credential : SecretSource → Bool
is_credential (credential name) = true
is_credential _ = false

-- `enable_webhooks`, with the digest and the two random texts; it returns the token and the secret.
unfoldable pub enable_webhooks :
    (sha256 : Text → Text) (token random : Text)
    → Option ℕ
    → (provider_secret : Text) → (registering : Bool) → Connection
    → AuditLog
    → Result ServiceError ((Text × Text) × (Connection × AuditLog))
unfolding is_provider given_secret is_credential record_audit
enable_webhooks sha256 token random actor provider_secret registering connection log =
    elim (connection.connector_class) [
      | none ↦ err no_webhooks
      | some cls ↦ elim (cls.webhooks) [
        | none ↦ err no_webhooks
        | some spec ↦
            let registers = registering && not (is_empty spec.register_label) in
            let given = given_secret spec.secret_source provider_secret connection in
            let secret = if is_empty given then random else given in
            if is_provider spec.secret_source && is_empty provider_secret && not registers
            then err paste_secret
            else if is_credential spec.secret_source && is_empty given
            then err connect_again
            else ok (
              (token, secret),
              (
                record connection {
                  webhook_token_hash = some (sha256 token);
                  webhook_secret = some secret;
                },
                record_audit actor webhooks_enabled connection [] log,
              ),
            )
      ]
    ]

-- `can(user, MANAGE_CONNECTIONS)` of crm/roles.py
unfoldable pub can : User → Bool
can user = user.is_staff && user.manages_connections

unfoldable pub can_manage : User → Connection → Bool
unfolding can
can_manage user connection =
    can user || (is_some connection.owner && same_key connection.owner (some user.id))

-- `connection.owner_id in (None, user.pk)`
unfoldable pub is_firm_or_own : User → Connection → Bool
is_firm_or_own user connection =
    not (is_some connection.owner) || same_key connection.owner (some user.id)

-- `visible_connections`
unfoldable pub visible_connections : User → List Connection → List Connection
unfolding can is_firm_or_own
visible_connections user connections =
    if can user then connections else select (is_firm_or_own user) connections

-- `cls.outbound_actions.get(action) == capability`
unfoldable pub does : Text → Capability → Connector → Bool
does action capability cls = elim (capability_of action cls.outbound_actions) [
  | none ↦ false
  | some c ↦ capability_eq c capability
]

unfoldable pub is_usable : User → Text → Capability → Connection → Bool
unfolding does is_firm_or_own
is_usable user action capability connection = elim (connection.connector_class) [
  | none ↦ false
  | some cls ↦
      enabled capability connection.enabled_capabilities
      && does action capability cls
      && is_firm_or_own user connection
]

-- `usable_connections`
unfoldable pub usable_connections : User → Text → Capability → List Connection → List Connection
unfolding visible_connections is_usable
usable_connections user action capability connections =
    select (is_usable user action capability)
      (select (λ (c : Connection). is_active c.status) (visible_connections user connections))

-- `needs_worker`
unfoldable pub needs_worker : Connection → Bool
needs_worker connection = elim (connection.connector_class) [
  | none ↦ false
  | some cls ↦
      not (is_empty cls.sync_capabilities)
      || is_some cls.webhooks
      || not (is_empty cls.owner_sync_actions)
      || enabled automation cls.capabilities
      || enabled storage cls.capabilities
]

unfoldable pub is_disconnected : ConnectionStatus → Bool
is_disconnected disconnected = true
is_disconnected _ = false

unfoldable pub is_troubled : ConnectionStatus → Bool
is_troubled needs_attention = true
is_troubled needs_reauth = true
is_troubled _ = false

-- `connection_alerts`: the connections in trouble, and whether a worker is needed and none runs.
unfoldable pub connection_alerts : Bool → User → List Connection → List Connection × Bool
unfolding visible_connections is_disconnected is_troubled needs_worker
connection_alerts worker_is_running user connections =
    let shown =
      select (λ (c : Connection). not (is_disconnected c.status))
        (visible_connections user connections) in
    (
      select (λ (c : Connection). is_troubled c.status) shown,
      any (λ (c : Connection). is_active c.status && needs_worker c) shown && not worker_is_running,
    )
