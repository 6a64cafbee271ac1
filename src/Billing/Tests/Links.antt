-- ===== src/Billing/Tests/Links.antt =====
-- Payment links for an invoice that is paid in part.
use open_immigration_crm.Prelude.{[], ◌∷◌, none, some, true, false, ℤ, codes, select, IfOk}
use open_immigration_crm.Connect.Records.{Capability, ConnectionStatus, Scope, Connection, User}
use open_immigration_crm.Connect.Policy.{Site, Performed}
use open_immigration_crm.Billing.Records.{Account}
use open_immigration_crm.Billing.Links.{links_needed}
use open_immigration_crm.Billing.Links.Creation.{create_links, is_served}
use open_immigration_crm.Billing.Links.Creation.Backed.{Adds, create_links-Adds}
use open_immigration_crm.Billing.Tests.Schedules.{part_paid}

abbrev processor : Connection
processor = record {
  id = 3;
  connector_class = some record {
    name = codes "Processor";
    capabilities = Capability.payments ∷ [];
    auth_fields = none;
    settings_fields = [];
    connection_scope = Scope.firm;
    outbound_actions = (codes "create_payment_link", Capability.payments) ∷ [];
    owner_sync_actions = [];
    data_flows_version = 1;
    sync_capabilities = [];
    sync_interval = none;
    webhooks = none;
  };
  owner = none;
  status = ConnectionStatus.active;
  enabled_capabilities = Capability.payments ∷ [];
  credentials = none;
  config = [];
  granted_scopes = [];
  preview_mode = false;
  outbound_admin_only = false;
  data_flows_version = some 1;
  data_flows_acknowledged_by = none;
  data_flows_acknowledged_at = none;
  last_success_at = none;
  last_error_at = none;
  last_error = [];
  webhook_token_hash = none;
  webhook_secret = none;
  created_by = none;
}

abbrev accountant : User
accountant = record { id = 2; is_staff = true; manages_connections = false }

abbrev site : Site
site = record { outbound_enabled = true; hourly_limit = 9; requests = []; performed = [] }

create_links-Adds_example :
    IfOk
      (Adds
        (λ account. Performed.replied_text (codes "https://pay.test/1"))
        processor
        (some accountant)
        100
        (select
          (λ (d : Account × ℤ). is_served (Account.operating ∷ []) d.0)
          (links_needed part_paid))
        part_paid
        site)
      (create_links
        (λ account. Performed.replied_text (codes "https://pay.test/1"))
        (Account.operating ∷ [])
        processor
        (some accountant)
        100
        (part_paid, site))
create_links-Adds_example =
    create_links-Adds (λ account. Performed.replied_text (codes "https://pay.test/1")) processor
      (some accountant) 100 (Account.operating ∷ []) part_paid site
