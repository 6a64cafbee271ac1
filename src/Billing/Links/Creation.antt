-- ===== src/Billing/Links/Creation.antt =====
-- Links that a processor makes: the rest of crm/billing/links.py, on top of the outbound policy.
pub mod Later
pub mod Permitted
pub mod Backed
use open_immigration_crm.Prelude.{
  ℕ, List, [], ◌∷◌, ◌++◌, Option, none, some, Bool, true, false, not, ◌&&◌, any, select, map, ℤ,
  Text, codes, text_eq, take, is_empty, is_some, Result, ok, err, if◌then◌else◌,
}
use open_immigration_crm.Connect.Records.{
  payments, capability_eq, capability_of, enabled, is_active, is_sent, failed, other, Connection,
  User,
}
use open_immigration_crm.Connect.Policy.{
  Site, Attempt, OutboundRequest, Performed, replied_text, send,
}
use open_immigration_crm.Billing.Records.{Account, PaymentLink, Invoice, account_eq}
use open_immigration_crm.Billing.Links.{amounts_due, links_needed, eq_ℤ}

-- `CREATE_PAYMENT_LINK`
unfoldable pub create_payment_link : Text
create_payment_link = codes "create_payment_link"

-- `link_connections`
unfoldable pub is_link_connection : Connection → Bool
unfolding create_payment_link
is_link_connection connection = elim (connection.connector_class) [
  | none ↦ false
  | some cls ↦
      is_active connection.status
      && not (is_some connection.owner)
      && enabled payments connection.enabled_capabilities
      && elim (capability_of create_payment_link cls.outbound_actions) [
        | none ↦ false
        | some c ↦ capability_eq c payments
      ]
]

unfoldable pub link_connections : List Connection → List Connection
unfolding is_link_connection
link_connections connections = select is_link_connection connections

unfoldable pub amount_for : Account → List (Account × ℤ) → Option ℤ
unfolding account_eq
amount_for account [] = none
amount_for account ((a, amount) ∷ due) =
    if account_eq a account then some amount else amount_for account due

-- `current_links`: each link with whether it still asks for what is owed.
unfoldable pub current_links : Invoice → List (PaymentLink × Bool)
unfolding amount_for eq_ℤ
current_links invoice =
    map
      (λ (link : PaymentLink). (
        link,
        elim (amount_for link.deposit_account (amounts_due invoice)) [
          | none ↦ false
          | some amount ↦ eq_ℤ amount link.amount
        ],
      ))
      invoice.links

-- `account in served`
unfoldable pub is_served : List Account → Account → Bool
unfolding account_eq
is_served served account = any (account_eq account) served

-- `unserved`, with what `deposit_accounts` of the connector says, or nothing without one.
unfoldable pub unserved : List Account → Invoice → List Account
unfolding is_served
unserved served invoice =
    select (λ account. not (is_served served account))
      (map (λ (d : Account × ℤ). d.0) (links_needed invoice))

-- `url.startswith("https://")`
unfoldable pub is_https : Text → Bool
is_https url = text_eq (take 8 url) (codes "https://")

-- `request.result`, of a request that was sent.
unfoldable pub result_of : Performed → Text
result_of (replied_text text) = text
result_of _ = []

-- The request when the processor's answer is no HTTPS address.
unfoldable pub not_a_link : OutboundRequest → OutboundRequest
not_a_link request = record request {
  status = failed;
  error = codes "The processor did not return an HTTPS link.";
}

-- The newest request, saved again.
unfoldable pub save_newest : OutboundRequest → Site → Site
save_newest request site = record site {
  requests = elim (site.requests) [ [] ↦ [] | ◌∷◌ r rs ↦ request ∷ rs ];
}

unfoldable pub link_of : Connection → Option User → Account → ℤ → Text → PaymentLink
link_of connection actor account amount url = record {
  deposit_account = account;
  amount = amount;
  url = url;
  source_connection = some connection.id;
  created_by = elim actor [ none ↦ none | some user ↦ some user.id ];
}

-- The call of `send` for one link. An invoice is assigned to nobody.
unfoldable pub link_attempt : Connection → Option User → ℕ → Attempt
unfolding create_payment_link
link_attempt connection actor now = record {
  connection = connection;
  action = create_payment_link;
  actor = actor;
  is_automation = false;
  target = some (other none);
  now = now;
  saved_at = now;
}

-- What is done with the request of one link.
unfoldable pub keep_link :
    Connection
    → Option User
    → Account
    → ℤ
    → Text
    → OutboundRequest
    → Invoice × Site
    → OutboundRequest × (Invoice × Site)
unfolding is_https not_a_link save_newest link_of
keep_link connection actor account amount url request (invoice, site) =
    if is_sent request.status
    then if is_https url
      then (
        request,
        (
          record invoice {
            links = invoice.links ++ link_of connection actor account amount url ∷ [];
          },
          site,
        ),
      )
      else (not_a_link request, (invoice, save_newest (not_a_link request) site))
    else (request, (invoice, site))

-- The `ValidationError`s of `create_links`, and the `ValueError` of `send`.
pub data LinkError : Type 0 where
  nothing_due links_exist not_served no_action : LinkError

-- The loop of `create_links`, with what the connector answers for each account.
unfoldable pub create_each :
    (Account → Performed)
    → Connection
    → Option User
    → ℕ
    → List (Account × ℤ)
    → Invoice × Site
    → Result LinkError (List OutboundRequest × (Invoice × Site))
unfolding link_attempt keep_link result_of
create_each answers connection actor now [] state = ok ([], state)
create_each answers connection actor now ((account, amount) ∷ due) (invoice, site) =
    elim (send (answers account) site (link_attempt connection actor now)) [
      | none ↦ err no_action
      | some (request, after) ↦
          let (kept, state) =
            keep_link connection actor account amount (result_of (answers account)) request
              (invoice, after) in
          elim (create_each answers connection actor now due state) [
            | err e ↦ err e
            | ok (requests, last) ↦ ok (kept ∷ requests, last)
          ]
    ]

-- `create_links`
unfoldable pub create_links :
    (Account → Performed)
    → List Account
    → Connection
    → Option User
    → ℕ
    → Invoice × Site
    → Result LinkError (List OutboundRequest × (Invoice × Site))
unfolding is_served create_each
create_links answers served connection actor now (invoice, site) =
    let due = links_needed invoice in
    let asked = select (λ (d : Account × ℤ). is_served served d.0) due in
    if is_empty (amounts_due invoice)
    then err nothing_due
    else if is_empty due
    then err links_exist
    else if is_empty asked
    then err not_served
    else create_each answers connection actor now asked (invoice, site)
