-- ===== src/Connect/Access/Addressed.antt =====
-- The address that `enable_webhooks` gives out leads back to the connection.
use mathlib.Core.Path.{subst}
use open_immigration_crm.Prelude.{
  ℕ, ◌≡◌, ◌≤◌, inl, inr, refl, sym, ap, ◌∙◌, List, ◌∷◌, Option, none, some, Option-cases, Bool,
  true, false, not, ◌&&◌, Bool-cases, find, length, is_empty, Text, text_eq_refl, ltb, ok, IfOk,
  arith,
}
use open_immigration_crm.Connect.Records.{WebhookSpec, Connection}
use open_immigration_crm.Connect.Services.{AuditLog}
use open_immigration_crm.Connect.Webhooks.{
  Hooks, HttpRequest, Methods, has_hash, is_accepting, webhooks_of, or_blank, is_post, admit,
  receive_at, receive_webhook,
}
use open_immigration_crm.Connect.Webhooks.Repeats.{reached}
use open_immigration_crm.Connect.Access.{enable_webhooks, is_provider, is_credential, given_secret}

-- What a connection is after its webhooks were enabled.
pub record IsEnabled (sha256 : Text → Text) (token : Text) (connection : Connection)
    (given : Text × Text) (after : Connection) : Type 0 where
  pub gives_token : given.0 ≡ token
  pub secret_is : or_blank after.webhook_secret ≡ given.1
  pub has_secret : is_empty given.1 ≡ false
  pub hash_is : after.webhook_token_hash ≡ some (sha256 token)
  pub same_status : after.status ≡ connection.status
  pub spec : WebhookSpec
  pub receives : webhooks_of after ≡ some spec

enable_webhooks-IsEnabled :
    (sha256 : Text → Text) (token random : Text) (actor : Option ℕ) (provider_secret : Text)
    (registering : Bool) (connection : Connection) (log : AuditLog)
    → is_empty random ≡ false
    → IfOk
        (λ r. IsEnabled sha256 token connection r.0 r.1.0)
        (enable_webhooks sha256 token random actor provider_secret registering connection log)
unfolding enable_webhooks or_blank webhooks_of
enable_webhooks-IsEnabled sha256 token random actor provider_secret registering connection log
      long =
    elim (Option-cases (connection.connector_class)) [
      | inl e ↦ rw (e, enable_webhooks) tt
      | inr (cls, e) ↦ elim (Option-cases (cls.webhooks)) [
        | inl f ↦ rw (e, f, enable_webhooks) tt
        | inr (spec, f) ↦
            let registers = registering && not (is_empty spec.register_label) in
            let given = given_secret spec.secret_source provider_secret connection in
            elim (Bool-cases
              (is_provider spec.secret_source && is_empty provider_secret && not registers)) [
                | inl g ↦ rw (e, f, g, enable_webhooks) tt
                | inr g ↦ elim (Bool-cases (is_credential spec.secret_source && is_empty given)) [
                  | inl h ↦ rw (e, f, g, h, enable_webhooks) tt
                  | inr h ↦
                      rw (e, f, g, h, enable_webhooks)
                        (record {
                          gives_token = refl;
                          secret_is = refl;
                          has_secret = ground (arith, long);
                          hash_is = refl;
                          same_status = refl;
                          spec = spec;
                          receives = rw (e, webhooks_of) f;
                        })
                ]
              ]
      ]
    ]

has_own_hash :
    (hash : Text) (connection after : Connection)
    → after.webhook_token_hash ≡ some hash
    → after.status ≡ connection.status
    → is_accepting connection.status ≡ true
    → has_hash hash after ≡ true
unfolding has_hash
has_own_hash hash connection after e same accepting =
    rw (e, has_hash) (rw (text_eq_refl hash, same) accepting)

first_found :
    (test : Connection → Bool) (c : Connection) (cs : List Connection)
    → test c ≡ true
    → find test (c ∷ cs) ≡ some c
first_found test c cs e = rw e refl

judged :
    (methods : Methods) (max_bytes : ℕ) (request : HttpRequest) (c : Connection)
    (spec : WebhookSpec) (hooks : Hooks)
    → length request.body ≤ max_bytes
    → methods.webhook_challenge c request ≡ none
    → is_post request.method ≡ true
    → is_empty (or_blank c.webhook_secret) ≡ false
    → methods.verify_webhook c request (or_blank c.webhook_secret) ≡ true
    → receive_at methods max_bytes request c spec hooks
      ≡ admit c spec (methods.parse_webhook c request) hooks
unfolding receive_at
judged methods max_bytes request c spec hooks fits no_challenge posted secret signed =
    let small : ltb max_bytes (length request.body) ≡ false = ground (arith, fits) in
    rw (small, no_challenge, posted, secret, signed, receive_at) refl

-- Where the webhooks of a connection that takes events were enabled, a request that is posted to the
-- token that was given out, is no larger than allowed, is not a challenge and verifies with the secret
-- that was given out, is judged only by what it parses into.
pub receive_webhook-enable_webhooks :
    (methods : Methods) (token random : Text) (actor : Option ℕ) (provider_secret : Text)
    (registering : Bool) (connection : Connection) (log : AuditLog) (given : Text × Text)
    (after : Connection) (log' : AuditLog) (max_bytes : ℕ) (request : HttpRequest) (hooks : Hooks)
    (others : List Connection)
    → is_empty random ≡ false
    → enable_webhooks methods.sha256 token random actor provider_secret registering connection log
      ≡ ok (given, (after, log'))
    → is_accepting connection.status ≡ true
    → hooks.connections ≡ after ∷ others
    → length request.body ≤ max_bytes
    → methods.webhook_challenge after request ≡ none
    → is_post request.method ≡ true
    → methods.verify_webhook after request given.1 ≡ true
    → (spec : WebhookSpec) × (receive_webhook methods max_bytes request given.0 hooks
        ≡ admit after spec (methods.parse_webhook after request) hooks)
receive_webhook-enable_webhooks methods token random actor provider_secret registering connection
      log given after log' max_bytes request hooks others long returned accepting known fits
      no_challenge posted signed =
    let enabled : IsEnabled methods.sha256 token connection given after =
      subst (IfOk (λ r. IsEnabled methods.sha256 token connection r.0 r.1.0)) returned (
        enable_webhooks-IsEnabled methods.sha256 token random actor provider_secret registering
          connection log long) in
    let hash = has_hash (methods.sha256 given.0) in
    let own : hash after ≡ true =
      ap (λ t. has_hash (methods.sha256 t) after) enabled.gives_token
      ∙ has_own_hash (methods.sha256 token) connection after enabled.hash_is enabled.same_status
          accepting in
    let found : find hash hooks.connections ≡ some after =
      ap (find hash) known ∙ first_found hash after others own in
    (
      enabled.spec,
      reached methods max_bytes request given.0 after enabled.spec hooks found enabled.receives
          ∙ judged methods max_bytes request after enabled.spec hooks fits no_challenge posted
              (subst (λ t. is_empty t ≡ false) (sym enabled.secret_is) enabled.has_secret)
              (subst (λ t. methods.verify_webhook after request t ≡ true) (sym enabled.secret_is)
                signed),
    )
