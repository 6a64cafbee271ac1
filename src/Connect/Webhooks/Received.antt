-- ===== src/Connect/Webhooks/Received.antt =====
-- What `receive_webhook` lets into the tables.
use mathlib.Core.Path.{subst}
use open_immigration_crm.Prelude.{
  ℕ, ◌+◌, ◌≡◌, ◌≤◌, ◌⊎◌, inl, inr, refl, sym, ap, ◌∙◌, [], ◌∷◌, ◌++◌, some, Option-cases, true,
  false, not, ◌||◌, ltb, find, any, length, Text, is_empty, take, Bool-cases, arith,
}
use open_immigration_crm.Connect.Records.{Capability, WebhookSpec, Connection}
use open_immigration_crm.Connect.Webhooks.{
  Hooks, HttpRequest, WebhookEnvelope, Parsed, envelope, malformed, raised, Methods, Response,
  has_hash, webhooks_of, or_blank, is_repeat, new_event, store, accepted, admit, is_post,
  receive_at, receive_webhook,
}

-- The tables after a new event is stored and its job is queued, and what is known of the event.
pub record IsAdmitted (methods : Methods) (max_bytes : ℕ) (request : HttpRequest)
    (connection : Connection) (spec : WebhookSpec) (hooks after : Hooks) : Type 0 where
  pub sent : WebhookEnvelope
  pub capability : Capability
  pub fits : length request.body ≤ max_bytes
  pub posted : is_post request.method ≡ true
  pub has_secret : is_empty (or_blank connection.webhook_secret) ≡ false
  pub signed : methods.verify_webhook connection request (or_blank connection.webhook_secret) ≡ true
  pub parsed : methods.parse_webhook connection request ≡ envelope sent
  pub for_it : accepted spec sent ≡ some capability
  pub is_new : any (is_repeat connection.id (take 255 sent.event_id)) hooks.events ≡ false
  pub stored : after ≡ record hooks {
    events =
        new_event connection.id (take 255 sent.event_id) capability sent.payload hooks
        ∷ hooks.events;
    enqueued = hooks.enqueued ++ hooks.next_id ∷ [];
    next_id = hooks.next_id + 1;
  }

module _ (methods : Methods) (max_bytes : ℕ) (request : HttpRequest) where
  IsSafe : Connection → WebhookSpec → Hooks → Hooks → Type 0
  IsSafe connection spec hooks after =
      (after ≡ hooks) ⊎ IsAdmitted methods max_bytes request connection spec hooks after

  admit-IsSafe :
      (connection : Connection) (spec : WebhookSpec) (hooks : Hooks)
      → length request.body ≤ max_bytes
      → is_post request.method ≡ true
      → is_empty (or_blank connection.webhook_secret) ≡ false
      → methods.verify_webhook connection request (or_blank connection.webhook_secret) ≡ true
      → (p : Parsed) → methods.parse_webhook connection request ≡ p
      → IsSafe connection spec hooks (admit connection spec p hooks).1
  unfolding IsSafe admit store
  admit-IsSafe connection spec hooks fits posted secret signed raised parsed = inl refl
  admit-IsSafe connection spec hooks fits posted secret signed malformed parsed = inl refl
  admit-IsSafe connection spec hooks fits posted secret signed (envelope e) parsed =
      elim (Option-cases (accepted spec e)) [
        | inl a ↦ inl (rw (a, admit) refl)
        | inr (capability, a) ↦
            elim (Bool-cases (any (is_repeat connection.id (take 255 e.event_id)) hooks.events)) [
              | inl b ↦ inl (rw (a, b, admit, store) refl)
              | inr b ↦ inr record {
                sent = e;
                capability = capability;
                fits = fits;
                posted = posted;
                has_secret = secret;
                signed = signed;
                parsed = parsed;
                for_it = a;
                is_new = b;
                stored = rw (a, b, admit, store) refl;
              }
            ]
      ]

  receive_at-IsSafe :
      (connection : Connection) (spec : WebhookSpec) (hooks : Hooks)
      → IsSafe connection spec hooks (receive_at methods max_bytes request connection spec hooks).1
  unfolding IsSafe receive_at
  receive_at-IsSafe connection spec hooks =
      elim (Bool-cases (ltb max_bytes (length request.body))) [
        | inl e ↦ inl (rw (e, receive_at) refl)
        | inr e ↦ elim (Option-cases (methods.webhook_challenge connection request)) [
          | inr (answer, f) ↦ inl (rw (e, f, receive_at) refl)
          | inl f ↦ elim (Bool-cases (is_post request.method)) [
            | inr g ↦ inl (rw (e, f, g, receive_at) refl)
            | inl g ↦
                let secret = or_blank connection.webhook_secret in
                elim (Bool-cases
                  (is_empty secret || not (methods.verify_webhook connection request secret))) [
                    | inl v ↦ inl (rw (e, f, g, v, receive_at) refl)
                    | inr v ↦
                        let reached : receive_at methods max_bytes request connection spec hooks
                            ≡ admit connection spec (methods.parse_webhook connection request)
                                hooks =
                          rw (e, f, g, v, receive_at) refl in
                        subst (λ (r : Response × Hooks). IsSafe connection spec hooks r.1)
                          (sym reached)
                          (admit-IsSafe connection spec hooks (ground (arith, e)) g
                            (ground (arith, v)) (ground (arith, v))
                            (methods.parse_webhook connection request) refl)
                  ]
          ]
        ]
      ]

-- A request changes the tables only by one new event with its job: a POST to the address of a
-- connection that is active or needs attention, no larger than allowed, signed with the connection's
-- secret, which parses into an event for one of the connector's capabilities that is not stored yet.
pub receive_webhook-IsAdmitted :
    (methods : Methods) (max_bytes : ℕ) (request : HttpRequest) (token : Text) (hooks : Hooks)
    → ((receive_webhook methods max_bytes request token hooks).1 ≡ hooks)
      ⊎ ((connection : Connection) × ((spec : WebhookSpec) × ((find
                  (has_hash (methods.sha256 token))
                  hooks.connections
                ≡ some connection)
              × ((webhooks_of connection ≡ some spec)
                  × IsAdmitted methods max_bytes request connection spec hooks
                      (receive_webhook methods max_bytes request token hooks).1))))
unfolding receive_webhook IsSafe
receive_webhook-IsAdmitted methods max_bytes request token hooks =
    elim (Option-cases (find (has_hash (methods.sha256 token)) hooks.connections)) [
      | inl e ↦ inl (rw (e, receive_webhook) refl)
      | inr (connection, e) ↦ elim (Option-cases (webhooks_of connection)) [
        | inl f ↦ inl (rw (e, f, receive_webhook) refl)
        | inr (spec, f) ↦
            let reached : receive_webhook methods max_bytes request token hooks
                ≡ receive_at methods max_bytes request connection spec hooks =
              rw (e, f, receive_webhook) refl in
            elim (receive_at-IsSafe methods max_bytes request connection spec hooks) [
              | inl same ↦ inl (ap (λ (r : Response × Hooks). r.1) reached ∙ same)
              | inr h ↦ inr (
                connection,
                (
                  spec,
                  (
                    e,
                    (
                      f,
                      subst
                          (λ (r : Response × Hooks).
                            IsAdmitted methods max_bytes request connection spec hooks r.1)
                          (sym reached) h,
                    ),
                  ),
                ),
              )
            ]
      ]
    ]
