-- ===== src/Connect/Webhooks/Repeats.antt =====
-- A request to `receive_webhook` of crm/connect/views.py that comes twice, at once.
use open_immigration_crm.Prelude.{
  ℕ, ◌≡◌, inl, inr, refl, sym, ap, ◌∙◌, some, Option-cases, not, ◌||◌, ==_refl, ltb, find, any,
  length, Text, text_eq_refl, is_empty, take, codes, Bool-cases,
}
use open_immigration_crm.Connect.Records.{Capability, WebhookSpec, Connection}
use open_immigration_crm.Connect.Webhooks.{
  Hooks, HttpRequest, Parsed, envelope, malformed, raised, Methods, Response, plain, has_hash,
  webhooks_of, or_blank, is_repeat, new_event, store, accepted, admit, is_post, malformed_event,
  receive_at, receive_webhook,
}

store_twice :
    (connection : ℕ) (event_id : Text) (c : Capability) (payload : Text) (hooks : Hooks)
    → store connection event_id c payload (store connection event_id c payload hooks)
      ≡ store connection event_id c payload hooks
unfolding store new_event is_repeat
store_twice connection event_id c payload hooks =
    elim (Bool-cases (any (is_repeat connection event_id) hooks.events)) [
      | inl e ↦ rw (e, store) (rw (e, store) refl)
      | inr e ↦ rw (e, store) (rw (==_refl connection, text_eq_refl event_id, store) refl)
    ]

store-connections :
    (connection : ℕ) (event_id : Text) (c : Capability) (payload : Text) (hooks : Hooks)
    → (store connection event_id c payload hooks).connections ≡ hooks.connections
unfolding store
store-connections connection event_id c payload hooks =
    elim (Bool-cases (any (is_repeat connection event_id) hooks.events)) [
      | inl e ↦ rw (e, store) refl
      | inr e ↦ rw (e, store) refl
    ]

-- A handler that answers, and at most stores one event.
data IsAnswer (handler : Hooks → Response × Hooks) : Type 0 where
  only : (r : Response) → ((hooks : Hooks) → handler hooks ≡ (r, hooks)) → IsAnswer handler
  storing :
      (r : Response) (connection : ℕ) (event_id : Text) (c : Capability) (payload : Text)
      → ((hooks : Hooks) → handler hooks ≡ (r, store connection event_id c payload hooks))
      → IsAnswer handler

handler_twice :
    (handler : Hooks → Response × Hooks)
    → IsAnswer handler
    → (hooks : Hooks) → handler (handler hooks).1 ≡ handler hooks
handler_twice handler (only r same) hooks = ap (λ (a : Response × Hooks). handler a.1) (same hooks)
handler_twice handler (storing r connection event_id c payload same) hooks =
    ap (λ (a : Response × Hooks). handler a.1) (same hooks)
    ∙ same (store connection event_id c payload hooks)
    ∙ ap (λ h. (r, h)) (store_twice connection event_id c payload hooks)
    ∙ sym (same hooks)

IsAnswer-connections :
    (handler : Hooks → Response × Hooks)
    → IsAnswer handler
    → (hooks : Hooks) → (handler hooks).1.connections ≡ hooks.connections
IsAnswer-connections handler (only r same) hooks =
    ap (λ (a : Response × Hooks). a.1.connections) (same hooks)
IsAnswer-connections handler (storing r connection event_id c payload same) hooks =
    ap (λ (a : Response × Hooks). a.1.connections) (same hooks)
    ∙ store-connections connection event_id c payload hooks

admit-IsAnswer :
    (connection : Connection) (spec : WebhookSpec) (p : Parsed) → IsAnswer (admit connection spec p)
unfolding admit
admit-IsAnswer connection spec raised = only _ (λ hooks. refl)
admit-IsAnswer connection spec malformed = only _ (λ hooks. refl)
admit-IsAnswer connection spec (envelope e) = elim (Option-cases (accepted spec e)) [
  | inl a ↦ only malformed_event (λ hooks. rw (a, admit) refl)
  | inr (c, a) ↦
      storing (plain spec.ack_status spec.ack_body) connection.id (take 255 e.event_id) c e.payload
        (λ hooks. rw (a, admit) refl)
]

module _ (methods : Methods) (max_bytes : ℕ) (request : HttpRequest) where
  receive_at-IsAnswer :
      (connection : Connection) (spec : WebhookSpec)
      → IsAnswer (receive_at methods max_bytes request connection spec)
  unfolding receive_at
  receive_at-IsAnswer connection spec = elim (Bool-cases (ltb max_bytes (length request.body))) [
    | inl e ↦ only (plain 413 (codes "too large")) (λ hooks. rw (e, receive_at) refl)
    | inr e ↦ elim (Option-cases (methods.webhook_challenge connection request)) [
      | inr ((status, text), f) ↦ only (plain status text) (λ hooks. rw (e, f, receive_at) refl)
      | inl f ↦ elim (Bool-cases (is_post request.method)) [
        | inr g ↦
            only (plain 405 (codes "method not allowed")) (λ hooks. rw (e, f, g, receive_at) refl)
        | inl g ↦
            let secret = or_blank connection.webhook_secret in
            elim (Bool-cases
              (is_empty secret || not (methods.verify_webhook connection request secret))) [
                | inl v ↦
                    only (plain 401 (codes "invalid signature"))
                      (λ hooks. rw (e, f, g, v, receive_at) refl)
                | inr v ↦
                    elim (admit-IsAnswer connection spec
                      (methods.parse_webhook connection request)) [
                        | only r same ↦ only r (λ hooks. rw (e, f, g, v, receive_at) (same hooks))
                        | storing r a b c d same ↦
                            storing r a b c d (λ hooks. rw (e, f, g, v, receive_at) (same hooks))
                      ]
              ]
      ]
    ]
  ]

  pub reached :
      (token : Text) (connection : Connection) (spec : WebhookSpec) (hooks : Hooks)
      → find (has_hash (methods.sha256 token)) hooks.connections ≡ some connection
      → webhooks_of connection ≡ some spec
      → receive_webhook methods max_bytes request token hooks
        ≡ receive_at methods max_bytes request connection spec hooks
  unfolding receive_webhook
  reached token connection spec hooks e f = rw (e, f, receive_webhook) refl

-- A request that comes again at once gets the same answer, and the second one changes nothing.
pub receive_webhook_twice :
    (methods : Methods) (max_bytes : ℕ) (request : HttpRequest) (token : Text) (hooks : Hooks)
    → receive_webhook methods max_bytes request token
        (receive_webhook methods max_bytes request token hooks).1
      ≡ receive_webhook methods max_bytes request token hooks
unfolding receive_webhook
receive_webhook_twice methods max_bytes request token hooks =
    elim (Option-cases (find (has_hash (methods.sha256 token)) hooks.connections)) [
      | inl e ↦
          let first : receive_webhook methods max_bytes request token hooks
              ≡ (plain 404 (codes "not found"), hooks) =
            rw (e, receive_webhook) refl in
          ap (λ (a : Response × Hooks). receive_webhook methods max_bytes request token a.1) first
      | inr (connection, e) ↦ elim (Option-cases (webhooks_of connection)) [
        | inl f ↦
            let first : receive_webhook methods max_bytes request token hooks
                ≡ (plain 404 (codes "not found"), hooks) =
              rw (e, f, receive_webhook) refl in
            ap (λ (a : Response × Hooks). receive_webhook methods max_bytes request token a.1) first
        | inr (spec, f) ↦
            let handler = receive_at methods max_bytes request connection spec in
            let answer = receive_at-IsAnswer methods max_bytes request connection spec in
            let first = reached methods max_bytes request token connection spec hooks e f in
            let after = (handler hooks).1 in
            let known : find (has_hash (methods.sha256 token)) after.connections ≡ some connection =
              ap (find (has_hash (methods.sha256 token)))
                (IsAnswer-connections handler answer hooks)
              ∙ e in
            ap (λ (a : Response × Hooks). receive_webhook methods max_bytes request token a.1) first
            ∙ reached methods max_bytes request token connection spec after known f
            ∙ handler_twice handler answer hooks
            ∙ sym first
      ]
    ]
