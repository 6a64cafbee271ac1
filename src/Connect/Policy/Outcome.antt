-- ===== src/Connect/Policy/Outcome.antt =====
-- What crm/connect/policy.py `send` records and when it calls the connector.
use mathlib.Core.Path.{subst}
use open_immigration_crm.Prelude.{
  ◌∷◌, Option, some, Option-cases, false, ◌≡◌, ◌≢◌, ◌⊎◌, inl, inr, refl, arith,
}
use open_immigration_crm.Connect.Records.{Capability, sent, previewed, blocked, failed}
use open_immigration_crm.Connect.Policy.{
  Code, allowed, preview_mode, Site, Attempt, OutboundRequest, Performed, reason, evaluate, settle,
  blank, decided, looked_up, recorded, send,
}
use open_immigration_crm.Connect.Policy.Permission.{IsPermitted, IsPermitted-evaluate}

-- A new request is saved: it is about the attempt, with the action's capability and with the decision
-- of `evaluate`. The settings of the site stay.
pub record IsRecorded (site : Site) (a : Attempt) (request : OutboundRequest) (after : Site)
    : Type 0 where
  pub capability : Option Capability
  pub found : looked_up a ≡ some capability
  pub of_attempt :
      (request.connection ≡ a.connection.id)
      × ((request.action ≡ a.action) × (request.capability ≡ capability))
  pub decision : request.decision_code ≡ evaluate site capability a
  pub saved : after.requests ≡ request ∷ site.requests
  pub limits :
      (after.outbound_enabled ≡ site.outbound_enabled) × (after.hourly_limit ≡ site.hourly_limit)

-- The connector was called once, with every condition met, and the request says how it went.
pub record IsCalled (site : Site) (a : Attempt) (request : OutboundRequest) (after : Site)
    : Type 0 where
  pub made : IsRecorded site a request after
  pub permitted : IsPermitted site made.capability a
  pub over : (request.status ≡ sent) ⊎ (request.status ≡ failed)
  pub call : after.performed ≡ (a.connection.id, a.action) ∷ site.performed

-- No connector was called, and the request says why.
pub record IsHeld (site : Site) (a : Attempt) (request : OutboundRequest) (after : Site)
    : Type 0 where
  pub made : IsRecorded site a request after
  pub why :
      ((request.status ≡ previewed) × (request.decision_code ≡ preview_mode))
      ⊎ ((request.status ≡ blocked)
          × ((request.decision_code ≢ allowed) × (request.error ≡ reason request.decision_code)))
  pub no_call : after.performed ≡ site.performed

decided-allowed :
    (answer : Performed) (request : OutboundRequest)
    → ((decided allowed answer request).0.status ≡ sent)
      ⊎ ((decided allowed answer request).0.status ≡ failed)
unfolding decided settle
decided-allowed answer request = ground arith

decided-held :
    (code : Code) (answer : Performed) (capability : Option Capability) (a : Attempt)
    → code ≢ allowed
    → let held = (decided code answer (blank capability code a)).0 in
      ((held.status ≡ previewed) × (held.decision_code ≡ preview_mode))
      ⊎ ((held.status ≡ blocked)
          × ((held.decision_code ≢ allowed) × (held.error ≡ reason held.decision_code)))
unfolding decided blank
decided-held code answer capability a refused = ground arith

decided-is_called :
    (code : Code) (answer : Performed) (request : OutboundRequest)
    → code ≢ allowed
    → (decided code answer request).1 ≡ false
unfolding decided
decided-is_called code answer request refused = ground arith

decided-same :
    (code : Code) (answer : Performed) (capability : Option Capability) (a : Attempt)
    → let request = (decided code answer (blank capability code a)).0 in
      (request.decision_code ≡ code)
      × ((request.connection ≡ a.connection.id)
          × ((request.action ≡ a.action) × (request.capability ≡ capability)))
unfolding decided blank settle
decided-same code answer capability a = ground arith

pub code_is_allowed : (code : Code) → (code ≡ allowed) ⊎ (code ≢ allowed)
code_is_allowed code = ground arith

recorded-IsRecorded :
    (answer : Performed) (site : Site) (a : Attempt) (capability : Option Capability)
    → looked_up a ≡ some capability
    → let code = evaluate site capability a in
      let result = recorded a (decided code answer (blank capability code a)) site in
      IsRecorded site a result.0 result.1
unfolding recorded
recorded-IsRecorded answer site a capability found =
    let code = evaluate site capability a in
    let same = decided-same code answer capability a in
    record {
      capability = capability;
      found = found;
      of_attempt = same.1;
      decision = same.0;
      saved = refl;
      limits = (refl, refl);
    }

-- What is recorded of a decided call.
Outcome : Site → Attempt → OutboundRequest × Site → Type 0
Outcome site a (request, after) = IsCalled site a request after ⊎ IsHeld site a request after

recorded-Outcome :
    (answer : Performed) (site : Site) (a : Attempt) (capability : Option Capability)
    → looked_up a ≡ some capability
    → let code = evaluate site capability a in
      Outcome site a (recorded a (decided code answer (blank capability code a)) site)
unfolding Outcome recorded decided recorded-IsRecorded
recorded-Outcome answer site a capability found =
    let code = evaluate site capability a in
    let made = recorded-IsRecorded answer site a capability found in
    elim (code_is_allowed code) [
      | inl e ↦ inl record {
        made = made;
        permitted = IsPermitted-evaluate site capability a e;
        over = rw e (decided-allowed answer (blank capability allowed a));
        call = rw e refl;
      }
      | inr e ↦ inr record {
        made = made;
        why = decided-held code answer capability a e;
        no_call = rw (decided-is_called code answer (blank capability code a) e) refl;
      }
    ]

-- A call of `send` that returns has saved one new request for the attempt, with the action's
-- capability and the decision of `evaluate`. Either it has called the connector once, with every
-- condition of `evaluate` met, and the request is sent or failed; or it has not called the connector,
-- and the request is previewed because of preview mode, or blocked for the reason of another
-- decision than allowed.
pub send_lem :
    (answer : Performed) (site : Site) (a : Attempt) (request : OutboundRequest) (after : Site)
    → send answer site a ≡ some (request, after)
    → IsCalled site a request after ⊎ IsHeld site a request after
unfolding send Outcome
send_lem answer site a request after eq = elim (Option-cases (looked_up a)) [
  | inl e ↦ absurd (cc)
  | inr (capability, e) ↦
      let code = evaluate site capability a in
      let same : recorded a (decided code answer (blank capability code a)) site
          ≡ (request, after) =
        cc in
      subst (Outcome site a) same (recorded-Outcome answer site a capability e)
]
