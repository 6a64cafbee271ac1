-- ===== src/Billing/Links/Creation/Permitted.antt =====
-- A call of `send` of crm/connect/policy.py that was permitted, among the requests that `create_links`
-- of crm/billing/links.py makes.
use open_immigration_crm.Prelude.{◌≡◌, inl, inr, true, ◌∷◌, Option, some, arith}
use open_immigration_crm.Connect.Records.{Capability, is_sent}
use open_immigration_crm.Connect.Policy.{Site, Attempt, OutboundRequest, Performed, looked_up, send}
use open_immigration_crm.Connect.Policy.Permission.{IsPermitted}
use open_immigration_crm.Connect.Policy.Outcome.{IsRecorded, send_lem}
use open_immigration_crm.Billing.Links.Creation.Later.{
  IsLater, IsLater-refl, IsLater-trans, IsRecorded-IsLater,
}

-- A call between two moments: on the site as it was then, with its settings and the requests that came
-- before, all conditions of the policy were met, and the request was saved as sent.
pub record IsPermittedCall (answer : Performed) (a : Attempt) (before final : Site) : Type 0 where
  pub site : Site
  pub after : Site
  pub request : OutboundRequest
  pub came_from : IsLater before site
  pub call : send answer site a ≡ some (request, after)
  pub was_sent : is_sent request.status ≡ true
  pub capability : Option Capability
  pub found : looked_up a ≡ some capability
  pub permitted : IsPermitted site capability a
  pub saved : after.requests ≡ request ∷ site.requests
  pub goes_to : IsLater after final

pub send-IsRecorded :
    (answer : Performed) (site after : Site) (a : Attempt) (request : OutboundRequest)
    → send answer site a ≡ some (request, after)
    → IsRecorded site a request after
send-IsRecorded answer site after a request e = elim (send_lem answer site a request after e) [
  | inl called ↦ called.made
  | inr held ↦ held.made
]

pub send-IsLater :
    (answer : Performed) (site after : Site) (a : Attempt) (request : OutboundRequest)
    → send answer site a ≡ some (request, after)
    → IsLater site after
send-IsLater answer site after a request e =
    IsRecorded-IsLater site after a request (send-IsRecorded answer site after a request e)

pub sent-IsPermittedCall :
    (answer : Performed) (a : Attempt) (site : Site) (request : OutboundRequest) (after : Site)
    → send answer site a ≡ some (request, after)
    → is_sent request.status ≡ true
    → IsPermittedCall answer a site after
unfolding is_sent
sent-IsPermittedCall answer a site request after e was_sent =
    elim (send_lem answer site a request after e) [
      | inl called ↦ record {
        site = site;
        after = after;
        request = request;
        came_from = IsLater-refl site;
        call = e;
        was_sent = was_sent;
        capability = called.made.capability;
        found = called.made.found;
        permitted = called.permitted;
        saved = called.made.saved;
        goes_to = IsLater-refl after;
      }
      | inr held ↦ elim held.why [
        | inl (previewed, because) ↦ absurd (ground (arith, previewed))
        | inr (blocked, because) ↦ absurd (ground (arith, blocked))
      ]
    ]

-- Requests before or after it change nothing.
pub widen :
    {answer : Performed} {a : Attempt} (first before after final : Site)
    → IsLater first before
    → IsLater after final
    → IsPermittedCall answer a before after
    → IsPermittedCall answer a first final
widen first before after final early late c = record {
  site = c.site;
  after = c.after;
  request = c.request;
  came_from = IsLater-trans first before c.site early c.came_from;
  call = c.call;
  was_sent = c.was_sent;
  capability = c.capability;
  found = c.found;
  permitted = c.permitted;
  saved = c.saved;
  goes_to = IsLater-trans c.after after final c.goes_to late;
}
