-- ===== src/Billing/Links/Creation/Later.antt =====
-- A site of crm/connect/policy.py before and after the requests that `create_links` of
-- crm/billing/links.py makes.
use open_immigration_crm.Prelude.{◌≡◌, refl, sym, ap, ◌∙◌, List, [], ◌∷◌, ◌++◌}
use open_immigration_crm.Connect.Policy.{Site, Attempt, OutboundRequest}
use open_immigration_crm.Connect.Policy.Outcome.{IsRecorded}
use open_immigration_crm.Billing.Links.Creation.{save_newest}

pub append_nil : {A : Type 0} (xs : List A) → xs ≡ xs ++ []
append_nil [] = refl
append_nil (x ∷ xs) = ap (λ l. x ∷ l) (append_nil xs)

pub ++_assoc : {A : Type 0} (xs ys zs : List A) → (xs ++ ys) ++ zs ≡ xs ++ (ys ++ zs)
++_assoc [] ys zs = refl
++_assoc (x ∷ xs) ys zs = ap (λ l. x ∷ l) (++_assoc xs ys zs)

-- The site has come from an earlier one by requests alone: its settings are the same.
pub record IsLater (before site : Site) : Type 0 where
  pub between : List OutboundRequest
  pub requests_are : site.requests ≡ between ++ before.requests
  pub same_switch : site.outbound_enabled ≡ before.outbound_enabled
  pub same_limit : site.hourly_limit ≡ before.hourly_limit

pub IsLater-refl : (site : Site) → IsLater site site
IsLater-refl site = record {
  between = [];
  requests_are = refl;
  same_switch = refl;
  same_limit = refl;
}

pub IsLater-trans : (a b c : Site) → IsLater a b → IsLater b c → IsLater a c
IsLater-trans a b c first later = record {
  between = later.between ++ first.between;
  requests_are =
      later.requests_are
      ∙ ap (λ requests. later.between ++ requests) first.requests_are
      ∙ sym (++_assoc later.between first.between a.requests);
  same_switch = later.same_switch ∙ first.same_switch;
  same_limit = later.same_limit ∙ first.same_limit;
}

pub IsRecorded-IsLater :
    (site after : Site) (a : Attempt) (request : OutboundRequest)
    → IsRecorded site a request after
    → IsLater site after
IsRecorded-IsLater site after a request made = record {
  between = request ∷ [];
  requests_are = made.saved;
  same_switch = made.limits.0;
  same_limit = made.limits.1;
}

pub save_newest-IsLater :
    (site after : Site) (a : Attempt) (request failing : OutboundRequest)
    → IsRecorded site a request after
    → IsLater site (save_newest failing after)
unfolding save_newest
save_newest-IsLater site after a request failing made = record {
  between = failing ∷ [];
  requests_are = rw made.saved refl;
  same_switch = made.limits.0;
  same_limit = made.limits.1;
}
