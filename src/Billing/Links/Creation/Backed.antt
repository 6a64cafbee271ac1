-- ===== src/Billing/Links/Creation/Backed.antt =====
-- What `create_links` adds: the links that are new, and the requests that are saved.
use open_immigration_crm.Prelude.{
  ℕ, suc, ◌≡◌, inl, inr, refl, ap, ◌∙◌, Bool, List, [], ◌∷◌, ◌++◌, Option, some, Option-cases, true,
  ◌&&◌, Bool-cases, ℤ, pos, negsuc, any, All, All-map, All-append, length, select, is_empty, IfOk,
  IfOk-then, arith,
}
use open_immigration_crm.Connect.Records.{Connection, User, is_sent}
use open_immigration_crm.Connect.Policy.{Site, OutboundRequest, Performed, send}
use open_immigration_crm.Billing.Links.Creation.Later.{
  IsLater, IsLater-refl, IsLater-trans, save_newest-IsLater, append_nil, ++_assoc,
}
use open_immigration_crm.Billing.Links.Creation.Permitted.{
  IsPermittedCall, send-IsRecorded, send-IsLater, sent-IsPermittedCall, widen,
}
use open_immigration_crm.Billing.Records.{Account, PaymentLink, Invoice, account_eq}
use open_immigration_crm.Billing.Links.{amounts_due, links_needed, eq_ℤ}
use open_immigration_crm.Billing.Links.Creation.{
  is_served, is_https, result_of, link_of, link_attempt, keep_link, not_a_link, create_each,
  create_links,
}

account_eq_refl : (a : Account) → account_eq a a ≡ true
unfolding account_eq
account_eq_refl a = ground arith

eq_ℤ_refl : (a : ℤ) → eq_ℤ a a ≡ true
unfolding eq_ℤ
eq_ℤ_refl (pos n) = ground arith
eq_ℤ_refl (negsuc n) = ground arith

module _ (answers : Account → Performed) (connection : Connection) (actor : Option User)
    (now : ℕ) where
  -- A link asks for an amount that is due, leads to the HTTPS address that the connector answered,
  -- and comes from a call that the policy permitted.
  pub record IsBacked (before final : Site) (due : List (Account × ℤ)) (link : PaymentLink)
      : Type 0 where
    pub asked :
        any (λ (d : Account × ℤ). account_eq d.0 link.deposit_account && eq_ℤ d.1 link.amount) due
        ≡ true
    pub secure : is_https link.url ≡ true
    pub answered : link.url ≡ result_of (answers link.deposit_account)
    pub source : link.source_connection ≡ some connection.id
    pub permitted :
        IsPermittedCall
          (answers link.deposit_account)
          (link_attempt connection actor now)
          before
          final

  pub record Adds (due : List (Account × ℤ)) (invoice : Invoice) (before : Site)
      (made : List OutboundRequest × (Invoice × Site)) : Type 0 where
    pub new : List PaymentLink
    pub links_are : made.1.0.links ≡ invoice.links ++ new
    pub backed : All (IsBacked before made.1.1 due) new
    pub one_request_each : length made.0 ≡ length due
    pub later : IsLater before made.1.1

  -- What one request adds.
  record Keeps (account : Account) (amount : ℤ) (due : List (Account × ℤ)) (invoice : Invoice)
      (before : Site) (kept : Invoice × Site) : Type 0 where
    new : List PaymentLink
    links_are : kept.0.links ≡ invoice.links ++ new
    backed : All (IsBacked before kept.1 ((account, amount) ∷ due)) new
    later : IsLater before kept.1

  keep_link-Keeps :
      (account : Account) (amount : ℤ) (due : List (Account × ℤ)) (invoice : Invoice)
      (site after : Site) (request : OutboundRequest)
      → send (answers account) site (link_attempt connection actor now) ≡ some (request, after)
      → Keeps account amount due invoice site
          (keep_link connection actor account amount
            (result_of (answers account))
            request
            (invoice, after)).1
  unfolding keep_link link_of
  keep_link-Keeps account amount due invoice site after request e =
      let a = link_attempt connection actor now in
      elim (Bool-cases (is_sent request.status)) [
        | inr f ↦
            rw (f, keep_link)
              record {
                new = [];
                links_are = append_nil invoice.links;
                backed = tt;
                later = send-IsLater (answers account) site after a request e;
              }
        | inl f ↦ elim (Bool-cases (is_https (result_of (answers account)))) [
          | inr g ↦
              rw (f, g, keep_link)
                record {
                  new = [];
                  links_are = append_nil invoice.links;
                  backed = tt;
                  later =
                      save_newest-IsLater site after (link_attempt connection actor now) request
                        (not_a_link request)
                        (send-IsRecorded (answers account) site after a request e);
                }
          | inl g ↦
              let link = link_of connection actor account amount (result_of (answers account)) in
              rw (f, g, keep_link)
                record {
                  new = link ∷ [];
                  links_are = refl;
                  backed = (
                    record {
                      asked = rw (account_eq_refl account, eq_ℤ_refl amount) refl;
                      secure = g;
                      answered = refl;
                      source = refl;
                      permitted = sent-IsPermittedCall (answers account) a site request after e f;
                    },
                    tt,
                  );
                  later = send-IsLater (answers account) site after a request e;
                }
        ]
      ]

  -- Earlier or later requests and amounts change nothing.
  weaken :
      (first before after final : Site) (due more : List (Account × ℤ)) (link : PaymentLink)
      → IsLater first before
      → IsLater after final
      → ((p : Account × ℤ → Bool) → any p due ≡ true → any p more ≡ true)
      → IsBacked before after due link
      → IsBacked first final more link
  weaken first before after final due more link early late in_more h = record {
    asked = in_more _ h.asked;
    secure = h.secure;
    answered = h.answered;
    source = h.source;
    permitted = widen first before after final early late h.permitted;
  }

  any_more :
      (d : Account × ℤ) (due : List (Account × ℤ)) (p : Account × ℤ → Bool)
      → any p due ≡ true
      → any p (d ∷ due) ≡ true
  any_more d due p e = ground (arith, e)

  both_add :
      (account : Account) (amount : ℤ) (due : List (Account × ℤ)) (invoice : Invoice)
      (kept : Invoice × Site) (request : OutboundRequest) (site : Site)
      → Keeps account amount due invoice site kept
      → (made : List OutboundRequest × (Invoice × Site)) → Adds due kept.0 kept.1 made
      → Adds ((account, amount) ∷ due) invoice site (request ∷ made.0, made.1)
  both_add account amount due invoice kept request site first made rest =
      let all = (account, amount) ∷ due in
      record {
        new = first.new ++ rest.new;
        links_are =
            rest.links_are
            ∙ ap (λ links. links ++ rest.new) first.links_are
            ∙ ++_assoc invoice.links first.new rest.new;
        backed =
            All-append (IsBacked site made.1.1 all) first.new rest.new
              (All-map first.new
                (λ link.
                  weaken site site kept.1 made.1.1 all all link (IsLater-refl site) rest.later
                    (λ p e. e))
                first.backed)
              (All-map rest.new
                (λ link.
                  weaken site kept.1 made.1.1 made.1.1 due all link first.later
                    (IsLater-refl made.1.1) (any_more (account, amount) due))
                rest.backed);
        one_request_each = ap suc rest.one_request_each;
        later = IsLater-trans site kept.1 made.1.1 first.later rest.later;
      }

  create_each-Adds :
      (due : List (Account × ℤ)) (invoice : Invoice) (site : Site)
      → IfOk (Adds due invoice site) (create_each answers connection actor now due (invoice, site))
  unfolding create_each
  create_each-Adds [] invoice site = record {
    new = [];
    links_are = append_nil invoice.links;
    backed = tt;
    one_request_each = refl;
    later = IsLater-refl site;
  }
  create_each-Adds ((account, amount) ∷ due) invoice site =
      elim (Option-cases (send (answers account) site (link_attempt connection actor now))) [
        | inl e ↦ rw (e, create_each) tt
        | inr ((request, after), e) ↦
            let kept =
              keep_link connection actor account amount (result_of (answers account)) request
                (invoice, after) in
            rw (e, create_each)
              (IfOk-then (Adds due kept.1.0 kept.1.1) (Adds ((account, amount) ∷ due) invoice site)
                (create_each answers connection actor now due kept.1) _
                (both_add account amount due invoice kept.1 kept.0 site
                  (keep_link-Keeps account amount due invoice site after request e))
                (create_each-Adds due kept.1.0 kept.1.1))
      ]

  -- Where `create_links` returns, there is one request for each amount that is owed into an account the
  -- connection serves and that no link asks for yet. Each link that is new asks for one of these
  -- amounts, leads to the HTTPS address the connector answered, and comes from a call of `send` at
  -- which every condition of the policy was met on the site as it was then: with the settings of the
  -- site given, and with its requests and those made since. The request of that call was sent, and it
  -- is among the requests in the end.
  pub create_links-Adds :
      (served : List Account) (invoice : Invoice) (site : Site)
      → IfOk
          (Adds
            (select (λ (d : Account × ℤ). is_served served d.0) (links_needed invoice))
            invoice
            site)
          (create_links answers served connection actor now (invoice, site))
  unfolding create_links
  create_links-Adds served invoice site =
      let asked = select (λ (d : Account × ℤ). is_served served d.0) (links_needed invoice) in
      elim (Bool-cases (is_empty (amounts_due invoice))) [
        | inl e ↦ rw (e, create_links) tt
        | inr e ↦ elim (Bool-cases (is_empty (links_needed invoice))) [
          | inl f ↦ rw (e, f, create_links) tt
          | inr f ↦ elim (Bool-cases (is_empty asked)) [
            | inl g ↦ rw (e, f, g, create_links) tt
            | inr g ↦ rw (e, f, g, create_links) (create_each-Adds asked invoice site)
          ]
        ]
      ]
