-- ===== src/Connect/Policy/HourlyLimit.antt =====
-- The hourly limit of crm/connect/policy.py over a history of requests.
use open_immigration_crm.Prelude.{
  ℕ, suc, refl, sym, ◌∙◌, ==_iff, List, [], ◌∷◌, Option, none, some, Option-cases, true, false,
  ◌==◌, ◌≡◌, ◌≤◌, ◌<◌, Bool-cases, arith, inl, inr,
}
use open_immigration_crm.Connect.Records.{Capability, is_sent}
use open_immigration_crm.Connect.Policy.{
  Code, allowed, Site, Attempt, OutboundRequest, Performed, is_recent, sent_last_hour, evaluate,
  decided, blank, looked_up, recorded, send, settle,
}
use open_immigration_crm.Connect.Policy.Permission.{IsPermitted-evaluate}

-- The window of a later moment holds no more of the same requests.
sent_last_hour-later :
    (connection now later : ℕ) (requests : List OutboundRequest)
    → now ≤ later
    → sent_last_hour connection later requests ≤ sent_last_hour connection now requests
unfolding sent_last_hour is_recent
sent_last_hour-later connection now later [] l = omega arith
sent_last_hour-later connection now later (r ∷ rs) l =
    let rest = sent_last_hour-later connection now later rs l in grind arith

-- One request more counts once at most.
sent_last_hour-new :
    (connection now : ℕ) (r : OutboundRequest) (rs : List OutboundRequest)
    → sent_last_hour connection now (r ∷ rs) ≤ suc (sent_last_hour connection now rs)
unfolding sent_last_hour
sent_last_hour-new connection now r rs = ground arith

-- A request that was not sent, or is of another connection, does not count.
sent_last_hour-unsent :
    (connection now : ℕ) (r : OutboundRequest) (rs : List OutboundRequest)
    → is_sent r.status ≡ false
    → sent_last_hour connection now (r ∷ rs) ≡ sent_last_hour connection now rs
unfolding sent_last_hour is_recent
sent_last_hour-unsent connection now r rs e = ground arith

sent_last_hour-other :
    (connection now : ℕ) (r : OutboundRequest) (rs : List OutboundRequest)
    → (r.connection == connection) ≡ false
    → sent_last_hour connection now (r ∷ rs) ≡ sent_last_hour connection now rs
unfolding sent_last_hour is_recent
sent_last_hour-other connection now r rs e = ground arith

-- Only an allowed request is ever recorded as sent.
decided-is_sent :
    (code : Code) (answer : Performed) (capability : Option Capability) (a : Attempt)
    → is_sent (decided code answer (blank capability code a)).0.status ≡ true
    → code ≡ allowed
unfolding decided blank is_sent
decided-is_sent code answer capability a e = ground arith

-- A history of calls, each with what the connector would answer; a `ValueError` records nothing.
unfoldable pub kept : Site → Option (OutboundRequest × Site) → Site
kept site none = site
kept site (some (_, site')) = site'

unfoldable pub sends : Site → List (Performed × Attempt) → Site
unfolding kept
sends site [] = site
sends site ((answer, a) ∷ calls) = sends (kept site (send answer site a)) calls

-- The calls are decided one after another, between two moments.
abbrev pub IsOrdered : ℕ → List (Performed × Attempt) → ℕ → Type 0
IsOrdered start [] finish = start ≤ finish
IsOrdered start ((_, a) ∷ calls) finish = (start ≤ a.now) × IsOrdered a.now calls finish

abbrev IsLimited : ℕ → Site → Type 0
IsLimited now site =
    (connection : ℕ) → sent_last_hour connection now site.requests ≤ site.hourly_limit

decided-connection :
    (code : Code) (answer : Performed) (capability : Option Capability) (a : Attempt)
    → (decided code answer (blank capability code a)).0.connection ≡ a.connection.id
unfolding decided blank settle
decided-connection code answer capability a = ground arith

-- One request more, sent only below the limit.
new-IsLimited :
    (site : Site) (a : Attempt) (r : OutboundRequest)
    → r.connection ≡ a.connection.id
    → (is_sent r.status ≡ true
        → sent_last_hour a.connection.id a.now site.requests < site.hourly_limit)
    → IsLimited a.now site
    → (connection : ℕ) → sent_last_hour connection a.now (r ∷ site.requests) ≤ site.hourly_limit
new-IsLimited site a r same below limited connection = elim (Bool-cases (is_sent r.status)) [
  | inr e ↦ rw (sent_last_hour-unsent connection a.now r site.requests e) (limited connection)
  | inl e ↦ elim (Bool-cases (r.connection == connection)) [
    | inr f ↦ rw (sent_last_hour-other connection a.now r site.requests f) (limited connection)
    | inl f ↦
        let here : connection ≡ a.connection.id =
          sym ((==_iff r.connection connection).0 f) ∙ same in
        rw here (omega (sent_last_hour-new a.connection.id a.now r site.requests, below e, arith))
  ]
]

send-IsLimited :
    (answer : Performed) (site : Site) (a : Attempt)
    → IsLimited a.now site
    → IsLimited a.now (kept site (send answer site a))
unfolding kept send recorded
send-IsLimited answer site a limited = elim (Option-cases (looked_up a)) [
  | inl e ↦ rw (e, kept) limited
  | inr (capability, e) ↦
      let code = evaluate site capability a in
      rw (e, kept)
        (new-IsLimited site a (decided code answer (blank capability code a)).0
          (decided-connection code answer capability a)
          (λ s.
            (IsPermitted-evaluate site capability a
              (decided-is_sent code answer capability a s)).within)
          limited)
]

send-hourly_limit :
    (answer : Performed) (site : Site) (a : Attempt)
    → (kept site (send answer site a)).hourly_limit ≡ site.hourly_limit
unfolding kept send recorded
send-hourly_limit answer site a = elim (Option-cases (looked_up a)) [
  | inl e ↦ rw (e, kept) refl
  | inr (capability, e) ↦ rw (e, kept) refl
]

-- If calls are decided one after another between two moments, and at the first no connection has
-- sent more requests in the last hour than the limit, then at the second no connection has.
pub hourly_limit_holds :
    (site : Site) (calls : List (Performed × Attempt)) (start finish connection : ℕ)
    → IsOrdered start calls finish
    → ((c : ℕ) → sent_last_hour c start site.requests ≤ site.hourly_limit)
    → sent_last_hour connection finish (sends site calls).requests ≤ site.hourly_limit
unfolding sends
hourly_limit_holds site [] start finish connection ordered limited =
    omega (
      sent_last_hour-later connection start finish site.requests ordered,
      limited connection,
      arith,
    )
hourly_limit_holds site ((answer, a) ∷ calls) start finish connection (first, ordered) limited =
    let site' = kept site (send answer site a) in
    let now : IsLimited a.now site =
      λ c. omega (sent_last_hour-later c start a.now site.requests first, limited c, arith) in
    omega (
      hourly_limit_holds site' calls a.now finish connection ordered
          (send-IsLimited answer site a now),
      send-hourly_limit answer site a,
      arith,
    )
