-- ===== src/Connect/Delivery/Settled.antt =====
-- The invariant of a delivery in crm/events/tasks.py, its payload, attempts, finish and schedule, and
-- what the outcome of an attempt makes of it.
use open_immigration_crm.Prelude.{
  ℕ, zero, suc, ◌-◌, ◌≡◌, ◌≤◌, ◌<◌, refl, List, [], ◌∷◌, Option, none, some, Option-cases, true,
  false, not, Bool-cases, ◌||◌, ltb, length, is_some, arith, Text, inl, inr,
}
use open_immigration_crm.Connect.Records.{is_sent, is_previewed, is_failed}
use open_immigration_crm.Connect.Policy.{OutboundRequest}
use open_immigration_crm.Connect.Delivery.{
  EventDelivery, DeliveryStatus, failed, sent, previewed, blocked, is_settled, is_retrying,
  retry_delays, max_attempts, get_elem?, settle, retry, judge, is_rate_limited,
}

-- A waiting delivery keeps its payload and has attempts left; a settled one keeps none.
pub record IsConsistent (delivery : EventDelivery) : Type 0 where
  pub bounded : delivery.attempts ≤ max_attempts
  pub has_attempts : is_settled delivery.status ≡ false → delivery.attempts < max_attempts
  pub payload_kept : is_some delivery.payload ≡ not (is_settled delivery.status)
  pub finished : is_some delivery.finished_at ≡ is_settled delivery.status
  pub scheduled : is_some delivery.next_attempt_at ≡ is_retrying delivery.status

settle-IsConsistent :
    (delivery : EventDelivery) (status : DeliveryStatus) (error : Text) (now : ℕ)
    → delivery.attempts ≤ max_attempts
    → is_settled status ≡ true
    → IsConsistent (settle delivery status error now)
unfolding settle is_settled is_retrying
settle-IsConsistent delivery status error now few settled = ground arith

-- A result that is consistent, if there is one.
abbrev pub IsFine : Option EventDelivery → Type 0
IsFine none = Unit
IsFine (some after) = IsConsistent after

retry-IsFine :
    (delivery : EventDelivery) (outbound : OutboundRequest) (now : ℕ)
    → delivery.attempts < max_attempts
    → is_some delivery.payload ≡ true
    → is_some delivery.finished_at ≡ false
    → IsFine (retry delivery outbound now)
unfolding retry is_settled is_retrying
retry-IsFine delivery outbound now few payload open_now =
    elim (Option-cases (get_elem? retry_delays (delivery.attempts - 1))) [
      | inl f ↦ rw (f, IsFine) tt
      | inr (delay, f) ↦
          rw (f, IsFine)
            record {
              bounded = omega (few, arith);
              has_attempts = λ _. few;
              payload_kept = payload;
              finished = open_now;
              scheduled = refl;
            }
    ]

pub judge-IsFine :
    (delivery : EventDelivery) (outbound : OutboundRequest) (now : ℕ)
    → delivery.attempts ≤ max_attempts
    → is_some delivery.payload ≡ true
    → is_some delivery.finished_at ≡ false
    → IsFine (judge delivery outbound now)
unfolding judge is_settled
judge-IsFine delivery outbound now few payload open_now =
    elim (Bool-cases (is_sent outbound.status)) [
      | inl f ↦ rw (f, IsFine) (settle-IsConsistent delivery sent [] now few refl)
      | inr f ↦ rw f (elim (Bool-cases (is_previewed outbound.status)) [
        | inl g ↦ rw (g, IsFine) (settle-IsConsistent delivery previewed [] now few refl)
        | inr g ↦
            rw g
              (elim (Bool-cases
                (is_failed outbound.status || is_rate_limited outbound.decision_code)) [
                  | inr h ↦
                      rw (h, IsFine)
                        (settle-IsConsistent delivery blocked outbound.error now few refl)
                  | inl h ↦ rw h (elim (Bool-cases (ltb delivery.attempts max_attempts)) [
                    | inl k ↦
                        rw k (retry-IsFine delivery outbound now (ground arith) payload open_now)
                    | inr k ↦
                        rw (k, IsFine)
                          (settle-IsConsistent delivery failed outbound.error now few refl)
                  ])
                ])
      ])
    ]

get_elem?-total :
    (xs : List ℕ) (index : ℕ) → index < length xs → is_some (get_elem? xs index) ≡ true
unfolding get_elem?
get_elem?-total [] index l = absurd (omega (l, arith))
get_elem?-total (x ∷ xs) zero l = refl
get_elem?-total (x ∷ xs) (suc index) l = get_elem?-total xs index (omega (l, arith))

retry-total :
    (delivery : EventDelivery) (outbound : OutboundRequest) (now : ℕ)
    → 1 ≤ delivery.attempts
    → delivery.attempts < max_attempts
    → is_some (retry delivery outbound now) ≡ true
unfolding retry
retry-total delivery outbound now counted few =
    let found =
      get_elem?-total retry_delays (delivery.attempts - 1) (omega (counted, few, arith)) in
    elim (Option-cases (get_elem? retry_delays (delivery.attempts - 1))) [
      | inl f ↦ absurd (cc)
      | inr (delay, f) ↦ rw (f, is_some) refl
    ]

pub judge-total :
    (delivery : EventDelivery) (outbound : OutboundRequest) (now : ℕ)
    → 1 ≤ delivery.attempts
    → is_some (judge delivery outbound now) ≡ true
unfolding judge retry
judge-total delivery outbound now counted =
    let tried = retry-total delivery outbound now counted in ground arith
