-- ===== src/Connect/Webhooks/Processed.antt =====
-- How often an event's records are handed on, and how long its payload is kept.
use mathlib.Core.Path.{subst}
use open_immigration_crm.Prelude.{
  ℕ, ◌+◌, ◌≡◌, ◌≤◌, ◌<◌, inl, inr, refl, List, [], ◌∷◌, some, true, false, ◌==◌, All, All-map,
  All-both, find, is_some, if◌then◌else◌, Bool-cases, arith,
}
use open_immigration_crm.Connect.Webhooks.{
  WebhookEvent, Hooks, Handled, gave, broke, died, is_repeat, is_processed, settled, save_event,
  take_records, lose_run,
}

abbrev pub count : ℕ → List ℕ → ℕ
count i [] = 0
count i (x ∷ xs) = (if x == i then 1 else 0) + count i xs

-- The records of a processed event were handed on, and its payload is gone; the payload of another is
-- there. Every run that handed on the records, but the one that processed the event, is a lost one.
abbrev pub IsSound : List ℕ → List ℕ → WebhookEvent → Type 0
IsSound taken lost e =
    ((if is_processed e.status then 1 else 0) ≤ count e.id taken)
    × ((count e.id taken ≤ count e.id lost + (if is_processed e.status then 1 else 0))
        × ((is_some e.processed_at ≡ is_processed e.status)
            × ((if is_some e.payload then false else true) ≡ is_processed e.status)))

-- A later event and an earlier one: not the same event of the same connection.
abbrev pub IsOther : WebhookEvent → WebhookEvent → Type 0
IsOther e earlier = (earlier.id < e.id) × (is_repeat e.connection e.event_id earlier ≡ false)

abbrev pub AreOthers : List WebhookEvent → Type 0
AreOthers [] = Unit
AreOthers (e ∷ es) = All (IsOther e) es × AreOthers es

pub record IsKept (hooks : Hooks) : Type 0 where
  pub sound : All (IsSound hooks.taken hooks.lost) hooks.events
  pub others : AreOthers hooks.events
  pub events_old : All (λ (e : WebhookEvent). e.id < hooks.next_id) hooks.events
  pub taken_old : All (λ i. i < hooks.next_id) hooks.taken

pub count_new : (n : ℕ) (taken : List ℕ) → All (λ i. i < n) taken → count n taken ≡ 0
count_new n [] h = refl
count_new n (i ∷ taken) h = ground (arith, count_new n taken h.1, h.0)

-- What holds of the saved event's row, and of the rows with other keys, holds of all rows.
pub save_event-All :
    (P Q : WebhookEvent → Type 0) (old new : WebhookEvent) (es : List WebhookEvent)
    → AreOthers es
    → find (λ (e : WebhookEvent). e.id == new.id) es ≡ some old
    → (P old → Q new)
    → ((e : WebhookEvent) → (e.id == new.id) ≡ false → P e → Q e)
    → All P es
    → All Q (save_event new es)
unfolding save_event
save_event-All P Q old new [] others found step other hs = tt
save_event-All P Q old new (x ∷ es) others found step other hs =
    elim (Bool-cases (x.id == new.id)) [
      | inl e ↦
          let same : x ≡ old = ground arith in
          rw e (
            step (subst P same hs.0),
            All-map es (λ y (h : IsOther x y × P y). other y (ground (arith, h.0.0, e)) h.1)
                (All-both _ _ es others.0 hs.1),
          )
      | inr e ↦
          let later : find (λ (y : WebhookEvent). y.id == new.id) es ≡ some old = rw e at found in
          rw e (other x e hs.0, save_event-All P Q old new es others.1 later step other hs.1)
    ]

module _ (old new : WebhookEvent) (same_id : new.id ≡ old.id)
    (same_connection : new.connection ≡ old.connection)
    (same_event : new.event_id ≡ old.event_id) where
  save_event-IsOther :
      (x : WebhookEvent) (es : List WebhookEvent)
      → AreOthers es
      → find (λ (e : WebhookEvent). e.id == new.id) es ≡ some old
      → All (IsOther x) es
      → All (IsOther x) (save_event new es)
  unfolding is_repeat
  save_event-IsOther x es others found hs =
      save_event-All (IsOther x) (IsOther x) old new es others found
        (λ h. (rw same_id h.0, rw (same_connection, same_event) h.1)) (λ e different h. h) hs

  pub save_event-AreOthers :
      (es : List WebhookEvent)
      → AreOthers es
      → find (λ (e : WebhookEvent). e.id == new.id) es ≡ some old
      → AreOthers (save_event new es)
  unfolding save_event
  save_event-AreOthers [] others found = tt
  save_event-AreOthers (x ∷ es) others found = elim (Bool-cases (x.id == new.id)) [
    | inl e ↦
        let same : x ≡ old = ground arith in
        let behind : All (IsOther old) es = subst (λ y. All (IsOther y) es) same others.0 in
        rw e (
          All-map es (λ y h. (rw same_id h.0, rw (same_connection, same_event) h.1)) behind,
          others.1,
        )
    | inr e ↦
        let later : find (λ (y : WebhookEvent). y.id == new.id) es ≡ some old = rw e at found in
        rw e
          (save_event-IsOther x es others.1 later others.0, save_event-AreOthers es others.1 later)
  ]

-- The row of an event that is handled, and the rows of others.
pub settled-IsSound :
    (answer : Handled) (now : ℕ) (taken lost : List ℕ) (event : WebhookEvent)
    → is_processed event.status ≡ false
    → IsSound taken lost event
    → IsSound
        (take_records answer event.id taken)
        (lose_run answer event.id lost)
        (settled answer now event)
unfolding settled take_records lose_run is_processed
settled-IsSound (broke true failure) now taken lost event fresh h =
    (omega (arith), (ground (arith, h.1.0, fresh), (rw fresh at h.1.1.0, rw fresh at h.1.1.1)))
settled-IsSound (broke false failure) now taken lost event fresh h =
    (omega (arith), (ground (arith, h.1.0, fresh), (rw fresh at h.1.1.0, rw fresh at h.1.1.1)))
settled-IsSound (died true) now taken lost event fresh h =
    (ground (arith, fresh), (ground (arith, h.1.0, fresh), h.1.1))
settled-IsSound (died false) now taken lost event fresh h =
    (ground (arith, fresh), (ground (arith, h.1.0, fresh), h.1.1))
settled-IsSound (gave records) now taken lost event fresh h =
    (ground (arith), (ground (arith, h.1.0, fresh), (refl, refl)))

count_other :
    (answer : Handled) (i j : ℕ) (taken lost : List ℕ)
    → (j == i) ≡ false
    → (count j (take_records answer i taken) ≡ count j taken)
      × (count j (lose_run answer i lost) ≡ count j lost)
unfolding take_records lose_run
count_other (gave records) i j taken lost different = (ground (arith, different), refl)
count_other (broke true failure) i j taken lost different =
    (ground (arith, different), ground (arith, different))
count_other (broke false failure) i j taken lost different = (refl, ground (arith, different))
count_other (died true) i j taken lost different =
    (ground (arith, different), ground (arith, different))
count_other (died false) i j taken lost different = (refl, ground (arith, different))

pub taken_other :
    (answer : Handled) (i : ℕ) (taken lost : List ℕ) (e : WebhookEvent)
    → (e.id == i) ≡ false
    → IsSound taken lost e
    → IsSound (take_records answer i taken) (lose_run answer i lost) e
taken_other answer i taken lost e different h =
    let same = count_other answer i e.id taken lost different in
    (rw same.0 h.0, (rw (same.0, same.1) h.1.0, h.1.1))

pub All-take_records :
    (n i : ℕ) (answer : Handled) (taken : List ℕ)
    → i < n
    → All (λ j. j < n) taken
    → All (λ j. j < n) (take_records answer i taken)
unfolding take_records
All-take_records n i (gave records) taken l h = (l, h)
All-take_records n i (broke true failure) taken l h = (l, h)
All-take_records n i (broke false failure) taken l h = h
All-take_records n i (died true) taken l h = (l, h)
All-take_records n i (died false) taken l h = h
