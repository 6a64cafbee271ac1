-- ===== src/Workflows/Phases/Track.antt =====
-- The order in which a workflow's phases are gone through, and how ending a phase keeps it.
use mathlib.Core.Path.{subst}
use open_immigration_crm.Prelude.{
  ℕ, ◌≡◌, ◌<◌, ◌⊎◌, inl, inr, refl, List, [], ◌∷◌, Option, none, some, Bool, true, false, ◌&&◌,
  ◌==◌, ==_refl, ltb, find, find-All, All, is_some, Bool-cases, arith,
}
use open_immigration_crm.Workflows.Records.{
  PhaseStatus, MatterPhase, Clock, is_in_progress, is_not_started, is_finished,
}
use open_immigration_crm.Workflows.Phases.{save_phase, started, ended, following_phase}

-- An earlier phase has a smaller key and a smaller position.
abbrev pub IsBefore : MatterPhase → MatterPhase → Type 0
IsBefore p q = (p.id < q.id) × (p.position < q.position)

abbrev pub AreSorted : List MatterPhase → Type 0
AreSorted [] = Unit
AreSorted (p ∷ ps) = All (IsBefore p) ps × AreSorted ps

-- Phases that are finished, then the one in progress, then those not started; or, once the
-- workflow is over, finished phases only.
abbrev pub IsOnTrack : Option ℕ → List MatterPhase → Type 0
IsOnTrack over [] = is_some over ≡ true
IsOnTrack over (p ∷ ps) =
    ((is_finished p.status ≡ true) × IsOnTrack over ps)
    ⊎ ((is_in_progress p.status ≡ true)
        × ((over ≡ none) × All (λ (q : MatterPhase). is_not_started q.status ≡ true) ps))

pub record IsTracked (over : Option ℕ) (phases : List MatterPhase) : Type 0 where
  pub sorted : AreSorted phases
  pub on_track : IsOnTrack over phases

pub save_phase-All :
    (P : MatterPhase → Type 0) (r : MatterPhase) (ps : List MatterPhase)
    → P r
    → All P ps
    → All P (save_phase r ps)
unfolding save_phase
save_phase-All P r [] h hs = tt
save_phase-All P r (p ∷ ps) h hs = elim (Bool-cases (p.id == r.id)) [
  | inl e ↦ rw e (h, hs.1)
  | inr e ↦ rw e (hs.0, save_phase-All P r ps h hs.1)
]

All-following_phase :
    (P : MatterPhase → Type 0) (position : ℕ) (ps : List MatterPhase) {n : MatterPhase}
    → All P ps
    → following_phase position ps ≡ some n
    → P n
unfolding following_phase
All-following_phase P position ps hs e =
    find-All (λ p. ltb position p.position && is_not_started p.status) P ps hs e

pub finished-not_current : (s : PhaseStatus) → is_finished s ≡ true → is_in_progress s ≡ true → ⊥
unfolding is_finished is_in_progress
finished-not_current s f g = ground arith

not_started-not_current : (s : PhaseStatus) → is_not_started s ≡ true → is_in_progress s ≡ true → ⊥
unfolding is_not_started is_in_progress
not_started-not_current s f g = ground arith

module _ (clock : Clock) where
  -- What is left of the phases when one has been ended: all are finished, or starting the one that
  -- follows puts them back on track.
  unfoldable pub Follows : List MatterPhase → Option MatterPhase → Type 0
  Follows ps none = IsTracked (some clock.now) ps
  Follows ps (some next) =
      (due : Option ℕ) → IsTracked none (save_phase (started clock due next) ps)

  skip_finished :
      (position : ℕ) (x : MatterPhase) (ps : List MatterPhase)
      → is_finished x.status ≡ true
      → following_phase position (x ∷ ps) ≡ following_phase position ps
  unfolding following_phase is_finished is_not_started
  skip_finished position x ps f = ground arith

  -- A finished phase in front of phases that follow.
  Follows-cons :
      (x : MatterPhase) (ps : List MatterPhase) (next : Option MatterPhase)
      → is_finished x.status ≡ true
      → All (IsBefore x) ps
      → ((n : MatterPhase) → next ≡ some n → IsBefore x n)
      → Follows ps next
      → Follows (x ∷ ps) next
  unfolding Follows save_phase started
  Follows-cons x ps none f bs b h = record {
    sorted = (bs, h.sorted);
    on_track = inl (f, h.on_track);
  }
  Follows-cons x ps (some n) f bs b h = λ due.
      let apart : (x.id == n.id) ≡ false = ground (arith, b n refl) in
      rw apart record {
        sorted =
            (save_phase-All (IsBefore x) (started clock due n) ps (b n refl) bs, (h due).sorted);
        on_track = inl (f, (h due).on_track);
      }

  ended-is_finished : (b : Bool) (x : MatterPhase) → is_finished (ended clock b x).status ≡ true
  unfolding ended is_finished
  ended-is_finished b x = ground arith

  started-is_in_progress :
      (due : Option ℕ) (x : MatterPhase) → is_in_progress (started clock due x).status ≡ true
  unfolding started is_in_progress
  started-is_in_progress due x = refl

  following_first :
      (x n : MatterPhase) (ps : List MatterPhase)
      → IsBefore x n
      → is_not_started n.status ≡ true
      → following_phase x.position (n ∷ ps) ≡ some n
  unfolding following_phase
  following_first x n ps b f = ground (arith, b.1)

  -- The phase in progress is ended in front of phases that are not started.
  Follows-ended :
      (b : Bool) (x : MatterPhase) (ps : List MatterPhase)
      → AreSorted (x ∷ ps)
      → All (λ (q : MatterPhase). is_not_started q.status ≡ true) ps
      → Follows (ended clock b x ∷ ps) (following_phase x.position (ended clock b x ∷ ps))
  unfolding Follows ended started save_phase following_phase
  Follows-ended b x [] sorted fresh =
      rw (skip_finished x.position (ended clock b x) [] (ended-is_finished b x), following_phase)
        record { sorted = (tt, tt); on_track = inl (ended-is_finished b x, refl) }
  Follows-ended b x (n ∷ ps) sorted fresh =
      let apart : (x.id == n.id) ≡ false = ground (arith, sorted.0.0) in
      rw
        (
          skip_finished x.position (ended clock b x) (n ∷ ps) (ended-is_finished b x),
          following_first x n ps sorted.0.0 fresh.0,
        )
        (λ due.
          rw (apart, ==_refl n.id)
            record {
              sorted = sorted;
              on_track =
                  inl (ended-is_finished b x, inr (started-is_in_progress due n, (refl, fresh.1)));
            })

  -- Ending the phase in progress leaves phases on track.
  pub save_phase-Follows :
      (b : Bool) (p : MatterPhase) (ps : List MatterPhase)
      → AreSorted ps
      → IsOnTrack none ps
      → find (λ (q : MatterPhase). q.id == p.id) ps ≡ some p
      → is_in_progress p.status ≡ true
      → Follows
          (save_phase (ended clock b p) ps)
          (following_phase p.position (save_phase (ended clock b p) ps))
  unfolding save_phase ended
  save_phase-Follows b p [] sorted track found current = absurd (cc)
  save_phase-Follows b p (x ∷ ps) sorted (inl (f, track)) found current =
      elim (Bool-cases (x.id == p.id)) [
        | inl e ↦
            let same : x ≡ p = ground arith in
            absurd (finished-not_current x.status f (rw same current))
        | inr e ↦
            let left = save_phase (ended clock b p) ps in
            let later : find (λ (q : MatterPhase). q.id == p.id) ps ≡ some p = rw e at found in
            let behind : All (IsBefore x) left =
              save_phase-All (IsBefore x) (ended clock b p) ps
                (find-All (λ (q : MatterPhase). q.id == p.id) (IsBefore x) ps sorted.0 later)
                sorted.0 in
            rw (e, skip_finished p.position x left f)
              (Follows-cons x left (following_phase p.position left) f behind
                (λ n g. All-following_phase (IsBefore x) p.position left behind g)
                (save_phase-Follows b p ps sorted.1 track later current))
      ]
  save_phase-Follows b p (x ∷ ps) sorted (inr (here, (open_now, fresh))) found current =
      elim (Bool-cases (x.id == p.id)) [
        | inl e ↦
            let same : x ≡ p = ground arith in
            rw e (
              subst
                (λ (q : MatterPhase).
                  Follows (ended clock b q ∷ ps)
                    (following_phase q.position (ended clock b q ∷ ps)))
                same (Follows-ended b x ps sorted fresh))
        | inr e ↦ absurd (
            not_started-not_current p.status
              (find-All (λ (q : MatterPhase). q.id == p.id)
                (λ (q : MatterPhase). is_not_started q.status ≡ true) ps fresh (rw e at found))
              current)
      ]

-- While a phase is in progress the workflow is not over.
pub over_of_current :
    (over : Option ℕ) (id : ℕ) (p : MatterPhase) (ps : List MatterPhase)
    → IsOnTrack over ps
    → find (λ (q : MatterPhase). q.id == id) ps ≡ some p
    → is_in_progress p.status ≡ true
    → over ≡ none
over_of_current over id p [] track found current = absurd (cc)
over_of_current over id p (x ∷ ps) (inr (_, (none_over, _))) found current = none_over
over_of_current over id p (x ∷ ps) (inl (f, track)) found current = elim (Bool-cases (x.id == id)) [
  | inl e ↦
      let same : x ≡ p = ground arith in absurd (finished-not_current x.status f (rw same current))
  | inr e ↦ over_of_current over id p ps track (rw e at found) current
]
