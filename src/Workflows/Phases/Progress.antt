-- ===== src/Workflows/Phases/Progress.antt =====
-- A matter's workflow as a counter of finished phases: `finish_phase` on the current phase counts one
-- more, and the workflow is over when all are counted.
use mathlib.Core.Path.{subst}
use open_immigration_crm.Prelude.{
  ℕ, suc, ◌+◌, ◌≡◌, ◌≤◌, ◌<◌, inl, inr, refl, ap, List, [], ◌∷◌, none, some, Bool, true, false,
  ◌==◌, ==_refl, find, find-All, select, length, is_some, Bool-cases, arith, if◌then◌else◌,
}
use open_immigration_crm.Workflows.Records.{
  MatterPhase, MatterWorkflow, is_in_progress, is_finished,
}
use open_immigration_crm.Workflows.Phases.{save_phase}
use open_immigration_crm.Workflows.Phases.Track.{
  IsBefore, AreSorted, IsOnTrack, finished-not_current,
}

pub record Progress : Type 0 where
  pub total : ℕ
  pub done : ℕ
  pub over : Bool

-- One phase more is done.
unfoldable pub advance : Progress → Progress
advance p = record p { done = suc p.done; over = suc p.done == p.total }

abbrev pub finished : List MatterPhase → ℕ
finished ps = length (select (λ (p : MatterPhase). is_finished p.status) ps)

unfoldable pub progress_of : MatterWorkflow → Progress
progress_of w = record {
  total = length w.phases;
  done = finished w.phases;
  over = is_some w.completed_at;
}

pub length-save_phase :
    (r : MatterPhase) (ps : List MatterPhase) → length (save_phase r ps) ≡ length ps
unfolding save_phase
length-save_phase r [] = refl
length-save_phase r (p ∷ ps) = elim (Bool-cases (p.id == r.id)) [
  | inl e ↦ rw e refl
  | inr e ↦ rw e (ap suc (length-save_phase r ps))
]

pub finished-save_phase :
    (r p : MatterPhase) (ps : List MatterPhase)
    → find (λ (q : MatterPhase). q.id == r.id) ps ≡ some p
    → finished (save_phase r ps) + (if is_finished p.status then 1 else 0)
      ≡ finished ps + (if is_finished r.status then 1 else 0)
unfolding save_phase
finished-save_phase r p [] found = absurd (cc)
finished-save_phase r p (x ∷ ps) found = elim (Bool-cases (x.id == r.id)) [
  | inl e ↦
      let same : x ≡ p = ground arith in
      rw e (ground (arith, ap (λ (q : MatterPhase). is_finished q.status) same))
  | inr e ↦ let rest = finished-save_phase r p ps (rw e at found) in rw e (ground arith)
]

-- Keys tell sorted phases apart.
pub find_own :
    (q : MatterPhase → Bool) (ps : List MatterPhase) {n : MatterPhase}
    → AreSorted ps
    → find q ps ≡ some n
    → find (λ (p : MatterPhase). p.id == n.id) ps ≡ some n
find_own q [] sorted found = absurd (cc)
find_own q (x ∷ ps) {n} sorted found = elim (Bool-cases (q x)) [
  | inl e ↦
      let same : x ≡ n = ground arith in
      subst (λ (m : MatterPhase). find (λ (p : MatterPhase). p.id == m.id) (x ∷ ps) ≡ some m) same
        (rw (==_refl x.id) refl)
  | inr e ↦
      let later : find q ps ≡ some n = rw e at found in
      let apart : (x.id == n.id) ≡ false =
        ground (arith, (find-All q (IsBefore x) ps sorted.0 later).0) in
      rw apart (find_own q ps sorted.1 later)
]

pub finished_some :
    (t : ℕ) (ps : List MatterPhase) → IsOnTrack (some t) ps → finished ps ≡ length ps
finished_some t [] h = refl
finished_some t (p ∷ ps) (inl (f, h)) = rw f (ap suc (finished_some t ps h))
finished_some t (p ∷ ps) (inr (_, (never, _))) = absurd (cc)

finished_most : (ps : List MatterPhase) → finished ps ≤ length ps
finished_most [] = omega (arith)
finished_most (p ∷ ps) = ground (arith, finished_most ps)

pub finished_none : (ps : List MatterPhase) → IsOnTrack none ps → finished ps < length ps
finished_none [] h = absurd (cc)
finished_none (p ∷ ps) (inl (f, h)) = rw f (omega (finished_none ps h, arith))
finished_none (p ∷ ps) (inr (c, _)) = elim (Bool-cases (is_finished p.status)) [
  | inl e ↦ absurd (finished-not_current p.status e c)
  | inr e ↦ rw e (omega (finished_most ps, arith))
]

-- A workflow that is not over has a current phase.
pub current_phase_of :
    (ps : List MatterPhase)
    → IsOnTrack none ps
    → (p : MatterPhase) × ((find (λ (q : MatterPhase). is_in_progress q.status) ps ≡ some p)
        × (is_in_progress p.status ≡ true))
current_phase_of [] h = absurd (cc)
current_phase_of (p ∷ ps) (inr (c, _)) = (p, (rw c refl, c))
current_phase_of (p ∷ ps) (inl (f, h)) =
    let (n, (found, c)) = current_phase_of ps h in
    elim (Bool-cases (is_in_progress p.status)) [
      | inl e ↦ absurd (finished-not_current p.status f e)
      | inr e ↦ (n, (rw e found, c))
    ]
