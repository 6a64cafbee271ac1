-- ===== src/Workflows/Outline/Limits.antt =====
-- What an outline that is read keeps to.
use mathlib.Core.Path.{subst}
use open_immigration_crm.Prelude.{
  ℕ, zero, suc, ◌+◌, ◌*◌, ◌≡◌, ◌≤◌, ◌<◌, inl, inr, List, [], ◌∷◌, Option, none, some, Option-cases,
  false, ◌||◌, ◌==◌, ltb, length, All, All-append, Text, codes, strip, is_empty, ok, err, IfOk,
  IfOk-then, if◌then◌else◌, Bool-cases, arith,
}
use open_immigration_crm.Workflows.Records.{OutlinePhase}
use open_immigration_crm.Workflows.Outline.{
  nothing, too_many_phases, too_many_items, max_phases, max_items, splitlines, is_end,
  number_to_end, number_from, eat, due_here, search_due, phase_of, partition, add_item, read_item,
  read_phase, read_line, read_lines, item_count, parse_outline,
}

abbrev pub IsDueIn : Option ℕ → Type 0
IsDueIn none = Unit
IsDueIn (some days) = days < 1000

pub record IsTitled (item : Text × Text) : Type 0 where
  pub some_title : 0 < length item.0
  pub short_title : length item.0 ≤ 255

pub record IsFit (phase : OutlinePhase) : Type 0 where
  pub some_name : 0 < length phase.name
  pub short_name : length phase.name ≤ 200
  pub due : IsDueIn phase.due_days
  pub items : All IsTitled phase.items

pub record IsWithin (phases : List OutlinePhase) : Type 0 where
  pub some_phase : 0 < length phases
  pub few_phases : length phases ≤ 30
  pub few_items : item_count phases ≤ 300
  pub fit : All IsFit phases

-- A bound with so many zeros more.
abbrev tens : ℕ → ℕ → ℕ
tens zero b = b
tens (suc k) b = tens k (b * 10)

tens_grows : (k b : ℕ) → b ≤ tens k b
tens_grows zero b = omega arith
tens_grows (suc k) b = let more = tens_grows k (b * 10) in omega (more, arith)

length_some {ℓ} : {A : Type ℓ} (xs : List A) → is_empty xs ≡ false → 0 < length xs
length_some [] e = absurd (cc)
length_some (x ∷ xs) e = omega arith

none_not_some : {A : Type 0} {a : A} → none ≡ some a → ⊥
none_not_some e = absurd (cc)

module _ (digit : ℕ → Option ℕ) (small : (c d : ℕ) → digit c ≡ some d → d < 10) where
  number_to_end_bound :
      (k b v n : ℕ) (s : Text) → v < b → number_to_end digit k v s ≡ some n → n < tens k b
  unfolding number_to_end
  number_to_end_bound zero b v n s l e = elim (Bool-cases (is_end s)) [
    | inl f ↦ ground arith
    | inr f ↦ absurd (ground arith)
  ]
  number_to_end_bound (suc k) b v n [] l e = absurd (cc)
  number_to_end_bound (suc k) b v n (c ∷ s) l e = elim (Option-cases (digit c)) [
    | inl f ↦
        let ends : (if is_end (c ∷ s) then some v else none) ≡ some n =
          rw (f, number_to_end) at e in
        let grows = tens_grows (suc k) b in
        elim (Bool-cases (is_end (c ∷ s))) [
          | inl g ↦ (let same : v ≡ n = ground arith in omega (same, grows, l, arith))
          | inr g ↦ absurd (ground arith)
        ]
    | inr (d, f) ↦
        let rest : number_to_end digit k (v * 10 + d) s ≡ some n = rw (f, number_to_end) at e in
        number_to_end_bound k (b * 10) (v * 10 + d) n s (omega (l, small c d f, arith)) rest
  ]

  number_from_bound : (n : ℕ) (s : Text) → number_from digit s ≡ some n → n < 1000
  unfolding number_from
  number_from_bound n [] e = absurd (cc)
  number_from_bound n (c ∷ s) e = elim (Option-cases (digit c)) [
    | inl f ↦ absurd (none_not_some (rw (f, number_from) at e))
    | inr (d, f) ↦
        let rest : number_to_end digit 2 d s ≡ some n = rw (f, number_from) at e in
        let bound = number_to_end_bound 2 10 d n s (small c d f) rest in omega (bound, arith)
  ]

  due_here_bound : (n : ℕ) (s : Text) → due_here digit s ≡ some n → n < 1000
  unfolding due_here
  due_here_bound n s e = elim (Option-cases (eat (codes "(due in ") s)) [
    | inl f ↦ absurd (none_not_some (rw (f, due_here) at e))
    | inr (rest, f) ↦ number_from_bound n rest (rw (f, due_here) at e)
  ]

  search_due_bound : (s before : Text) (n : ℕ) → search_due digit s ≡ some (before, n) → n < 1000
  unfolding search_due
  search_due_bound [] before n e = absurd (cc)
  search_due_bound (c ∷ s) before n e = elim (Option-cases (due_here digit (c ∷ s))) [
    | inr (days, f) ↦
        let found : some ([], days) ≡ some (before, n) = rw (f, search_due) at e in
        let same : days ≡ n = ground arith in
        subst (λ m. m < 1000) same (due_here_bound days (c ∷ s) f)
    | inl f ↦ elim (Option-cases (search_due digit s)) [
      | inl g ↦ absurd (none_not_some (rw (f, g, search_due) at e))
      | inr ((b, days), g) ↦
          let found : some (c ∷ b, days) ≡ some (before, n) = rw (f, g, search_due) at e in
          let same : days ≡ n = ground arith in
          subst (λ m. m < 1000) same (search_due_bound s b days g)
    ]
  ]

  phase_of-IsDueIn : (line : Text) → IsDueIn (phase_of digit line).1
  unfolding phase_of
  phase_of-IsDueIn line = elim (Option-cases (search_due digit line)) [
    | inl e ↦ rw (e, phase_of) tt
    | inr ((before, days), e) ↦ rw (e, phase_of) (search_due_bound line before days e)
  ]

  add_item-IsFit :
      (item : Text × Text) (phases : List OutlinePhase)
      → IsTitled item
      → All IsFit phases
      → All IsFit (add_item item phases)
  unfolding add_item
  add_item-IsFit item [] h fit = tt
  add_item-IsFit item (p ∷ []) h fit = (
    record {
      some_name = fit.0.some_name;
      short_name = fit.0.short_name;
      due = fit.0.due;
      items = All-append IsTitled p.items (item ∷ []) fit.0.items (h, tt);
    },
    tt,
  )
  add_item-IsFit item (p ∷ q ∷ ps) h fit = (fit.0, add_item-IsFit item (q ∷ ps) h fit.1)

  read_item-IsFit :
      (number : ℕ) (text : Text) (phases : List OutlinePhase)
      → All IsFit phases
      → IfOk (All IsFit) (read_item number text phases)
  unfolding read_item
  read_item-IsFit number text phases fit = elim (Bool-cases (is_empty phases)) [
    | inl e ↦ rw (e, read_item) tt
    | inr e ↦
        let title = strip (partition text).0 in
        elim (Bool-cases (is_empty title)) [
          | inl f ↦ rw (e, f, read_item) tt
          | inr f ↦ elim (Bool-cases (ltb 255 (length title))) [
            | inl g ↦ rw (e, f, g, read_item) tt
            | inr g ↦
                rw (e, f, g, read_item)
                  (add_item-IsFit (title, strip (partition text).1) phases
                    (record { some_title = length_some title f; short_title = ground (arith, g) })
                    fit)
          ]
        ]
  ]

  read_phase-IsFit :
      (number : ℕ) (line : Text) (phases : List OutlinePhase)
      → All IsFit phases
      → IfOk (All IsFit) (read_phase digit number line phases)
  unfolding read_phase
  read_phase-IsFit number line phases fit =
      let name = (phase_of digit line).0 in
      elim (Bool-cases (is_empty name || ltb 200 (length name))) [
        | inl e ↦ rw (e, read_phase) tt
        | inr e ↦
            rw (e, read_phase)
              (All-append IsFit phases _ fit (
                record {
                  some_name = length_some name (ground (arith, e));
                  short_name = ground (arith, e);
                  due = phase_of-IsDueIn line;
                  items = tt;
                },
                tt,
              ))
      ]

  read_line-IsFit :
      (number : ℕ) (line : Text) (phases : List OutlinePhase)
      → All IsFit phases
      → IfOk (All IsFit) (read_line digit number line phases)
  unfolding read_line
  read_line-IsFit number [] phases fit = fit
  read_line-IsFit number (c ∷ line) phases fit = elim (Bool-cases (c == 45)) [
    | inl e ↦ rw e (read_item-IsFit number line phases fit)
    | inr e ↦ rw e (read_phase-IsFit number (c ∷ line) phases fit)
  ]

  read_lines-IsFit :
      (number : ℕ) (lines : List Text) (phases : List OutlinePhase)
      → All IsFit phases
      → IfOk (All IsFit) (read_lines digit number lines phases)
  unfolding read_lines
  read_lines-IsFit number [] phases fit = fit
  read_lines-IsFit number (raw ∷ lines) phases fit =
      IfOk-then (All IsFit) (All IsFit) (read_line digit number (strip raw) phases)
        (read_lines digit (number + 1) lines) (read_lines-IsFit (number + 1) lines)
        (read_line-IsFit number (strip raw) phases fit)

  limited :
      (phases : List OutlinePhase)
      → All IsFit phases
      → IfOk IsWithin (
          if is_empty phases
          then err nothing
          else if ltb max_phases (length phases)
          then err too_many_phases
          else if ltb max_items (item_count phases)
          then err too_many_items
          else ok phases)
  unfolding max_phases max_items
  limited phases fit = elim (Bool-cases (is_empty phases)) [
    | inl e ↦ rw e tt
    | inr e ↦ elim (Bool-cases (ltb 30 (length phases))) [
      | inl f ↦ rw (e, f) tt
      | inr f ↦ elim (Bool-cases (ltb 300 (item_count phases))) [
        | inl g ↦ rw (e, f, g) tt
        | inr g ↦
            rw (e, f, g)
              (record {
                some_phase = length_some phases e;
                few_phases = ground (arith, f);
                few_items = ground (arith, g);
                fit = fit;
              })
      ]
    ]
  ]

-- Where each digit is worth less than ten: an outline that is read has 1 to 30 phases with 300 items
-- at most; each phase has a name of 1 to 200 characters and is due within 999 days, if at all, and
-- each item has a title of 1 to 255 characters.
pub parse_outline-IsWithin :
    (digit : ℕ → Option ℕ)
    → ((c d : ℕ) → digit c ≡ some d → d < 10)
    → (text : Text) → IfOk IsWithin (parse_outline digit text)
unfolding parse_outline
parse_outline-IsWithin digit small text =
    IfOk-then (All IsFit) IsWithin (read_lines digit 1 (splitlines text) []) _ (limited digit small)
      (read_lines-IsFit digit small 1 (splitlines text) [] tt)
