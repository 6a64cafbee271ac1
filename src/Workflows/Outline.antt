-- ===== src/Workflows/Outline.antt =====
-- Templates written as outlines: `parse_outline` and `outline_text` of crm/workflows/services.py.
pub mod Limits
use open_immigration_crm.Prelude.{
  ℕ, zero, suc, ◌+◌, ◌*◌, List, [], ◌∷◌, ◌++◌, Option, none, some, Bool, true, false, not, ◌&&◌,
  ◌||◌, ◌==◌, leb, ltb, any, map, length, sum, Text, text_eq, codes, strip, is_empty, Result, ok,
  err, if◌then◌else◌,
}
use open_immigration_crm.Workflows.Records.{OutlinePhase, ItemTemplate, PhaseTemplate}

-- The `ValidationError`s, with the number of the line.
pub data OutlineError : Type 0 where
  no_phase_before no_title long_title bad_name : (line : ℕ) → OutlineError
  nothing too_many_phases too_many_items : OutlineError

-- `MAX_PHASES` and `MAX_ITEMS`
unfoldable pub max_phases : ℕ
max_phases = 30

unfoldable pub max_items : ℕ
max_items = 300

-- The characters at which `str.splitlines` ends a line.
unfoldable pub is_break : ℕ → Bool
is_break c = (leb 10 c && leb c 13) || (leb 28 c && leb c 30) || c == 133 || c == 8232 || c == 8233

-- A character before the first line.
unfoldable pub before_line : ℕ → List Text → List Text
before_line c [] = (c ∷ []) ∷ []
before_line c (line ∷ lines) = (c ∷ line) ∷ lines

-- The lines of a text, behind a carriage return or not.
unfoldable pub lines_of : Bool → Text → List Text
unfolding is_break before_line
lines_of after_return [] = []
lines_of after_return (c ∷ s) =
    let same_line = lines_of false s in
    let next_line = lines_of (c == 13) s in
    if after_return && c == 10
    then same_line
    else if is_break c
    then [] ∷ next_line
    else before_line c same_line

unfoldable pub splitlines : Text → List Text
unfolding lines_of
splitlines text = lines_of false text

-- Whether a character matches a small letter or another character of the pattern, with IGNORECASE.
unfoldable pub matches : ℕ → ℕ → Bool
matches p c =
    c == p
    || (leb 97 p && leb p 122 && c + 32 == p)
    || (p == 105 && (c == 304 || c == 305))
    || (p == 115 && c == 383)

-- What is left of a text behind a part of the pattern.
unfoldable pub eat : Text → Text → Option Text
unfolding matches
eat [] s = some s
eat (p ∷ ps) [] = none
eat (p ∷ ps) (c ∷ s) = let rest = eat ps s in if matches p c then rest else none

-- The end of the pattern: ` day)` or ` days)`.
unfoldable pub is_end : Text → Bool
unfolding eat
is_end s =
    elim (eat (codes " day)") s) [ none ↦ false | some rest ↦ is_empty rest ]
    || elim (eat (codes " days)") s) [ none ↦ false | some rest ↦ is_empty rest ]

module _ (digit : ℕ → Option ℕ) where
  -- At most so many digits, behind a number that was read, and the end of the pattern.
  unfoldable pub number_to_end : ℕ → ℕ → Text → Option ℕ
  unfolding is_end
  number_to_end zero value s = if is_end s then some value else none
  number_to_end (suc more) value [] = none
  number_to_end (suc more) value (c ∷ s) = elim (digit c) [
    | none ↦ if is_end (c ∷ s) then some value else none
    | some d ↦ number_to_end more (value * 10 + d) s
  ]

  unfoldable pub number_from : Text → Option ℕ
  unfolding number_to_end
  number_from [] = none
  number_from (c ∷ s) = elim (digit c) [ none ↦ none | some d ↦ number_to_end 2 d s ]

  -- A match of `DUE_PATTERN` that begins here, with its number.
  unfoldable pub due_here : Text → Option ℕ
  unfolding eat number_from
  due_here s = elim (eat (codes "(due in ") s) [ none ↦ none | some rest ↦ number_from rest ]

  -- `DUE_PATTERN.search`: the text before the first match, and the number.
  unfoldable pub search_due : Text → Option (Text × ℕ)
  unfolding due_here
  search_due [] = none
  search_due (c ∷ s) =
      let later = search_due s in
      elim (due_here (c ∷ s)) [
        | some days ↦ some ([], days)
        | none ↦ elim later [ none ↦ none | some (before, days) ↦ some (c ∷ before, days) ]
      ]

  -- A phase's name and its days.
  unfoldable pub phase_of : Text → Text × Option ℕ
  unfolding search_due
  phase_of line = elim (search_due line) [
    | none ↦ (line, none)
    | some (before, days) ↦ (strip before, some days)
  ]

-- `partition("|")`, without the bar.
unfoldable pub partition : Text → Text × Text
partition [] = ([], [])
partition (c ∷ s) =
    let (before, behind) = partition s in if c == 124 then ([], s) else (c ∷ before, behind)

-- `phases[-1][2].append`
unfoldable pub add_item : Text × Text → List OutlinePhase → List OutlinePhase
add_item item [] = []
add_item item (p ∷ []) = record p { items = p.items ++ item ∷ [] } ∷ []
add_item item (p ∷ q ∷ ps) = p ∷ add_item item (q ∷ ps)

unfoldable pub read_item : ℕ → Text → List OutlinePhase → Result OutlineError (List OutlinePhase)
unfolding partition add_item
read_item number text phases =
    let parts = partition text in
    let title = strip parts.0 in
    if is_empty phases
    then err (no_phase_before number)
    else if is_empty title
    then err (no_title number)
    else if ltb 255 (length title)
    then err (long_title number)
    else ok (add_item (title, strip parts.1) phases)

unfoldable pub read_phase :
    (ℕ → Option ℕ) → ℕ → Text → List OutlinePhase → Result OutlineError (List OutlinePhase)
unfolding phase_of
read_phase digit number line phases =
    let found = phase_of digit line in
    if is_empty found.0 || ltb 200 (length found.0)
    then err (bad_name number)
    else ok (phases ++ record { name = found.0; due_days = found.1; items = [] } ∷ [])

-- One turn of the loop, with the stripped line.
unfoldable pub read_line :
    (ℕ → Option ℕ) → ℕ → Text → List OutlinePhase → Result OutlineError (List OutlinePhase)
unfolding read_item read_phase
read_line digit number [] phases = ok phases
read_line digit number (c ∷ line) phases =
    if c == 45 then read_item number line phases else read_phase digit number (c ∷ line) phases

unfoldable pub read_lines :
    (ℕ → Option ℕ) → ℕ → List Text → List OutlinePhase → Result OutlineError (List OutlinePhase)
unfolding read_line
read_lines digit number [] phases = ok phases
read_lines digit number (raw ∷ lines) phases = elim (read_line digit number (strip raw) phases) [
  | err error ↦ err error
  | ok read ↦ read_lines digit (number + 1) lines read
]

unfoldable pub item_count : List OutlinePhase → ℕ
item_count phases = sum (map (λ (p : OutlinePhase). length p.items) phases)

-- `parse_outline`, with the value of each character that is a digit.
unfoldable pub parse_outline : (ℕ → Option ℕ) → Text → Result OutlineError (List OutlinePhase)
unfolding read_lines splitlines item_count max_phases max_items
parse_outline digit text = elim (read_lines digit 1 (splitlines text) []) [
  | err error ↦ err error
  | ok phases ↦
      if is_empty phases
      then err nothing
      else if ltb max_phases (length phases)
      then err too_many_phases
      else if ltb max_items (item_count phases)
      then err too_many_items
      else ok phases
]

-- A line of `outline_text` for an item.
unfoldable pub item_line : ItemTemplate → Text
item_line item =
    codes "- "
    ++ item.title
    ++ (if is_empty item.description then [] else codes " | " ++ item.description)

-- The line for a phase, with the text of a number.
unfoldable pub phase_line : (ℕ → Text) → PhaseTemplate → Text
phase_line show phase = elim (phase.due_days) [
  | none ↦ phase.name
  | some days ↦
      if days == 0
      then phase.name
      else phase.name
        ++ codes " (due in "
        ++ show days
        ++ (if days == 1 then codes " day)" else codes " days)")
]

unfoldable pub lines_for : (ℕ → Text) → List PhaseTemplate → List Text
unfolding phase_line item_line
lines_for show [] = []
lines_for show (phase ∷ phases) =
    (phase_line show phase ∷ map item_line phase.items) ++ [] ∷ lines_for show phases

-- `"\n".join`
unfoldable pub joined : List Text → Text
joined [] = []
joined (line ∷ []) = line
joined (line ∷ next ∷ lines) = line ++ 10 ∷ joined (next ∷ lines)

-- `outline_text`
unfoldable pub outline_text : (ℕ → Text) → List PhaseTemplate → Text
unfolding lines_for joined
outline_text show phases = strip (joined (lines_for show phases))
