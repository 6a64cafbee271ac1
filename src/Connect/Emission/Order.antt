-- ===== src/Connect/Emission/Order.antt =====
-- What a transaction of crm/events/services.py queues for one object.
use open_immigration_crm.Prelude.{
  ℕ, ◌≡◌, ◌≢◌, refl, ap, List, [], ◌∷◌, ◌++◌, Option, none, some, Option-cases, Bool-cases, true,
  false, ◌==◌, All, any, map, Text, text_eq, text_eq_refl, codes, is_empty, inl, inr, arith,
}
use open_immigration_crm.Connect.Records.{Connection}
use open_immigration_crm.Connect.Emission.{
  Pending, ends_with, object_name, is_covered, subscribed, emit, emit_all,
}

-- The change of an object whose creation is given: an object's name has no dot.
pub record IsUpdateOf (created event_type : Text) : Type 0 where
  pub object : Text
  pub no_dot : any (λ c. c == 46) object ≡ false
  pub is_created : created ≡ object ++ codes ".created"
  pub is_updated : event_type ≡ object ++ codes ".updated"

-- Another type, and not the change of an object whose creation the earlier one is.
pub record IsApart (event_type earlier : Text) : Type 0 where
  pub differs : earlier ≢ event_type
  pub no_update : ¬ IsUpdateOf earlier event_type

-- At least one connection gets each callback, and its type is apart from those of all before it.
abbrev pub AreNew : List (Text × List ℕ) → Type 0
AreNew [] = Unit
AreNew ((event_type, ids) ∷ older) =
    All (λ (c : Text × List ℕ). IsApart event_type c.0) older
    × ((is_empty ids ≡ false) × AreNew older)

ends_with-append : (suffix text : Text) → ends_with suffix (text ++ suffix) ≡ true
unfolding ends_with
ends_with-append [] [] = refl
ends_with-append (c ∷ suffix) [] = rw (text_eq_refl (c ∷ suffix)) refl
ends_with-append suffix (c ∷ text) = ground (arith, ends_with-append suffix text)

object_name-append :
    (object rest : Text)
    → any (λ c. c == 46) object ≡ false
    → object_name (object ++ 46 ∷ rest) ≡ object
unfolding object_name
object_name-append [] rest h = refl
object_name-append (c ∷ object) rest h = elim (Bool-cases (c == 46)) [
  | inl e ↦ absurd (ground (arith, h, e))
  | inr e ↦
      let later : any (λ c. c == 46) object ≡ false = ground (arith, h, e) in
      rw e (ap (λ t. c ∷ t) (object_name-append object rest later))
]

covered_update :
    (object : Text) (types : List Text)
    → any (λ c. c == 46) object ≡ false
    → is_covered (object ++ codes ".updated") ((object ++ codes ".created") ∷ types) ≡ true
unfolding is_covered
covered_update object types h =
    rw
      (
        ends_with-append (codes ".updated") object,
        object_name-append object (codes "updated") h,
        text_eq_refl (object ++ codes ".created"),
      )
      (ground arith)

covered_again :
    (event_type : Text) (types : List Text) → is_covered event_type (event_type ∷ types) ≡ true
unfolding is_covered
covered_again event_type types = rw (text_eq_refl event_type) refl

IsApart-first :
    (event_type first : Text) (types : List Text)
    → is_covered event_type (first ∷ types) ≡ false
    → IsApart event_type first
IsApart-first event_type first types h = record {
  differs = λ same.
      (let covered : is_covered event_type (first ∷ types) ≡ true =
          rw same (covered_again event_type types) in
        absurd (cc));
  no_update = λ u.
      (let covered : is_covered event_type (first ∷ types) ≡ true =
          rw (u.is_created, u.is_updated) (covered_update u.object types u.no_dot) in
        absurd (cc));
}

fewer_cover :
    (event_type first : Text) (types : List Text)
    → is_covered event_type (first ∷ types) ≡ false
    → is_covered event_type types ≡ false
unfolding is_covered
fewer_cover event_type first types h = ground (arith, h)

All-IsApart :
    (event_type : Text) (older : List (Text × List ℕ))
    → is_covered event_type (map (λ (c : Text × List ℕ). c.0) older) ≡ false
    → All (λ (c : Text × List ℕ). IsApart event_type c.0) older
All-IsApart event_type [] h = tt
All-IsApart event_type (c ∷ older) h =
    let types = map (λ (c : Text × List ℕ). c.0) older in
    (
      IsApart-first event_type c.0 types h,
      All-IsApart event_type older (fewer_cover event_type c.0 types h),
    )

pub record IsInStep (pending : Pending) : Type 0 where
  pub in_step : pending.types ≡ map (λ (c : Text × List ℕ). c.0) pending.callbacks
  pub new : AreNew pending.callbacks

abbrev IsFine : Option Pending → Type 0
IsFine none = Unit
IsFine (some pending) = IsInStep pending

emit-IsFine :
    (event_types : List Text) (connections : List Connection) (chosen : ℕ → List Text)
    (event_type : Text) (pending : Pending)
    → IsInStep pending
    → IsFine (emit event_types connections chosen event_type pending)
unfolding emit
emit-IsFine event_types connections chosen event_type pending h =
    let ids = map (λ (c : Connection). c.id) (subscribed connections chosen event_type) in
    elim (Bool-cases (any (text_eq event_type) event_types)) [
      | inr e ↦ rw (e, IsFine) tt
      | inl e ↦ rw e (elim (Bool-cases (is_empty ids)) [
        | inl f ↦ rw (f, IsFine) h
        | inr f ↦ rw f (elim (Bool-cases (is_covered event_type pending.types)) [
          | inl g ↦ rw (g, IsFine) h
          | inr g ↦
              rw (g, IsFine)
                record {
                  in_step = ap (λ types. event_type ∷ types) h.in_step;
                  new = (All-IsApart event_type pending.callbacks (rw h.in_step at g), (f, h.new));
                }
        ])
      ])
    ]

emit_all-IsFine :
    (event_types : List Text) (connections : List Connection) (chosen : ℕ → List Text)
    (emitted : List Text) (pending : Pending)
    → IsInStep pending
    → IsFine (emit_all event_types connections chosen emitted pending)
unfolding emit_all
emit_all-IsFine event_types connections chosen [] pending h = h
emit_all-IsFine event_types connections chosen (event_type ∷ later) pending h =
    let fine = emit-IsFine event_types connections chosen event_type pending h in
    elim (Option-cases (emit event_types connections chosen event_type pending)) [
      | inl e ↦ rw (e, emit_all, IsFine) tt
      | inr (after, e) ↦
          rw (e, emit_all)
            (emit_all-IsFine event_types connections chosen later after (rw e at fine))
    ]

-- Whatever a transaction emits for one object that had nothing pending, if no type is unknown: what
-- it registers to queue is for at least one connection each time, never twice of one type, and never
-- an `object.updated` after the `object.created` of the same object, an object's name having no dot.
pub emit_all-AreNew :
    (event_types : List Text) (connections : List Connection) (chosen : ℕ → List Text)
    (emitted : List Text) (after : Pending)
    → emit_all event_types connections chosen emitted (record { types = []; callbacks = [] })
      ≡ some after
    → AreNew after.callbacks
emit_all-AreNew event_types connections chosen emitted after e =
    let fine =
      emit_all-IsFine event_types connections chosen emitted (record { types = []; callbacks = [] })
        (record { in_step = refl; new = tt }) in
    let kept : IsInStep after = rw e at fine in kept.new
