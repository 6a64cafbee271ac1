-- ===== src/Connect/Emission.antt =====
-- What one transaction registers to queue for one object: `subscribed` and `emit` of
-- crm/events/services.py.
pub mod Order
use open_immigration_crm.Prelude.{
  ℕ, List, [], ◌∷◌, ◌++◌, Option, none, some, Bool, true, false, not, ◌&&◌, ◌||◌, ◌==◌, any, map,
  select, Text, text_eq, codes, is_empty, if◌then◌else◌,
}
use open_immigration_crm.Connect.Records.{
  Connection, ConnectionStatus, disconnected, automation, enabled,
}

unfoldable pub is_disconnected : ConnectionStatus → Bool
is_disconnected disconnected = true
is_disconnected _ = false

-- `subscribed`, with the events that a connection's `config` chooses.
unfoldable pub subscribed : List Connection → (ℕ → List Text) → Text → List Connection
unfolding is_disconnected
subscribed connections chosen event_type =
    select
      (λ (c : Connection).
        not (is_disconnected c.status)
        && enabled automation c.enabled_capabilities
        && any (text_eq event_type) (chosen c.id))
      connections

-- `event_type.split(".", 1)[0]`
unfoldable pub object_name : Text → Text
object_name [] = []
object_name (c ∷ text) = if c == 46 then [] else c ∷ object_name text

-- `text.endswith(suffix)`
unfoldable pub ends_with : Text → Text → Bool
ends_with suffix [] = is_empty suffix
ends_with suffix (c ∷ text) = text_eq suffix (c ∷ text) || ends_with suffix text

-- The event types pending for the object, newest first, and what is to be queued on commit: a type
-- and the connections that get it.
pub record Pending : Type 0 where
  pub types : List Text
  pub callbacks : List (Text × List ℕ)

unfoldable pub is_covered : Text → List Text → Bool
unfolding object_name ends_with
is_covered event_type types =
    any (text_eq event_type) types
    || (ends_with (codes ".updated") event_type
        && any (text_eq (object_name event_type ++ codes ".created")) types)

-- `emit`, given `EVENT_TYPES`; `none` is a `ValueError`.
unfoldable pub emit :
    List Text → List Connection → (ℕ → List Text) → Text → Pending → Option Pending
unfolding subscribed is_covered
emit event_types connections chosen event_type pending =
    let ids = map (λ (c : Connection). c.id) (subscribed connections chosen event_type) in
    if not (any (text_eq event_type) event_types)
    then none
    else if is_empty ids
    then some pending
    else if is_covered event_type pending.types
    then some pending
    else some record {
      types = event_type ∷ pending.types;
      callbacks = (event_type, ids) ∷ pending.callbacks;
    }

-- The emissions of one transaction, the object's saves in their order.
unfoldable pub emit_all :
    List Text → List Connection → (ℕ → List Text) → List Text → Pending → Option Pending
emit_all event_types connections chosen [] pending = some pending
emit_all event_types connections chosen (event_type ∷ later) pending =
    elim (emit event_types connections chosen event_type pending) [
      | none ↦ none
      | some after ↦ emit_all event_types connections chosen later after
    ]
