-- ===== src/Connect/Policy/Permission.antt =====
-- When crm/connect/policy.py lets an action out.
use open_immigration_crm.Prelude.{
  ℕ, Option, none, some, Option-cases, Bool-cases, inl, inr, true, false, refl, sym, ◌≡◌, ◌≤◌, ◌<◌,
  is_some, any, arith, ◌↔◌, ==_iff, ==_refl, text_eq, Bool, ◌&&◌,
}
use open_immigration_crm.Connect.Records.{
  Capability, Connector, Connection, User, active, enabled, is_active, data_flows_acknowledged,
  texting, capability_eq,
}
use open_immigration_crm.Connect.Policy.{
  allowed, Site, Attempt, opted_out, assigned_to, same_key, owner_sync, is_owner, manages,
  is_someone_elses, needs_manager, sent_last_hour, is_on, is_texting, evaluate,
}

-- Whom a connection may be used by: anyone, if no one owns it; its owner, by hand; or an automation,
-- for an action that the connector lists as keeping the owner's records in step, on a record that
-- is assigned to the owner.
pub data IsOwnUse (a : Attempt) : Type 0 where
  shared : a.connection.owner ≡ none → IsOwnUse a
  by_hand :
      (user : User)
      → a.is_automation ≡ false
      → a.actor ≡ some user
      → a.connection.owner ≡ some user.id
      → IsOwnUse a
  in_step :
      (cls : Connector)
      → a.is_automation ≡ true
      → a.connection.connector_class ≡ some cls
      → any (λ name. text_eq name a.action) cls.owner_sync_actions ≡ true
      → assigned_to a.target ≡ a.connection.owner
      → IsOwnUse a

-- Who may use a connection for managers: an automation, or someone who manages connections.
pub data IsManaged (a : Attempt) : Type 0 where
  for_all : a.connection.outbound_admin_only ≡ false → IsManaged a
  automated : a.is_automation ≡ true → IsManaged a
  by_manager : (user : User) → a.actor ≡ some user → user.manages_connections ≡ true → IsManaged a

-- The connector is installed, and what it sends was acknowledged in this version or a later one.
pub record IsReviewed (connection : Connection) : Type 0 where
  pub cls : Connector
  pub version : ℕ
  pub installed : connection.connector_class ≡ some cls
  pub acknowledged : connection.data_flows_version ≡ some version
  pub recent : cls.data_flows_version ≤ version

-- Every condition under which an action may run.
pub record IsPermitted (site : Site) (capability : Option Capability) (a : Attempt) : Type 0 where
  pub outbound : site.outbound_enabled ≡ true
  pub live : a.connection.status ≡ active
  pub on :
      (c : Capability) × ((capability ≡ some c)
        × (enabled c a.connection.enabled_capabilities ≡ true))
  pub reviewed : IsReviewed a.connection
  pub own : IsOwnUse a
  pub managed : IsManaged a
  pub reachable : capability ≡ some texting → opted_out a.target ≡ false
  pub within : sent_last_hour a.connection.id a.now site.requests < site.hourly_limit
  pub for_real : a.connection.preview_mode ≡ false

same_key_iff : (a b : Option ℕ) → (same_key a b ≡ true) ↔ (a ≡ b)
unfolding same_key
same_key_iff none none = (λ _. refl, λ _. refl)
same_key_iff none (some b) = (λ e. absurd (ground arith), λ e. absurd (ground arith))
same_key_iff (some a) none = (λ e. absurd (ground arith), λ e. absurd (ground arith))
same_key_iff (some a) (some b) = (
  λ e. (let same : a ≡ b = (==_iff a b).0 e in rw same refl),
  λ e. (let same : a ≡ b = ground arith in rw (same, ==_refl b) refl),
)

owner_sync-IsOwnUse : (a : Attempt) → a.is_automation ≡ true → owner_sync a ≡ true → IsOwnUse a
unfolding owner_sync
owner_sync-IsOwnUse a auto e = elim (Option-cases (a.connection.connector_class)) [
  | inl f ↦ absurd (ground (arith, e, f))
  | inr (cls, f) ↦
      let both : (any (λ name. text_eq name a.action) cls.owner_sync_actions
            && same_key (assigned_to a.target) a.connection.owner)
          ≡ true =
        rw f at e in
      in_step cls auto f (ground (arith, both))
        ((same_key_iff (assigned_to a.target) a.connection.owner).0 (ground (arith, both)))
]

is_owner-IsOwnUse : (a : Attempt) → a.is_automation ≡ false → is_owner a ≡ true → IsOwnUse a
unfolding is_owner
is_owner-IsOwnUse a by_user e = elim (Option-cases (a.actor)) [
  | inl f ↦ absurd (ground (arith, e, f))
  | inr (user, f) ↦
      let same : same_key (some user.id) a.connection.owner ≡ true = rw f at e in
      by_hand user by_user f (sym ((same_key_iff (some user.id) a.connection.owner).0 same))
]

is_someone_elses-IsOwnUse : (a : Attempt) → is_someone_elses a ≡ false → IsOwnUse a
unfolding is_someone_elses
is_someone_elses-IsOwnUse a e = elim (Option-cases (a.connection.owner)) [
  | inl f ↦ shared f
  | inr (user, f) ↦ elim (Bool-cases (a.is_automation)) [
    | inl g ↦ owner_sync-IsOwnUse a g (ground (arith, e, f, g))
    | inr g ↦ is_owner-IsOwnUse a g (ground (arith, e, f, g))
  ]
]

needs_manager-IsManaged : (a : Attempt) → needs_manager a ≡ false → IsManaged a
unfolding needs_manager manages
needs_manager-IsManaged a e = elim (Bool-cases (a.connection.outbound_admin_only)) [
  | inr f ↦ for_all f
  | inl f ↦ elim (Bool-cases (a.is_automation)) [
    | inl g ↦ automated g
    | inr g ↦ elim (Option-cases (a.actor)) [
      | inl h ↦ absurd (ground (arith, e, f, g, h))
      | inr (user, h) ↦ by_manager user h (ground (arith, e, f, g, h))
    ]
  ]
]

acknowledged-IsReviewed : (c : Connection) → data_flows_acknowledged c ≡ true → IsReviewed c
unfolding data_flows_acknowledged
acknowledged-IsReviewed c e = elim (Option-cases (c.connector_class)) [
  | inl f ↦ absurd (ground (arith, e, f))
  | inr (cls, f) ↦ elim (Option-cases (c.data_flows_version)) [
    | inl g ↦ absurd (ground (arith, e, f, g))
    | inr (version, g) ↦ record {
      cls = cls;
      version = version;
      installed = f;
      acknowledged = g;
      recent = ground (arith, e, f, g);
    }
  ]
]

-- The guards that `evaluate` passes where it allows an action.
record Passes (site : Site) (capability : Option Capability) (a : Attempt) : Type 0 where
  outbound : site.outbound_enabled ≡ true
  installed : is_some a.connection.connector_class ≡ true
  live : is_active a.connection.status ≡ true
  on : is_on capability a.connection ≡ true
  acknowledged : data_flows_acknowledged a.connection ≡ true
  own : is_someone_elses a ≡ false
  managed : needs_manager a ≡ false
  reachable : (is_texting capability && opted_out a.target) ≡ false
  within : sent_last_hour a.connection.id a.now site.requests < site.hourly_limit
  for_real : a.connection.preview_mode ≡ false

evaluate-Passes :
    (site : Site) (capability : Option Capability) (a : Attempt)
    → evaluate site capability a ≡ allowed
    → Passes site capability a
unfolding evaluate
evaluate-Passes site capability a e = ground arith

is_on-some :
    (capability : Option Capability) (c : Connection)
    → is_on capability c ≡ true
    → (k : Capability) × ((capability ≡ some k) × (enabled k c.enabled_capabilities ≡ true))
unfolding is_on
is_on-some none c e = absurd (ground (arith, e))
is_on-some (some k) c e = (k, (refl, e))

reached :
    (capability : Option Capability) (closed : Bool)
    → (is_texting capability && closed) ≡ false
    → capability ≡ some texting
    → closed ≡ false
unfolding is_texting capability_eq
reached capability closed e same = ground (arith, rw same at e)

only_active : (a : Attempt) → is_active a.connection.status ≡ true → a.connection.status ≡ active
unfolding is_active
only_active a e = ground (arith, e)

pub IsPermitted-evaluate :
    (site : Site) (capability : Option Capability) (a : Attempt)
    → evaluate site capability a ≡ allowed
    → IsPermitted site capability a
IsPermitted-evaluate site capability a e =
    let p = evaluate-Passes site capability a e in
    record {
      outbound = p.outbound;
      live = only_active a p.live;
      on = is_on-some capability a.connection p.on;
      reviewed = acknowledged-IsReviewed a.connection p.acknowledged;
      own = is_someone_elses-IsOwnUse a p.own;
      managed = needs_manager-IsManaged a p.managed;
      reachable = reached capability (opted_out a.target) p.reachable;
      within = p.within;
      for_real = p.for_real;
    }
