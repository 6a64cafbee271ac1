-- ===== src/Connect/Access/Usable.antt =====
-- The connections that are offered for an action: four answers of the outbound policy that do not
-- come when a staff member uses them by hand.
use open_immigration_crm.Prelude.{
  ◌≡◌, ◌≢◌, inl, inr, refl, ap, List, some, Option-cases, true, false, ◌&&◌, ◌==◌, All, All-map,
  All-both, select, select-All, select_passes, is_some, Text, arith,
}
use open_immigration_crm.Connect.Records.{Capability, enabled, is_active, Connection, User}
use open_immigration_crm.Connect.Policy.{
  Site, Attempt, evaluate, connector_not_installed, connection_inactive, capability_not_enabled,
  personal_connection, is_on, is_someone_elses, is_owner, same_key,
}
use open_immigration_crm.Connect.Access.{
  visible_connections, is_usable, is_firm_or_own, does, usable_connections,
}

-- The four answers of the policy that do not come.
pub record IsOffered (site : Site) (capability : Capability) (a : Attempt) : Type 0 where
  pub installed : evaluate site (some capability) a ≢ connector_not_installed
  pub live : evaluate site (some capability) a ≢ connection_inactive
  pub on : evaluate site (some capability) a ≢ capability_not_enabled
  pub own : evaluate site (some capability) a ≢ personal_connection

policy_refuses_less :
    (site : Site) (capability : Capability) (a : Attempt)
    → is_some a.connection.connector_class ≡ true
    → is_active a.connection.status ≡ true
    → enabled capability a.connection.enabled_capabilities ≡ true
    → is_someone_elses a ≡ false
    → IsOffered site capability a
unfolding evaluate is_on
policy_refuses_less site capability a e f g h = record {
  installed = ground arith;
  live = ground arith;
  on = ground arith;
  own = ground arith;
}

by_hand :
    (user : User) (a : Attempt) (connection : Connection)
    → is_firm_or_own user connection ≡ true
    → is_someone_elses
        (record a { connection = connection; actor = some user; is_automation = false })
      ≡ false
unfolding is_someone_elses is_firm_or_own is_owner same_key
by_hand user a connection h = elim (Option-cases (connection.owner)) [
  | inl e ↦ rw (e, is_someone_elses) refl
  | inr (o, e) ↦
      let same : (o == user.id) ≡ true = rw (e, is_firm_or_own) at h in
      rw (e, is_someone_elses, is_owner, same_key) (ground arith)
]

offered :
    (site : Site) (user : User) (action : Text) (capability : Capability) (a : Attempt)
    (connection : Connection)
    → (is_active connection.status ≡ true) × (is_usable user action capability connection ≡ true)
    → IsOffered site capability
        (record a { connection = connection; actor = some user; is_automation = false })
unfolding is_usable
offered site user action capability a connection h =
    elim (Option-cases (connection.connector_class)) [
      | inl f ↦ (let bad : false ≡ true = rw (f, is_usable) at h.1 in absurd (cc))
      | inr (cls, f) ↦
          let usable : (enabled capability connection.enabled_capabilities
                && does action capability cls
                && is_firm_or_own user connection)
              ≡ true =
            rw (f, is_usable) at h.1 in
          let attempt = record a {
            connection = connection;
            actor = some user;
            is_automation = false;
          } in
          policy_refuses_less site capability attempt (ap is_some f) h.0 (ground arith)
            (by_hand user a connection (ground arith))
    ]

-- A staff member who uses one of the connections offered for an action by hand does not get any of
-- four refusals: that its connector is not installed, that it is not active, that the capability is
-- off, and that it is someone else's. The policy may still hold the action for another reason.
pub All-usable_connections :
    (site : Site) (user : User) (action : Text) (capability : Capability) (a : Attempt)
    (connections : List Connection)
    → All
        (λ c.
          IsOffered site capability
            (record a { connection = c; actor = some user; is_automation = false }))
        (usable_connections user action capability connections)
unfolding usable_connections
All-usable_connections site user action capability a connections =
    let shown = visible_connections user connections in
    let live = select (λ (c : Connection). is_active c.status) shown in
    All-map (usable_connections user action capability connections)
      (offered site user action capability a)
      (All-both _ _ (usable_connections user action capability connections)
        (select-All (is_usable user action capability) _ live
          (select_passes (λ (c : Connection). is_active c.status) shown))
        (select_passes (is_usable user action capability) live))
