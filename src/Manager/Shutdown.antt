-- ===== src/Manager/Shutdown.antt =====
-- manager.py: `close` closes what the manager owns.
use mathlib.Core.List.{reverse}
use sartoriuslib.Prelude.{
  ℕ, ◌≡◌, refl, sym, ap, subst, ◌∙◌, ◌⊎◌, inl, inr, String, Option, none, some, List, [], ◌∷◌, Bool,
  true, false, if◌then◌else◌, str_eq, eq_iff,
}
use sartoriuslib.Prelude.Dict.{Dict, get, put, remove as pop, get-put, get-remove, get-put_same}
use sartoriuslib.Transport.{SerialTypes}
use sartoriuslib.Manager.{PortEntry, DeviceEntry, Manager, names, no_refs, discard_ref}
use sartoriuslib.Manager.Ports.{
  Host, Plant, close_if_open, maybe_teardown_port, release, teardown_at, teardown_key,
  teardown_device, set_ports, set_devices,
}
use sartoriuslib.Manager.Lifecycle.{drop_device, drop_found, drop_named, drop_all, close}
use sartoriuslib.Errors.Keeps.{if_both}
use sartoriuslib.Manager.Lifecycle.Resolving.{maybe_teardown_port-manager}
use sartoriuslib.Manager.Registry.{Coherent}
use sartoriuslib.Manager.Registry.Clearing.{drop_all-Coherent, devices_cleared, ports_cleared}

-- What the documentation of transports says of `close`: the transport is closed afterwards, also where a step of the
-- close failed, and no other transport is opened by it.
pub record Closes {k : SerialTypes} {W : Type 0} (host : Host k W) : Type 0 where
  pub closes : (t : ℕ) (w : W) → host.is_open t (host.close_transport t w).1 ≡ false
  pub others :
      (t u : ℕ) (w : W)
      → host.is_open u w ≡ false
      → host.is_open u (host.close_transport t w).1 ≡ false

no_port : (i : String) (f : PortEntry) → get [] i ≡ some f → ⊥
unfolding get
no_port i f h = cc

-- A key holds one entry.
same_entry :
    (key i : String) (e f : PortEntry) (ports : Dict PortEntry)
    → str_eq key i ≡ true
    → get ports key ≡ some e
    → get ports i ≡ some f
    → e ≡ f
same_entry key i e f ports at there found =
    let same : key ≡ i = (eq_iff key i).0 at in
    let both : some e ≡ some f = sym there ∙ ap (get ports) same ∙ found in cc

module _ {k : SerialTypes} {W : Type 0} (host : Host k W) where
  -- A port of the manager that owns the transport.
  abbrev pub Owns : Manager k → ℕ → Type 0
  Owns m t =
      (key : String) × (e : PortEntry) × (get m.ports key ≡ some e)
      × (e.transport ≡ t)
      × (e.owns_transport ≡ true)

  -- The transport is closed, or still to be closed with its port.
  unfoldable pub Pending : ℕ → Plant k W → Type 0
  Pending t p = (host.is_open t p.world ≡ false) ⊎ Owns p.manager t

  module _ (law : Closes host) (t : ℕ) where
    -- A transport that is closed stays so, and the one that is closed now is closed.
    stays_closed :
        (u : ℕ) (b : Bool) (p : Plant k W)
        → host.is_open u p.world ≡ b
        → (host.is_open t p.world ≡ false) ⊎ (u ≡ t)
        → host.is_open t (close_if_open host u p).world ≡ false
    unfolding close_if_open
    stays_closed u b p h reason = ap (host.is_open t) (after b h) ∙ by_reason b h reason
      where
        closed : Plant k W
        closed = record p { world = (host.close_transport u p.world).1 }

        after :
            (c : Bool)
            → host.is_open u p.world ≡ c
            → (if host.is_open u p.world then closed else p).world
              ≡ (if c then (host.close_transport u p.world).1 else p.world)
        after true e = ap (λ c. (if c then closed else p).world) e
        after false e = ap (λ c. (if c then closed else p).world) e

        by_reason :
            (c : Bool)
            → host.is_open u p.world ≡ c
            → (host.is_open t p.world ≡ false) ⊎ (u ≡ t)
            → host.is_open t (if c then (host.close_transport u p.world).1 else p.world) ≡ false
        by_reason true e (inl shut) = law.others u t p.world shut
        by_reason true e (inr same) =
            subst (λ v. host.is_open v (host.close_transport u p.world).1 ≡ false) same
              (law.closes u p.world)
        by_reason false e (inl shut) = shut
        by_reason false e (inr same) = subst (λ v. host.is_open v p.world ≡ false) same e

    -- The transport of a port is closed with the port, and the others are still pending.
    teardown-Pending :
        (key : String) (e : PortEntry) (p : Plant k W)
        → get p.manager.ports key ≡ some e
        → Pending t p
        → Pending t (maybe_teardown_port host key e p)
    unfolding Pending maybe_teardown_port
    teardown-Pending key e p there (inl shut) = inl (
        if_both (λ q. host.is_open t q.world ≡ false) e.owns_transport
          (close_if_open host e.transport p) p
          (stays_closed e.transport (host.is_open e.transport p.world) p refl (inl shut)) shut)
    teardown-Pending key e p there (inr (i, f, found, same, owns)) = by_key (str_eq key i) refl
      where
        by_key : (b : Bool) → str_eq key i ≡ b → Pending t (maybe_teardown_port host key e p)
        by_key true at =
            let one : e ≡ f = same_entry key i e f p.manager.ports at there found in
            inl (
              ap (λ b. host.is_open t (if b then close_if_open host e.transport p else p).world)
                (ap (λ x. x.owns_transport) one ∙ owns)
              ∙ stays_closed e.transport (host.is_open e.transport p.world) p refl
                  (inr (ap (λ x. x.transport) one ∙ same)))
        by_key false apart = inr (
          i,
          f,
          ap (λ m. get m.ports i) (maybe_teardown_port-manager host key e p)
              ∙ get-remove p.manager.ports key i
              ∙ ap (λ b. if b then none else get p.manager.ports i) apart
              ∙ found,
          same,
          owns,
        )

    release-Pending :
        (key : String) (e : PortEntry) (name : String) (p : Plant k W)
        → get p.manager.ports key ≡ some e
        → Pending t p
        → Pending t (release host key e name p)
    unfolding Pending release
    release-Pending key e name p there pending =
        if_both (λ q. Pending t q) (no_refs left.refs) (maybe_teardown_port host key left after)
          after
          (teardown-Pending key left after (get-put_same p.manager.ports key left) (kept pending))
          (kept pending)
      where
        left : PortEntry
        left = record e { refs = discard_ref name e.refs }

        after : Plant k W
        after = set_ports (put p.manager.ports key left) p

        kept : Pending t p → Pending t after
        kept (inl shut) = inl shut
        kept (inr (i, f, found, same, owns)) = by_key (str_eq key i) refl
          where
            by_key : (b : Bool) → str_eq key i ≡ b → Pending t after
            by_key true at =
                let one : e ≡ f = same_entry key i e f p.manager.ports at there found in
                inr (
                  key,
                  left,
                  get-put_same p.manager.ports key left,
                  ap (λ x. x.transport) one ∙ same,
                  ap (λ x. x.owns_transport) one ∙ owns,
                )
            by_key false apart = inr (
              i,
              f,
              get-put p.manager.ports key i left
                  ∙ ap (λ b. if b then some left else get p.manager.ports i) apart
                  ∙ found,
              same,
              owns,
            )

    drop_found-Pending :
        (o : Option (DeviceEntry k)) (name : String) (p : Plant k W)
        → Pending t p
        → Pending t (drop_found host o name p)
    unfolding Pending drop_found drop_device teardown_device
    drop_found-Pending none name p h = h
    drop_found-Pending (some d) name p h = by_key d.port_key
      where
        q : Plant k W
        q = set_devices (pop p.manager.devices name) p

        by_port :
            (key : String) (o : Option PortEntry)
            → get p.manager.ports key ≡ o
            → Pending t (teardown_at host o key d.name q)
        by_port key none absent = h
        by_port key (some e) there = release-Pending key e d.name q there h

        by_key : (o : Option String) → Pending t (teardown_key host o d.name q)
        by_key none = h
        by_key (some key) = by_port key (get p.manager.ports key) refl

    drop_all-Pending :
        (dropping : List String) (p : Plant k W)
        → Pending t p
        → Pending t (drop_all host dropping p)
    unfolding drop_all drop_named
    drop_all-Pending [] p h = h
    drop_all-Pending (name ∷ rest) p h =
        drop_all-Pending rest (drop_named host name p)
          (drop_found-Pending (get p.manager.devices name) name p h)

  -- What `close` leaves.
  unfoldable pub Cleared : Plant k W → Plant k W → Type 0
  Cleared before after =
      (after.manager.devices ≡ [])
      × (after.manager.ports ≡ [])
      × (after.manager.closed ≡ true)
      × ((t : ℕ) → Owns before.manager t → host.is_open t after.world ≡ false)

  module _ (law : Closes host) where
    -- On a manager that is open and coherent, whose transports are closed by their close and opened by no close of
    -- another, close leaves no device and no port, and marks the manager closed, and each transport that a port of
    -- the manager owned is closed.
    pub close-Cleared :
        (p : Plant k W) → Coherent p.manager → p.manager.closed ≡ false → Cleared p (close host p)
    unfolding close Cleared Pending
    close-Cleared p h running =
        let after = drop_all host (reverse (names p.manager)) p in
        let devices : after.manager.devices ≡ [] = devices_cleared host p in
        let ports : after.manager.ports ≡ [] =
          ports_cleared after.manager (drop_all-Coherent host (reverse (names p.manager)) p h)
            devices in
        let ended : Plant k W = record after { manager = record after.manager { closed = true } } in
        subst (λ b. Cleared p (if b then p else ended)) (sym running)
          (
            devices,
            ports,
            refl,
            λ t held. elim (drop_all-Pending law t (reverse (names p.manager)) p (inr held)) [
              | inl shut ↦ shut
              | inr (i, f, found, same, owns) ↦
                  absurd (no_port i f (sym (ap (λ d. get d i) ports) ∙ found))
            ],
          )
