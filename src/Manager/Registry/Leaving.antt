-- ===== src/Manager/Registry/Leaving.antt =====
-- manager.py: taking a device out keeps the registry coherent.
use sartoriuslib.Prelude.{
  ◌≡◌, refl, sym, ap, subst, ◌∙◌, ◌⊎◌, inl, inr, String, Option, none, some, List, [], ◌∷◌, Bool,
  true, false, if◌then◌else◌, str_eq, eq_iff, arith,
}
use sartoriuslib.Prelude.Dict.{Dict, get, put, remove as pop, put_cases, remove_cases}
use sartoriuslib.Transport.{SerialTypes}
use sartoriuslib.Devices.Session.Gates.{in_names}
use sartoriuslib.Manager.{PortEntry, DeviceEntry, Manager, is_some, discard_ref, no_refs}
use sartoriuslib.Manager.Refs.{in_names-discard_ref}
use sartoriuslib.Manager.Lifecycle.Dropping.{dropped, released, released_at, without_ref}
use sartoriuslib.Manager.Registry.Entering.{port_of}
use sartoriuslib.Manager.Registry.{
  counts, holds, is_key, stands, owned, Coherent, holds-put, holds-remove, owned-remove,
}

no_refs-counts : (n : String) (refs : List String) → no_refs refs ≡ true → in_names n refs ≡ false
no_refs-counts n [] h = refl
no_refs-counts n (r ∷ refs) h = cc

-- What a port counts once a name is taken from it.
holds-without_ref :
    (name key : String) (e : PortEntry) (ports : Dict PortEntry) (i n : String)
    → holds (without_ref name key e ports) i n ≡ (
        if str_eq key i
        then if str_eq name n then false else in_names n e.refs
        else holds ports i n)
unfolding without_ref
holds-without_ref name key e ports i n = by_refs (no_refs left.refs) refl
  where
    left : PortEntry
    left = record e { refs = discard_ref name e.refs }

    by_refs :
        (b : Bool)
        → no_refs left.refs ≡ b
        → holds (if b then pop (put ports key left) key else put ports key left) i n ≡ (
            if str_eq key i
            then if str_eq name n then false else in_names n e.refs
            else holds ports i n)
    by_refs true empty =
        let gone = holds-remove (put ports key left) key i n in
        let first = holds-put ports key i n left in
        let refs = in_names-discard_ref name n e.refs in
        let none_left = no_refs-counts n left.refs empty in grind arith
    by_refs false used =
        let first = holds-put ports key i n left in
        let refs = in_names-discard_ref name n e.refs in grind arith

-- A port that is left is the one that lost a name and still has others, or one that was there.
without_ref_cases :
    (name key : String) (e : PortEntry) (ports : Dict PortEntry) (i : String) (f : PortEntry)
    → get (without_ref name key e ports) i ≡ some f
    → ((key ≡ i)
        × (◌≡◌ {A = PortEntry} (record e { refs = discard_ref name e.refs }) f)
        × (no_refs f.refs ≡ false))
      ⊎ (get ports i ≡ some f)
unfolding without_ref
without_ref_cases name key e ports i f = by_refs (no_refs left.refs) refl
  where
    left : PortEntry
    left = record e { refs = discard_ref name e.refs }

    by_refs :
        (b : Bool)
        → no_refs left.refs ≡ b
        → get (if b then pop (put ports key left) key else put ports key left) i ≡ some f
        → ((key ≡ i) × (left ≡ f) × (no_refs f.refs ≡ false)) ⊎ (get ports i ≡ some f)
    by_refs true empty h =
        let (apart, found) = remove_cases (put ports key left) key i f h in
        elim (put_cases ports key left i f found) [
          | inl (at, given) ↦ let far = eq_iff key i in grind arith
          | inr (other, old) ↦ inr old
        ]
    by_refs false used h = elim (put_cases ports key left i f h) [
      | inl (at, given) ↦ inl (at, given, ap (λ x. no_refs x.refs) (sym given) ∙ used)
      | inr (other, old) ↦ inr old
    ]

module _ {k : SerialTypes} where
  -- What the ports of the other devices show after a device has left.
  LeftBy : Manager k → String → Dict PortEntry → Type 0
  LeftBy m name ports =
      ((i n : String) → holds ports i n ≡ (if str_eq name n then false else owned m.devices i n))
      × ((i : String) (f : PortEntry)
          → get ports i ≡ some f
          → (e : PortEntry) × (get m.ports i ≡ some e)
            × (f.key ≡ e.key)
            × (f.client ≡ e.client)
            × (no_refs f.refs ≡ false))

  coherent_left :
      (m : Manager k) (name : String) (ports : Dict PortEntry)
      → Coherent m
      → LeftBy m name ports
      → Coherent (record m { devices = pop m.devices name; ports = ports })
  unfolding LeftBy pop
  coherent_left m name ports h (counts_left, ports_left) = record {
    ended = λ closed. ap (λ d. pop d name) (h.ended closed);
    counted = λ i n. counts_left i n ∙ sym (owned-remove m.devices name i n);
    used = λ i f port.
        let (e, there, keyed, client, used) = ports_left i f port in
        let (at, served, some_refs) = h.used i e there in
        (keyed ∙ at, ap is_some client ∙ served, used);
    named = λ n d device. h.named n d (remove_cases m.devices name n d device).1;
    shared = λ n i d f device on port.
        let (e, there, keyed, client, used) = ports_left i f port in
        h.shared n i d e (remove_cases m.devices name n d device).1 on there ∙ sym client;
  }

  standing :
      (m : Manager k) (name : String) (d : DeviceEntry k) (key : Option String)
      → get m.devices name ≡ some d
      → d.port_key ≡ key
      → (i : String) → owned m.devices i name ≡ is_key i key
  unfolding owned
  standing m name d key found on i = ap (stands i) found ∙ ap (is_key i) on

  kept_port :
      (m : Manager k)
      → Coherent m
      → (i : String) (f : PortEntry) → get m.ports i ≡ some f
      → (e : PortEntry) × (get m.ports i ≡ some e)
        × (f.key ≡ e.key)
        × (f.client ≡ e.client)
        × (no_refs f.refs ≡ false)
  kept_port m h i f old = let (at, served, used) = h.used i f old in (f, old, refl, refl, used)

  released-LeftBy :
      (m : Manager k) (name : String) (d : DeviceEntry k) (key : Option String)
      → Coherent m
      → get m.devices name ≡ some d
      → d.port_key ≡ key
      → LeftBy m name (released name key m.ports)
  unfolding LeftBy released released_at holds
  released-LeftBy m name d none h found on = (
    λ i n.
        let at : owned m.devices i name ≡ false = standing m name d none found on i in
        let same = h.counted i n in grind (arith, eq_iff name n),
    λ i f port. kept_port m h i f port,
  )
  released-LeftBy m name d (some key) h found on = by_port (get m.ports key) refl
    where
      by_port :
          (o : Option PortEntry)
          → get m.ports key ≡ o
          → LeftBy m name (released_at name key o m.ports)
      by_port none absent = absurd (port_of h name key d found on absent)
      by_port (some e) there = (
        λ i n.
            let at : owned m.devices i name ≡ str_eq key i =
              standing m name d (some key) found on i in
            let counts_left = holds-without_ref name key e m.ports i n in
            let before : holds m.ports key n ≡ in_names n e.refs = ap (counts n) there in
            let same = h.counted i n in
            let same_key = h.counted key n in grind (arith, eq_iff name n, eq_iff key i),
        λ i f port. elim (without_ref_cases name key e m.ports i f port) [
          | inl (same, given, used) ↦ (
            e,
            ap (get m.ports) (sym same) ∙ there,
            sym (ap (λ x. x.key) given),
            sym (ap (λ x. x.client) given),
            used,
          )
          | inr old ↦ kept_port m h i f old
        ],
      )

  pub coherent_dropped :
      (m : Manager k) (name : String) (d : DeviceEntry k)
      → Coherent m
      → get m.devices name ≡ some d
      → Coherent (dropped name d m)
  unfolding dropped
  coherent_dropped m name d h found = coherent_left m name (released d.name d.port_key m.ports) h (
      subst (λ i. LeftBy m name (released i d.port_key m.ports)) (sym (h.named name d found))
        (released-LeftBy m name d d.port_key h found refl))
