-- ===== src/Manager/Registry/Entering.antt =====
-- manager.py: an `add` that returns keeps the registry coherent.
use sartoriuslib.Prelude.{
  ◌≡◌, sym, ap, subst, ◌∙◌, ◌⊎◌, inl, inr, String, Option, none, some, [], Bool, true, false,
  str_eq, eq_iff, arith,
}
use sartoriuslib.Prelude.Dict.{get, put, put_cases}
use sartoriuslib.Transport.{SerialTypes}
use sartoriuslib.Devices.Session.Gates.{in_names}
use sartoriuslib.Manager.{Balance, PortEntry, DeviceEntry, Manager, is_some, add_ref, no_refs}
use sartoriuslib.Manager.Refs.{in_names-add_ref}
use sartoriuslib.Manager.Ports.Opening.{client_of}
use sartoriuslib.Manager.Lifecycle.Adding.{device_of, Entered, EnteredOn}
use sartoriuslib.Manager.Registry.{
  counts, holds, is_key, stands, owned, Coherent, holds-put, owned-put, owned_free, add_ref-used,
}

not_both : {b : Bool} → b ≡ false → b ≡ true → ⊥
not_both f t = let h : ◌≡◌ {A = Bool} false true = sym f ∙ t in cc

module _ {k : SerialTypes} where
  -- The names that the port counts before one more is added.
  joined_refs :
      (m : Manager k) (key n : String) (e : PortEntry)
      → ((get m.ports key ≡ some e) ⊎ ((get m.ports key ≡ none) × (e.refs ≡ [])))
      → in_names n e.refs ≡ holds m.ports key n
  unfolding holds
  joined_refs m key n e (inl found) = ap (counts n) (sym found)
  joined_refs m key n e (inr (absent, free)) = ap (in_names n) free ∙ ap (counts n) (sym absent)

  counted-Entered :
      (m : Manager k) (name key : String) (e : PortEntry) (balance : Balance k)
      → Coherent m
      → get m.devices name ≡ none
      → ((get m.ports key ≡ some e) ⊎ ((get m.ports key ≡ none) × (e.refs ≡ [])))
      → (i n : String)
      → holds (put m.ports key (record e { refs = add_ref name e.refs })) i n
        ≡ owned (put m.devices name (device_of name balance (some key))) i n
  unfolding device_of
  counted-Entered m name key e balance h free held i n =
      let port = holds-put m.ports key i n (record e { refs = add_ref name e.refs }) in
      let device = owned-put m.devices name i n (device_of name balance (some key)) in
      let refs = in_names-add_ref name n e.refs in
      let before = joined_refs m key n e held in
      let same = h.counted i n in
      let same_key = h.counted key n in
      let free_key = owned_free m.devices name i free in grind (arith, eq_iff key i, eq_iff name n)

  -- A device on a port has its port.
  pub port_of :
      {m : Manager k}
      → Coherent m
      → (n i : String) (d : DeviceEntry k) → get m.devices n ≡ some d
      → d.port_key ≡ some i
      → get m.ports i ≡ none
      → ⊥
  unfolding holds owned
  port_of {m} h n i d found on absent =
      let there : owned m.devices i n ≡ str_eq i i = ap (stands i) found ∙ ap (is_key i) on in
      let missing : holds m.ports i n ≡ false = ap (counts n) absent in
      let same = h.counted i n in grind (arith, eq_iff i i)

  shared-Entered :
      (m : Manager k) (name key : String) (e : PortEntry) (balance : Balance k)
      → Coherent m
      → client_of balance ≡ e.client
      → ((get m.ports key ≡ some e) ⊎ ((get m.ports key ≡ none) × (e.refs ≡ [])))
      → (n i : String) (d : DeviceEntry k) (f : PortEntry)
      → get (put m.devices name (device_of name balance (some key))) n ≡ some d
      → d.port_key ≡ some i
      → get (put m.ports key (record e { refs = add_ref name e.refs })) i ≡ some f
      → client_of d.balance ≡ f.client
  unfolding device_of
  shared-Entered m name key e balance h client held n i d f device on port =
      by_cases (put_cases m.devices name (device_of name balance (some key)) n d device)
        (put_cases m.ports key (record e { refs = add_ref name e.refs }) i f port)
    where
      by_cases :
          ((name ≡ n) × (device_of name balance (some key) ≡ d))
            ⊎ ((str_eq name n ≡ false) × (get m.devices n ≡ some d))
          → ((key ≡ i) × (◌≡◌ {A = PortEntry} (record e { refs = add_ref name e.refs }) f))
            ⊎ ((str_eq key i ≡ false) × (get m.ports i ≡ some f))
          → client_of d.balance ≡ f.client
      by_cases (inl (same, made)) (inl (at, given)) =
          sym (ap (λ x. client_of x.balance) made) ∙ client ∙ ap (λ x. x.client) given
      by_cases (inl (same, made)) (inr (apart, old)) =
          let one : some key ≡ some i = ap (λ x. x.port_key) made ∙ on in
          grind (arith, eq_iff key i)
      by_cases (inr (other, found)) (inl (at, given)) = elim held [
        | inl there ↦
            h.shared n i d e found on (ap (get m.ports) (sym at) ∙ there) ∙ ap (λ x. x.client) given
        | inr (absent, free) ↦
            absurd (port_of h n i d found on (ap (get m.ports) (sym at) ∙ absent))
      ]
      by_cases (inr (other, found)) (inr (apart, old)) = h.shared n i d f found on old

  used-Entered :
      (m : Manager k) (name key : String) (e : PortEntry)
      → Coherent m
      → e.key ≡ key
      → is_some e.client ≡ true
      → (i : String) (f : PortEntry)
      → get (put m.ports key (record e { refs = add_ref name e.refs })) i ≡ some f
      → (f.key ≡ i) × (is_some f.client ≡ true) × (no_refs f.refs ≡ false)
  used-Entered m name key e h keyed client i f port =
      elim (put_cases m.ports key (record e { refs = add_ref name e.refs }) i f port) [
        | inl (at, given) ↦
            subst (λ x. (x.key ≡ i) × (is_some x.client ≡ true) × (no_refs x.refs ≡ false)) given
              (keyed ∙ at, client, add_ref-used name e.refs)
        | inr (apart, old) ↦ h.used i f old
      ]

  named-Entered :
      (m : Manager k) (name : String) (key : Option String) (balance : Balance k)
      → Coherent m
      → (n : String) (d : DeviceEntry k)
      → get (put m.devices name (device_of name balance key)) n ≡ some d
      → d.name ≡ n
  unfolding device_of
  named-Entered m name key balance h n d device =
      elim (put_cases m.devices name (device_of name balance key) n d device) [
        | inl (at, made) ↦ sym (ap (λ x. x.name) made) ∙ at
        | inr (other, found) ↦ h.named n d found
      ]

  -- A balance that is registered outside every port.
  coherent_alone :
      (m : Manager k) (name : String) (balance : Balance k)
      → Coherent m
      → m.closed ≡ false
      → get m.devices name ≡ none
      → Coherent (record m { devices = put m.devices name (device_of name balance none) })
  unfolding device_of
  coherent_alone m name balance h running free = record {
    ended = λ closed. absurd (not_both running closed);
    counted = λ i n.
        let device = owned-put m.devices name i n (device_of name balance none) in
        let same = h.counted i n in
        let free_key = owned_free m.devices name i free in grind (arith, eq_iff name n);
    used = h.used;
    named = named-Entered m name none balance h;
    shared = λ n i d f device on port.
        elim (put_cases m.devices name (device_of name balance none) n d device) [
          | inl (at, made) ↦ let no_port : none ≡ some i = ap (λ x. x.port_key) made ∙ on in cc
          | inr (other, found) ↦ h.shared n i d f found on port
        ];
  }

  pub coherent_entered :
      (name : String) (balance : Balance k) (m after : Manager k)
      → Coherent m
      → Entered name balance m after
      → Coherent after
  unfolding Entered EnteredOn
  coherent_entered name balance m after h (running, free, inl same) =
      subst Coherent (sym same) (coherent_alone m name balance h running free)
  coherent_entered name balance m after h
        (running, free, inr (key, e, keyed, client, works, held, same)) =
      subst Coherent (sym same) (record {
        ended = λ closed. absurd (not_both running closed);
        counted = counted-Entered m name key e balance h free held;
        used = used-Entered m name key e h keyed client;
        named = named-Entered m name (some key) balance h;
        shared = shared-Entered m name key e balance h works held;
      })
