-- ===== src/Jobs/Devices.antt =====
-- The devices that installations go to: `merge_install_devices` of main.rs.
use i_phone_loadly.Common.{
  ◌≡◌, refl, ap, ◌∙◌, Bool, true, false, Option, none, some, List, [], ◌∷◌, ◌++◌, not, ◌==◌, ==_iff,
  any, arith, first, first-append, select, Result, ok, err, Bool-cases, inl, inr, if◌then◌else◌,
}
use i_phone_loadly.Store.{Uuid}
use i_phone_loadly.Jobs.{DeviceSummary, TransportError, is_device}

-- network.unwrap_or_default()
abbrev pub found_devices : Result TransportError (List DeviceSummary) → List DeviceSummary
found_devices (ok devices) = devices
found_devices (err _) = []

-- the devices that no remote pairing stands for
abbrev others : List DeviceSummary → List DeviceSummary → List DeviceSummary
others rsd devices = select (λ d. not (any (is_device d.id) rsd)) devices

unfoldable pub merge_install_devices :
    Result TransportError (List DeviceSummary)
    → List DeviceSummary
    → Result TransportError (List DeviceSummary)
merge_install_devices network [] = network
merge_install_devices network (d ∷ rsd) = ok (others (d ∷ rsd) (found_devices network) ++ d ∷ rsd)

first-others :
    (id : Uuid) (rsd devices : List DeviceSummary)
    → first (is_device id) (others rsd devices)
      ≡ (if any (is_device id) rsd then none else first (is_device id) devices)
unfolding first select
first-others id rsd [] = ground arith
first-others id rsd (d ∷ devices) = elim (Bool-cases (d.id == id)) [
  | inl e ↦
      let same = ap (λ i. any (is_device i) rsd) ((==_iff d.id id).0 e) in
      elim (Bool-cases (any (is_device id) rsd)) [
        | inl f ↦
            let taken = same ∙ f in
            let rest = first-others id rsd devices in rw (taken, f) (rest ∙ rw f refl)
        | inr f ↦ let free = same ∙ f in rw (free, f, e) refl
      ]
  | inr e ↦ elim (Bool-cases (any (is_device d.id) rsd)) [
    | inl f ↦ rw (f, e) (first-others id rsd devices)
    | inr f ↦ rw (f, e) (first-others id rsd devices)
  ]
]

first-any-false :
    (id : Uuid) (devices : List DeviceSummary)
    → any (is_device id) devices ≡ false
    → first (is_device id) devices ≡ none
unfolding first
first-any-false id [] h = refl
first-any-false id (d ∷ devices) h = ground (arith, first-any-false id devices)

abbrev or_else : Option DeviceSummary → Option DeviceSummary → Option DeviceSummary
or_else o other = elim o [ none ↦ other | some d ↦ some d ]

or_else-if :
    (b : Bool) (x y : Option DeviceSummary)
    → (b ≡ false → x ≡ none)
    → or_else (if b then none else y) x ≡ (if b then x else y)
or_else-if true x y h = refl
or_else-if false x none h = h refl
or_else-if false x (some d) h = refl

-- The device of an id is the one of the remote pairings if they have it, else the one of the
-- network, if the network was searched; and the search of the network may fail where there is a
-- remote pairing.
pub merge_install_devices-first :
    (network : Result TransportError (List DeviceSummary)) (rsd : List DeviceSummary) (id : Uuid)
    → first (is_device id) (found_devices (merge_install_devices network rsd)) ≡ (
        if any (is_device id) rsd
        then first (is_device id) rsd
        else first (is_device id) (found_devices network))
unfolding merge_install_devices
merge_install_devices-first network [] id = refl
merge_install_devices-first network (d ∷ rsd) id =
    first-append (is_device id) (others (d ∷ rsd) (found_devices network)) (d ∷ rsd)
    ∙ ap (λ o. or_else o (first (is_device id) (d ∷ rsd)))
        (first-others id (d ∷ rsd) (found_devices network))
    ∙ or_else-if (any (is_device id) (d ∷ rsd)) (first (is_device id) (d ∷ rsd))
        (first (is_device id) (found_devices network)) (first-any-false id (d ∷ rsd))
