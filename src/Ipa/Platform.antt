-- ===== src/Ipa/Platform.antt =====
-- `AppPlatform` of ipa.rs.
use mathlib.Core.Option
use i_phone_loadly.Common.{
  ℕ, Text, Bool, true, Option, none, some, List, [], ◌∷◌, ◌++◌, not, ◌||◌, ◌==◌, any, map, codes,
  starts_with, to_ascii_lowercase, if◌then◌else◌,
}
use i_phone_loadly.Ipa.{AppPlatform, ios, tvos, unknown, Plist}

unfoldable pub installable_on_apple_tv : AppPlatform → Bool → Bool
installable_on_apple_tv unknown apple_tv = true
installable_on_apple_tv tvos apple_tv = apple_tv
installable_on_apple_tv ios apple_tv = not apple_tv

-- `filter_map`
abbrev pub filter_map {ℓ κ} : {A : Type ℓ} {B : Type κ} → (A → Option B) → List A → List B
filter_map f [] = []
filter_map f (x ∷ xs) = elim (f x) [ none ↦ filter_map f xs | some y ↦ y ∷ filter_map f xs ]

-- the choice between the platforms by their names, then by the device families
abbrev pub platform_of : List Text → List ℕ → AppPlatform
platform_of names families =
    if any (λ name. starts_with name (codes "appletv")) names
    then tvos
    else if any (λ name. starts_with name (codes "iphone") || starts_with name (codes "ipad")) names
    then ios
    else if any (λ family. family == 3) families
    then tvos
    else if any (λ family. family == 1 || family == 2) families
    then ios
    else unknown

module _ (P : Plist) where
  -- `get(key).and_then(plist_string)`
  abbrev pub string_at : P.Dictionary → Text → Option Text
  string_at dictionary key = elim (P.get dictionary key) [
    | none ↦ none
    | some value ↦ P.as_string value
  ]

  -- `get(key).and_then(as_array)`, and none as the empty array
  abbrev array_at : P.Dictionary → Text → List P.Value
  array_at dictionary key = elim (P.get dictionary key) [
    | none ↦ []
    | some value ↦ Option.get_or (P.as_array value) []
  ]

  abbrev to_list : Option Text → List Text
  to_list none = []
  to_list (some s) = s ∷ []

  unfoldable pub from_info_plist : P.Dictionary → AppPlatform
  from_info_plist dictionary =
      platform_of
        (map to_ascii_lowercase (
          to_list (string_at dictionary (codes "DTPlatformName"))
          ++ filter_map P.as_string (array_at dictionary (codes "CFBundleSupportedPlatforms"))))
        (filter_map P.as_unsigned_integer (array_at dictionary (codes "UIDeviceFamily")))
