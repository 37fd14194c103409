-- ===== src/Github/Assets/Unique.antt =====
-- `match_ipa_asset` returns an asset only where no other one matches.
use i_phone_loadly.Common.{
  ◌≡◌, sym, subst, Bool, true, List, [], ◌∷◌, ◌&&◌, Text, ok, select, In, here, In-cons,
  In-select_sound, In-select_complete, inl, inr, >>=-eq-ok,
}
use i_phone_loadly.Github.{Release, ReleaseAsset}
use i_phone_loadly.Github.Assets.{is_ipa, is_match, only, validate_asset_pattern, match_ipa_asset}

abbrev pub is_wanted : Text → ReleaseAsset → Bool
is_wanted pattern asset = is_ipa asset && is_match pattern asset.name

-- The asset is the one of the release that the pattern selects.
pub record IsOnly (release : Release) (pattern : Text) (asset : ReleaseAsset) : Type 0 where
  pub listed : In asset release.assets
  pub wanted : is_wanted pattern asset ≡ true
  pub single :
      (other : ReleaseAsset)
      → In other release.assets
      → is_wanted pattern other ≡ true
      → other ≡ asset

only-eq-ok : (l : List ReleaseAsset) (a : ReleaseAsset) → only l ≡ ok a → l ≡ a ∷ []
only-eq-ok [] a h = absurd (cc h)
only-eq-ok (x ∷ []) a h = cc h
only-eq-ok (x ∷ y ∷ l) a h = absurd (cc h)

In-singleton : {a b : ReleaseAsset} → In b (a ∷ []) → b ≡ a
In-singleton m = elim (In-cons m) [ inl e ↦ sym e | inr k ↦ elim k [ ] ]

-- An asset that is returned is an IPA of the release that matches the pattern, and the only one.
pub match_ipa_asset-IsOnly :
    (release : Release) (pattern : Text) (asset : ReleaseAsset)
    → match_ipa_asset release pattern ≡ ok asset
    → IsOnly release pattern asset
unfolding match_ipa_asset
match_ipa_asset-IsOnly release pattern asset h =
    let (_, _, k) = >>=-eq-ok (validate_asset_pattern pattern) _ h in
    let e = only-eq-ok (select (is_wanted pattern) release.assets) asset k in
    let (i, w) =
      In-select_sound (is_wanted pattern) release.assets (subst (In asset) (sym e) here) in
    record {
      listed = i;
      wanted = w;
      single = λ other m p.
          In-singleton (subst (In other) e (In-select_complete (is_wanted pattern) m p));
    }
