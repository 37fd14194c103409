-- ===== src/Github/Tests.antt =====
-- The functions of github.rs at concrete inputs, and the theorems about them applied there.
use i_phone_loadly.Common.{
  contains, ends_with, is_ascii_alphanumeric, is_control, select, starts_with, strip_prefix,
  text_eq, trim,
}
use i_phone_loadly.Common.{
  ℕ, ◌≡◌, ◌≢◌, ◌↔◌, refl, ok, Bool, true, false, none, some, [], ◌∷◌, Text, codes, In, arith, split,
  to_ascii_lowercase,
}
use i_phone_loadly.Github.{Release, ReleaseAsset, official_repository}
use i_phone_loadly.Github.Repository.{is_owner_char, is_repo_char, parse_public_repository}
use i_phone_loadly.Github.Repository.Laws.{
  IsCanonical, parse_public_repository-IsCanonical, parse_public_repository-display, display,
}
use i_phone_loadly.Github.Assets.{wildcard_match, match_ipa_asset}
use i_phone_loadly.Github.Assets.Wildcard.{Fits, wildcard_match_complete, wildcard_match-total}
use i_phone_loadly.Github.Assets.OneStar.{wildcard_match_one_star_iff, wildcard_match_overlap}
use i_phone_loadly.Github.Assets.Unique.{IsOnly, match_ipa_asset-IsOnly}
use i_phone_loadly.Github.Releases.{is_eligible, key_le, latest_eligible_release}
use i_phone_loadly.Github.Releases.Newest.{latest_eligible_release-IsNewest}

abbrev named : Text → ReleaseAsset
named name = record {
  id = 4;
  name = name;
  size = 10;
  digest = none;
  browser_download_url = codes "https://github.com/a/b/c";
}

abbrev pub asset : ReleaseAsset
asset = named (codes "App-1.0.IPA")

abbrev pub release : ℕ → Bool → Release
release id prerelease = record {
  id = id;
  tag_name = codes "v1.0";
  name = codes "One";
  draft = false;
  prerelease = prerelease;
  published_at = some (codes "2026-01-02");
  assets = asset ∷ named (codes "notes.txt") ∷ [];
}

parsed :
    parse_public_repository (codes " https://github.com/lemehavit/iPhoneLoadly/ ")
    ≡ ok official_repository
unfolding parse_public_repository trim contains starts_with split strip_prefix is_ascii_alphanumeric
parsed = refl

parse_public_repository-IsCanonical_example : IsCanonical official_repository
parse_public_repository-IsCanonical_example =
    parse_public_repository-IsCanonical (codes " https://github.com/lemehavit/iPhoneLoadly/ ")
      official_repository parsed

parse_public_repository-display_example :
    parse_public_repository (display official_repository) ≡ ok official_repository
unfolding is_owner_char is_repo_char is_ascii_alphanumeric
parse_public_repository-display_example =
    parse_public_repository-display official_repository
      (record { has_owner = refl; has_repo = refl; owner_chars = refl; repo_chars = refl })

wildcard_match_complete_example :
    wildcard_match (codes "App-*.ipa") (codes "App-1.0.IPA") ≡ some true
unfolding split to_ascii_lowercase
wildcard_match_complete_example =
    wildcard_match_complete (codes "App-*.ipa") (codes "App-1.0.IPA")
      (codes "1.0", codes ".ipa", refl, refl)

wildcard_match-total_example : wildcard_match (codes "é*ü*c") (codes "é-aüc") ≢ none
wildcard_match-total_example = wildcard_match-total (codes "é*ü*c") (codes "é-aüc")

wildcard_match_one_star_iff_example :
    (wildcard_match (codes "app*.ipa") (codes "app1.ipa") ≡ some true)
    ↔ Fits (codes "app" ∷ codes ".ipa" ∷ []) (to_ascii_lowercase (codes "app1.ipa"))
unfolding split to_ascii_lowercase
wildcard_match_one_star_iff_example =
    wildcard_match_one_star_iff (codes "app*.ipa") (codes "app1.ipa") (codes "app") (codes ".ipa")
      refl (omega arith)

wildcard_match_overlap_example :
    (wildcard_match (codes "app-*-ios.ipa") (codes "app-ios.ipa") ≡ some true)
    × ¬ Fits (codes "app-" ∷ codes "-ios.ipa" ∷ []) (to_ascii_lowercase (codes "app-ios.ipa"))
unfolding split to_ascii_lowercase
wildcard_match_overlap_example =
    wildcard_match_overlap (codes "app-*-ios.ipa") (codes "app-ios.ipa") (codes "app") (codes "-")
      (codes "ios.ipa") (λ e. cc e) refl refl

matched : match_ipa_asset (release 1 false) (codes "app*.ipa") ≡ ok asset
unfolding match_ipa_asset trim is_control select ends_with to_ascii_lowercase split starts_with
matched = refl

match_ipa_asset-IsOnly_example : IsOnly (release 1 false) (codes "app*.ipa") asset
match_ipa_asset-IsOnly_example =
    match_ipa_asset-IsOnly (release 1 false) (codes "app*.ipa") asset matched

latest :
    latest_eligible_release (release 1 false ∷ release 3 true ∷ release 2 false ∷ []) false
    ≡ some (release 2 false)
unfolding latest_eligible_release select text_eq
latest = refl

latest_eligible_release-IsNewest_example :
    In (release 2 false) (release 1 false ∷ release 3 true ∷ release 2 false ∷ [])
    × (is_eligible false (release 2 false) ≡ true)
    × ((s : Release)
        → In s (release 1 false ∷ release 3 true ∷ release 2 false ∷ [])
        → is_eligible false s ≡ true
        → key_le s (release 2 false) ≡ true)
latest_eligible_release-IsNewest_example =
    latest_eligible_release-IsNewest (release 1 false ∷ release 3 true ∷ release 2 false ∷ []) false
      (release 2 false) latest

no_release : latest_eligible_release (release 3 true ∷ []) false ≡ none
unfolding latest_eligible_release select
no_release = refl
