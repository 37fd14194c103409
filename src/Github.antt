-- ===== src/Github.antt =====
-- GitHub releases (crates/iphoneloadly-api/src/github.rs): repositories, release assets and errors.
pub mod Repository
pub mod Assets
pub mod Releases
pub mod Tests
use i_phone_loadly.Common.{ℕ, Text, Bool, Option, List, codes}

pub record RepositoryRef : Type 0 where
  pub owner : Text
  pub repo : Text

pub record ReleaseAsset : Type 0 where
  pub id : ℕ
  pub name : Text
  pub size : ℕ
  pub digest : Option Text
  pub browser_download_url : Text

pub record Release : Type 0 where
  pub id : ℕ
  pub tag_name : Text
  pub name : Text
  pub draft : Bool
  pub prerelease : Bool
  pub published_at : Option Text
  pub assets : List ReleaseAsset

-- `http` carries the status code of the response.
pub data GithubError : Type 0 where
  invalid_repository invalid_pattern : GithubError
  http : ℕ → GithubError
  invalid_response too_large invalid_download_url no_matching_asset ambiguous_asset : GithubError
  invalid_version : GithubError

abbrev pub official_repository : RepositoryRef
official_repository = record { owner = codes "lemehavit"; repo = codes "iPhoneLoadly" }
