-- ===== src/Sources.antt =====
-- The handlers of crates/iphoneloadly-api/src/sources.rs: requests, responses and the errors of
-- GitHub as responses.
pub mod Edit
pub mod Check
pub mod Download
pub mod Sync
pub mod Tests
use i_phone_loadly.Common.{
  ℕ, Text, Bool, true, false, Option, none, some, List, [], ◌∷◌, not, ◌&&◌, ◌||◌, ◌==◌, codes,
  starts_with, text_eq, if◌then◌else◌,
}
use i_phone_loadly.Store.{Uuid, Timestamp, Database, SourceRow}
use i_phone_loadly.Store.Sources.{record_source_check}
use i_phone_loadly.Github.{
  GithubError, invalid_repository, invalid_pattern, http, invalid_response, too_large,
  invalid_download_url, no_matching_asset, ambiguous_asset, invalid_version, RepositoryRef, Release,
  ReleaseAsset,
}

pub record SourceConfig : Type 0 where
  pub repository : Text
  pub asset_pattern : Text
  pub include_prereleases : Bool
  pub app_id : Option Uuid

pub record AutomationRequest : Type 0 where
  pub enabled : Bool
  pub acknowledged_security_warning : Bool

-- The two headers that the handlers look at, where they are text.
pub record HeaderMap : Type 0 where
  pub action : Option Text
  pub content_type : Option Text

-- The bodies of the responses, by what they carry.
pub data Body : Type 0 where
  empty : Body
  message : Text → Body
  coded : Text → Text → Body
  created : Uuid → Body
  previewed : RepositoryRef → Release → List ReleaseAsset → Option ℕ → Body
  -- current, the tag, and the asset's name and size
  compared : Bool → Text → Text → ℕ → Body
  -- unchanged, the tag, the asset's name and the SHA-256
  fetched : Bool → Text → Text → Text → Body
  -- updated, failed, unchanged
  synced : ℕ → ℕ → ℕ → Body

pub record Response : Type 0 where
  pub status : ℕ
  pub body : Body

abbrev pub reply : ℕ → Body → Response
reply status body = record { status = status; body = body }

unfoldable pub action_allowed : HeaderMap → Bool
action_allowed headers =
    elim headers.action [ none ↦ false | some value ↦ text_eq value (codes "1") ]
    && elim headers.content_type [
      | none ↦ false
      | some value ↦ starts_with value (codes "application/json")
    ]

abbrev pub action_required : Response
action_required = reply 400 (message (codes "JSON action header required."))

unfoldable pub github_error_code : GithubError → Text
github_error_code invalid_repository = codes "invalid_repository"
github_error_code invalid_pattern = codes "invalid_asset_pattern"
github_error_code (http status) =
    if status == 403 || status == 429
    then codes "github_rate_limited"
    else codes "github_unavailable"
github_error_code no_matching_asset = codes "no_ipa_asset"
github_error_code ambiguous_asset = codes "ambiguous_asset"
github_error_code too_large = codes "asset_too_large"
github_error_code invalid_download_url = codes "invalid_download_url"
github_error_code invalid_response = codes "github_unavailable"
github_error_code invalid_version = codes "github_unavailable"

unfoldable pub record_source_error : Timestamp → Uuid → GithubError → Database → Database
unfolding github_error_code
record_source_error now id error db =
    record_source_check now id none none none none none (codes "error")
      (some (github_error_code error)) db

unfoldable pub code_message : Text → Text
code_message code =
    if text_eq code (codes "ambiguous_asset")
    then codes "The asset pattern matches more than one IPA; refine it before downloading."
    else if text_eq code (codes "no_ipa_asset")
    then codes "No eligible IPA asset matches this source pattern."
    else if text_eq code (codes "github_rate_limited")
    then codes "GitHub rate-limited this request; try again later."
    else if text_eq code (codes "asset_too_large")
    then codes "The selected IPA exceeds the upload size limit."
    else if text_eq code (codes "invalid_repository")
    then codes "Only public canonical GitHub repositories are supported."
    else if text_eq code (codes "invalid_asset_pattern")
    then codes "The IPA asset pattern is invalid."
    else codes "The GitHub source could not be processed."

unfoldable pub error_response : GithubError → Response
unfolding github_error_code code_message
error_response error =
    let code = github_error_code error in
    reply
      (if text_eq code (codes "invalid_repository") || text_eq code (codes "invalid_asset_pattern")
        then 400
        else 502)
      (coded code (code_message code))

abbrev pub source_not_found : Response
source_not_found = reply 404 (message (codes "GitHub source was not found."))

abbrev pub linked_not_found : Response
linked_not_found = reply 404 (message (codes "The linked IPA was not found."))

abbrev pub repository_of : SourceRow → RepositoryRef
repository_of source = record { owner = source.owner; repo = source.repo }
