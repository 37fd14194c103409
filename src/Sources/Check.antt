-- ===== src/Sources/Check.antt =====
-- The handlers `preview` and `check` of sources.rs.
pub mod Repeated
use i_phone_loadly.Common.{
  ℕ, Text, Bool, true, false, Option, none, some, List, not, ◌&&◌, ◌||◌, ◌==◌, codes, Result, ok,
  err, select, text_eq, if◌then◌else◌,
}
use i_phone_loadly.Store.{Uuid, Timestamp, Database, SourceRow}
use i_phone_loadly.Store.Sources.{find_github_source, record_source_check}
use i_phone_loadly.Github.{GithubError, RepositoryRef, Release, ReleaseAsset}
use i_phone_loadly.Github.Repository.{parse_public_repository}
use i_phone_loadly.Github.Assets.{is_ipa, match_ipa_asset}
use i_phone_loadly.Github.Releases.{latest_release}
use i_phone_loadly.Sources.{
  SourceConfig, HeaderMap, Response, reply, previewed, compared, action_allowed, action_required,
  record_source_error, error_response, source_not_found, repository_of,
}

-- the answer of GitHub to the request for the releases of a repository
abbrev pub Releases : Type 0
Releases = RepositoryRef → Result GithubError (List Release)

-- `.ok().map(|asset| asset.id)`
abbrev matching : Result GithubError ReleaseAsset → Option ℕ
matching (ok asset) = some asset.id
matching (err _) = none

unfoldable pub preview : Releases → SourceConfig → Response
preview releases request = elim (parse_public_repository request.repository) [
  | err error ↦ error_response error
  | ok repository ↦ elim (latest_release (releases repository) request.include_prereleases) [
    | err error ↦ error_response error
    | ok release ↦ reply 200 (
        previewed repository release (select is_ipa release.assets)
          (matching (match_ipa_asset release request.asset_pattern)))
  ]
]

-- last == Some(value)
abbrev pub is_some_of : Option ℕ → ℕ → Bool
is_some_of none value = false
is_some_of (some last) value = last == value

abbrev pub is_settled : Option Text → Bool
is_settled none = false
is_settled (some status) =
    text_eq status (codes "downloaded")
    || text_eq status (codes "unchanged")
    || text_eq status (codes "up_to_date")

unfoldable pub source_check_status : Option ℕ → Option ℕ → Option Text → ℕ → ℕ → Text
source_check_status last_release_id last_asset_id last_status release_id asset_id =
    let same_asset = is_some_of last_release_id release_id && is_some_of last_asset_id asset_id in
    if same_asset && is_settled last_status then codes "up_to_date" else codes "update_available"

-- The release and the asset that a source stands for now.
unfoldable pub find_asset : Releases → SourceRow → Result GithubError (Release × ReleaseAsset)
find_asset releases source =
    elim (latest_release (releases (repository_of source)) source.include_prereleases) [
      | err error ↦ err error
      | ok release ↦ elim (match_ipa_asset release source.asset_pattern) [
        | err error ↦ err error
        | ok asset ↦ ok (release, asset)
      ]
    ]

-- the part of `check` after the asset is known
unfoldable pub compare :
    Timestamp → Uuid → SourceRow → Release → ReleaseAsset → Database → Response × Database
unfolding source_check_status
compare now id source release asset db =
    let status =
      source_check_status source.last_release_id source.last_asset_id source.last_status release.id
        asset.id in
    (
      reply 200
          (compared (text_eq status (codes "up_to_date")) release.tag_name asset.name asset.size),
      record_source_check now id (some release.id) (some release.tag_name) (some asset.id)
          (some asset.name) source.last_download_sha256 status none db,
    )

unfoldable pub check : Timestamp → Releases → Uuid → HeaderMap → Database → Response × Database
check now releases id headers db =
    if not (action_allowed headers)
    then (action_required, db)
    else elim (find_github_source db id) [
      | none ↦ (source_not_found, db)
      | some source ↦ elim (find_asset releases source) [
        | err error ↦ (error_response error, record_source_error now id error db)
        | ok (release, asset) ↦ compare now id source release asset db
      ]
    ]
