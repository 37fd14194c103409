-- ===== src/Github/Releases.antt =====
-- `latest_eligible_release` of github.rs.
pub mod Newest
use mathlib.Core.Option
use i_phone_loadly.Common.{
  Result, ok, err, ◌>>=◌, ℕ, Text, Bool, true, false, Option, none, some, List, [], ◌∷◌, not, ◌&&◌,
  ◌||◌, ◌==◌, leb, select, text_eq, text_le, if◌then◌else◌,
}
use i_phone_loadly.Github.{Release, GithubError, no_matching_asset}

-- release.published_at.as_deref().unwrap_or("")
abbrev pub published : Release → Text
published r = Option.get_or r.published_at []

-- the order of the keys (published_at, id)
unfoldable pub key_le : Release → Release → Bool
key_le r s =
    if text_eq (published r) (published s)
    then leb r.id s.id
    else text_le (published r) (published s)

unfoldable pub is_eligible : Bool → Release → Bool
is_eligible include_prereleases r = not r.draft && (include_prereleases || not r.prerelease)

-- `max_by_key`: of equal keys the last one
unfoldable pub max_release : List Release → Option Release
unfolding key_le
max_release [] = none
max_release (r ∷ rs) = elim (max_release rs) [
  | none ↦ some r
  | some s ↦ if key_le r s then some s else some r
]

unfoldable pub latest_eligible_release : List Release → Bool → Option Release
unfolding max_release is_eligible
latest_eligible_release releases include_prereleases =
    max_release (select (is_eligible include_prereleases) releases)

-- `latest_release` on the answer of GitHub to the request for the releases
unfoldable pub latest_release :
    Result GithubError (List Release) → Bool → Result GithubError Release
unfolding latest_eligible_release
latest_release answer include_prereleases = do
  releases ← answer
  elim (latest_eligible_release releases include_prereleases) [
    | none ↦ err no_matching_asset
    | some release ↦ ok release
  ]
