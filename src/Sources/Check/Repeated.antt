-- ===== src/Sources/Check/Repeated.antt =====
-- A check after a check: `check` of sources.rs.
use mathlib.Core.Option
use i_phone_loadly.Common.{
  ℕ, ◌≡◌, refl, ap, ◌∙◌, Bool, true, false, Option, none, some, Text, codes, arith, ◌&&◌, ==_refl,
  ok, first-update, first_sound, text_eq, if◌then◌else◌, changed,
}
use i_phone_loadly.Store.{Uuid, Timestamp, Database, SourceRow}
use i_phone_loadly.Store.Sources.{find_github_source, record_source_check, checked, has_id}
use i_phone_loadly.Github.{Release, ReleaseAsset}
use i_phone_loadly.Sources.{HeaderMap, action_allowed}
use i_phone_loadly.Sources.Check.{
  Releases, source_check_status, is_settled, is_some_of, find_asset, compare, check,
}

-- the two answers of `source_check_status`
abbrev status_of : Bool → Text
status_of current = if current then codes "up_to_date" else codes "update_available"

status_of-again :
    (current : Bool) (release asset : ℕ)
    → source_check_status (some release) (some asset) (some (status_of current)) release asset
      ≡ status_of current
unfolding source_check_status text_eq
status_of-again true release asset = rw (==_refl release, ==_refl asset) refl
status_of-again false release asset = rw (==_refl release, ==_refl asset) refl

-- The status that a check records is the one that the next check of the same asset finds.
source_check_status-again :
    (last_release last_asset : Option ℕ) (last_status : Option Text) (release asset : ℕ)
    → source_check_status
        (some release)
        (some asset)
        (some (source_check_status last_release last_asset last_status release asset))
        release
        asset
      ≡ source_check_status last_release last_asset last_status release asset
unfolding source_check_status
source_check_status-again last_release last_asset last_status release asset =
    status_of-again
      (is_some_of last_release release && is_some_of last_asset asset && is_settled last_status)
      release asset

-- The row that a recorded check leaves.
find-record_source_check :
    (now : Timestamp) (id : Uuid) (release : Option ℕ) (tag : Option Text) (asset : Option ℕ)
    (name sha256 : Option Text) (status : Text) (error : Option Text) (db : Database)
    (source : SourceRow)
    → find_github_source db id ≡ some source
    → find_github_source
        (record_source_check now id release tag asset name sha256 status error db)
        id
      ≡ some (checked now release tag asset name sha256 status error source)
unfolding find_github_source record_source_check
find-record_source_check now id release tag asset name sha256 status error db source h =
    let change = checked now release tag asset name sha256 status error in
    let mine = first_sound (has_id id) db.sources source h in
    first-update (has_id id) (has_id id) change db.sources same
    ∙ ap (Option.map (changed (has_id id) change)) h
    ∙ ap (λ b. some (if b then change source else source)) mine
  where
    same :
        (r : SourceRow)
        → has_id id (changed (has_id id) (checked now release tag asset name sha256 status error) r)
          ≡ has_id id r
    same r = ground arith

check-compare :
    (now : Timestamp) (releases : Releases) (id : Uuid) (headers : HeaderMap) (db : Database)
    (source : SourceRow) (release : Release) (asset : ReleaseAsset)
    → action_allowed headers ≡ true
    → find_github_source db id ≡ some source
    → find_asset releases source ≡ ok (release, asset)
    → check now releases id headers db ≡ compare now id source release asset db
unfolding check
check-compare now releases id headers db source release asset allowed found eligible =
    rw (allowed, found, eligible, check) refl

-- what `compare` records
abbrev recorded : Timestamp → SourceRow → Release → ReleaseAsset → SourceRow
recorded now source release asset =
    checked now (some release.id) (some release.tag_name) (some asset.id) (some asset.name)
      source.last_download_sha256
      (source_check_status source.last_release_id source.last_asset_id source.last_status release.id
        asset.id)
      none source

find-compare :
    (now : Timestamp) (id : Uuid) (source : SourceRow) (release : Release) (asset : ReleaseAsset)
    (db : Database)
    → find_github_source db id ≡ some source
    → find_github_source (compare now id source release asset db).1 id
      ≡ some (recorded now source release asset)
unfolding compare
find-compare now id source release asset db found =
    find-record_source_check now id (some release.id) (some release.tag_name) (some asset.id)
      (some asset.name) source.last_download_sha256
      (source_check_status source.last_release_id source.last_asset_id source.last_status release.id
        asset.id)
      none db source found

compare-again :
    (now later : Timestamp) (id : Uuid) (source : SourceRow) (release : Release)
    (asset : ReleaseAsset) (db after : Database)
    → (compare later id (recorded now source release asset) release asset after).0
      ≡ (compare now id source release asset db).0
unfolding compare
compare-again now later id source release asset db after =
    rw
      (source_check_status-again source.last_release_id source.last_asset_id source.last_status
        release.id asset.id)
      refl

-- A check that found its asset answers the same when it is made again, while GitHub answers the
-- same: an update that was reported stays reported until it is downloaded.
pub check-again :
    (now later : Timestamp) (releases : Releases) (id : Uuid) (headers : HeaderMap) (db : Database)
    (source : SourceRow) (release : Release) (asset : ReleaseAsset)
    → action_allowed headers ≡ true
    → find_github_source db id ≡ some source
    → find_asset releases source ≡ ok (release, asset)
    → (check later releases id headers (check now releases id headers db).1).0
      ≡ (check now releases id headers db).0
unfolding find_asset
check-again now later releases id headers db source release asset allowed found eligible =
    let first_time =
      check-compare now releases id headers db source release asset allowed found eligible in
    let after = (compare now id source release asset db).1 in
    let second_time =
      check-compare later releases id headers after (recorded now source release asset) release
        asset allowed (find-compare now id source release asset db found) eligible in
    rw first_time
      (ap (λ r. r.0) second_time ∙ compare-again now later id source release asset db after)
