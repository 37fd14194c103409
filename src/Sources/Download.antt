-- ===== src/Sources/Download.antt =====
-- The handler `download` of sources.rs, with the files of the application directory.
pub mod Files
pub mod Missing
pub mod Guards
use i_phone_loadly.Common.{
  ℕ, Text, Bool, true, false, Option, none, some, List, [], ◌∷◌, ◌++◌, not, ◌&&◌, ◌||◌, ◌==◌, codes,
  any, is_empty, take, Result, ok, err, select, text_eq, if◌then◌else◌,
}
use i_phone_loadly.Store.{Uuid, Timestamp, Database, Error, SourceRow}
use i_phone_loadly.Store.Apps.{StoredApp, find_app, insert_app, active_job_exists_for_app}
use i_phone_loadly.Store.Sources.{
  find_github_source, link_github_source_app, record_source_check, replace_app_from_source,
}
use i_phone_loadly.Github.{GithubError, Release, ReleaseAsset}
use i_phone_loadly.Ipa.{Plist, UploadFile, UploadMetadata}
use i_phone_loadly.Ipa.Inspect.{inspect_ipa}
use i_phone_loadly.Sources.{
  HeaderMap, Response, reply, coded, fetched, action_allowed, action_required, record_source_error,
  error_response, source_not_found,
}
use i_phone_loadly.Sources.Check.{Releases, find_asset}

-- The database and the paths of the files that exist.
pub record World : Type 0 where
  pub db : Database
  pub files : List Text

abbrev pub is_file : Text → List Text → Bool
is_file path files = any (text_eq path) files

abbrev pub remove_file : Text → List Text → List Text
remove_file path files = select (λ other. not (text_eq path other)) files

-- `std::fs::rename`, which replaces the target
abbrev pub moved : Text → Text → List Text → List Text
moved from to files = to ∷ remove_file to (remove_file from files)

-- What the world outside does in one download.
pub record Outside : Type 0 where
  pub now : Timestamp
  pub releases : Releases
  -- what `download_asset` returns, with the file that it has written
  pub asset : Result GithubError UploadFile
  -- the path of the temporary file
  pub temporary : Text
  pub new_app_id : Uuid
  -- whether the operating system renames the file
  pub renames : Bool
  -- what other requests do between the first look at the source and the lock on the database
  pub meanwhile : World → World

-- What the closure under the lock leaves: the final path is known once the file is renamed, and the
-- result is the old path, or none after an error, with whether the archive is unchanged.
pub record Attempt : Type 0 where
  pub world : World
  pub finalized : Option Text
  pub result : Option (Text × Bool)

abbrev same_uuid : Option Uuid → Option Uuid → Bool
same_uuid none none = true
same_uuid (some a) (some b) = a == b
same_uuid _ _ = false

abbrev same_bool : Bool → Bool → Bool
same_bool true b = b
same_bool false b = not b

-- the settings of the source are still those that the download began with
abbrev pub is_same_config : SourceRow → SourceRow → Bool
is_same_config current source =
    same_uuid current.app_id source.app_id
    && text_eq current.owner source.owner
    && text_eq current.repo source.repo
    && text_eq current.asset_pattern source.asset_pattern
    && same_bool current.include_prereleases source.include_prereleases

-- app.bundle_id.as_deref() == Some(id)
abbrev pub is_bundle : Option Text → Text → Bool
is_bundle none id = false
is_bundle (some bundle_id) id = text_eq bundle_id id

abbrev pub failed_with : World → Option Text → Attempt
failed_with w path = record { world = w; finalized = path; result = none }

abbrev pub stored : World → Option Text → Text → Result Error Database → Attempt
stored w path old (ok db) = record {
  world = record w { db = db };
  finalized = path;
  result = some (old, false);
}
stored w path old (err _) = failed_with w path

module _ (apps_dir : Text) (uuid_text : Uuid → Text) where
  -- {app_id}-{the first 12 digits of the SHA-256}.ipa
  abbrev pub replaced_path : Uuid → Text → Text
  replaced_path app_id sha256 =
      apps_dir
      ++ (codes "/" ++ (uuid_text app_id ++ (codes "-" ++ (take 12 sha256 ++ codes ".ipa"))))

  abbrev pub added_path : Uuid → Text
  added_path app_id = apps_dir ++ (codes "/" ++ (uuid_text app_id ++ codes ".ipa"))

  -- The file is already stored.
  abbrev pub unchanged : Outside → Uuid → Release → ReleaseAsset → UploadMetadata → World → Attempt
  unchanged o id release asset metadata w = record {
    world = record {
      db =
          record_source_check o.now id (some release.id) (some release.tag_name) (some asset.id)
            (some asset.name) (some metadata.sha256) (codes "unchanged") none w.db;
      files = remove_file o.temporary w.files;
    };
    finalized = none;
    result = some ([], true);
  }

  -- The file takes the place of the one of the linked app.
  unfoldable pub replace :
      Outside → Uuid → Uuid → StoredApp → Release → ReleaseAsset → UploadMetadata → World → Attempt
  replace o id app_id app release asset metadata w =
      if not o.renames
      then failed_with w none
      else let path = replaced_path app_id metadata.sha256 in
        stored (record w { files = moved o.temporary path w.files }) (some path) app.storage_path
          (replace_app_from_source o.now app_id id metadata.sha256 path metadata.size_bytes
            metadata.bundle_id metadata.app_version release.id release.tag_name asset.id asset.name
            w.db)

  -- the branch of a source that is linked to an app
  unfoldable pub into_linked :
      Outside → Uuid → Uuid → Release → ReleaseAsset → UploadMetadata → World → Attempt
  unfolding replace
  into_linked o id app_id release asset metadata w = elim (find_app uuid_text w.db app_id) [
    | none ↦ failed_with w none
    | some app ↦
        if active_job_exists_for_app w.db app_id
        then failed_with w none
        else if not (is_bundle app.bundle_id metadata.bundle_id)
        then failed_with w none
        else if text_eq app.sha256 metadata.sha256 && is_file app.storage_path w.files
        then unchanged o id release asset metadata w
        else replace o id app_id app release asset metadata w
  ]

  -- the statements of the other branch, each on what the one before has left
  abbrev pub linked :
      Outside
      → Uuid
      → Release
      → ReleaseAsset
      → UploadMetadata
      → Text
      → World
      → Result Error Database
      → Attempt
  linked o id release asset metadata path w (err _) = failed_with w (some path)
  linked o id release asset metadata path w (ok db) =
      elim (link_github_source_app o.now id o.new_app_id db) [
        | err _ ↦ failed_with (record w { db = db }) (some path)
        | ok after ↦ stored w (some path) path (
            ok (
              record_source_check o.now id (some release.id) (some release.tag_name) (some asset.id)
                (some asset.name) (some metadata.sha256) (codes "downloaded") none after))
      ]

  -- the branch of a source without an app
  unfoldable pub into_new :
      Outside → Uuid → Release → ReleaseAsset → UploadMetadata → World → Attempt
  into_new o id release asset metadata w =
      if not o.renames
      then failed_with w none
      else let path = added_path o.new_app_id in
        linked o id release asset metadata path
          (record w { files = moved o.temporary path w.files })
          (insert_app o.now o.new_app_id metadata.sha256 path metadata.size_bytes metadata.bundle_id
            metadata.display_name metadata.app_version w.db)

  -- the closure under the lock on the database
  unfoldable pub attempt :
      Outside → Uuid → SourceRow → Release → ReleaseAsset → UploadMetadata → World → Attempt
  unfolding into_linked into_new
  attempt o id source release asset metadata w = elim (find_github_source w.db id) [
    | none ↦ failed_with w none
    | some current ↦
        if not (is_same_config current source) then failed_with w none else elim source.app_id [
          | some app_id ↦ into_linked o id app_id release asset metadata w
          | none ↦ into_new o id release asset metadata w
        ]
  ]

-- the code after the closure: the response, and the files that go
unfoldable pub finish :
    Outside → Release → ReleaseAsset → UploadMetadata → Attempt → Response × World
finish o release asset metadata a = elim a.result [
  | some (old_path, unchanged) ↦ (
    reply (if unchanged then 208 else 200)
        (fetched unchanged release.tag_name asset.name metadata.sha256),
    record a.world {
      files = if is_empty old_path then a.world.files else remove_file old_path a.world.files;
    },
  )
  | none ↦ (
    reply 409 (
        coded (codes "source_download_failed") (
          codes
            "The source could not replace the server IPA; it may have an active job or bundle mismatch.")),
    record a.world {
      files = elim a.finalized [
        | none ↦ remove_file o.temporary a.world.files
        | some path ↦ remove_file path (remove_file o.temporary a.world.files)
      ];
    },
  )
]

module _ (P : Plist) (apps_dir : Text) (uuid_text : Uuid → Text) where
  -- the handler from the file that `download_asset` has written
  unfoldable pub store_asset :
      Outside → Uuid → SourceRow → Release → ReleaseAsset → UploadFile → World → Response × World
  unfolding attempt finish
  store_asset o id source release asset file w = elim (inspect_ipa P file) [
    | err _ ↦ (
      reply 400
          (coded (codes "invalid_ipa") (codes "The downloaded release asset is not a valid IPA.")),
      record {
        db =
            record_source_check o.now id (some release.id) (some release.tag_name) (some asset.id)
              (some asset.name) none (codes "error") (some (codes "invalid_ipa")) w.db;
        files = remove_file o.temporary w.files;
      },
    )
    | ok metadata ↦
        finish o release asset metadata
          (attempt apps_dir uuid_text o id source release asset metadata (o.meanwhile w))
  ]

  unfoldable pub download : Outside → Uuid → HeaderMap → World → Response × World
  unfolding action_allowed find_asset store_asset record_source_error
  download o id headers w =
      if not (action_allowed headers)
      then (action_required, w)
      else elim (find_github_source w.db id) [
        | none ↦ (source_not_found, w)
        | some source ↦ elim (find_asset o.releases source) [
          | err error ↦
              (error_response error, record w { db = record_source_error o.now id error w.db })
          | ok (release, asset) ↦ elim o.asset [
            | err error ↦ (
              error_response error,
              record {
                db = record_source_error o.now id error w.db;
                files = remove_file o.temporary w.files;
              },
            )
            | ok file ↦
                store_asset o id source release asset file
                  (record w { files = o.temporary ∷ w.files })
          ]
        ]
      ]
