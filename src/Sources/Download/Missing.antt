-- ===== src/Sources/Download/Missing.antt =====
-- The download for a source without an app: `download` of sources.rs.
use i_phone_loadly.Common.{
  ◌≡◌, refl, false, none, some, List, [], ◌∷◌, Text, arith, is_empty, text_eq, text_eq_refl, Result,
  ok, err, Bool-cases, Option-cases, inl, inr, if◌then◌else◌,
}
use i_phone_loadly.Store.{Uuid, Database, Error, SourceRow}
use i_phone_loadly.Store.Apps.{insert_app}
use i_phone_loadly.Store.Sources.{find_github_source, link_github_source_app}
use i_phone_loadly.Github.{Release, ReleaseAsset}
use i_phone_loadly.Ipa.{Plist, UploadFile, UploadMetadata}
use i_phone_loadly.Ipa.Inspect.{inspect_ipa}
use i_phone_loadly.Sources.Download.{
  World, Outside, Attempt, is_file, remove_file, moved, is_same_config, added_path, linked,
  into_new, attempt, finish, store_asset,
}
use i_phone_loadly.Sources.Download.Files.{is_file-remove_file, text_eq-slash}

-- An attempt for a new app fails, or returns the path of the new file as the old one.
data IsAdded (path : Text) (a : Attempt) : Type 0 where
  failed : a.result ≡ none → IsAdded path a
  added : a.result ≡ some (path, false) → IsAdded path a

module _ (apps_dir : Text) (uuid_text : Uuid → Text) where
  linked-IsAdded :
      (o : Outside) (id : Uuid) (release : Release) (asset : ReleaseAsset)
      (metadata : UploadMetadata) (path : Text) (w : World) (m : Result Error Database)
      → IsAdded path (linked apps_dir uuid_text o id release asset metadata path w m)
  linked-IsAdded o id release asset metadata path w (err _) = failed refl
  linked-IsAdded o id release asset metadata path w (ok db) =
      go (link_github_source_app o.now id o.new_app_id db) refl
    where
      go :
          (m : Result Error Database)
          → link_github_source_app o.now id o.new_app_id db ≡ m
          → IsAdded path (linked apps_dir uuid_text o id release asset metadata path w (ok db))
      go (err _) e = rw (e, linked) (failed refl)
      go (ok after) e = rw (e, linked) (added refl)

  attempt-IsAdded :
      (o : Outside) (id : Uuid) (source : SourceRow) (release : Release) (asset : ReleaseAsset)
      (metadata : UploadMetadata) (w : World)
      → source.app_id ≡ none
      → IsAdded
          (added_path apps_dir uuid_text o.new_app_id)
          (attempt apps_dir uuid_text o id source release asset metadata w)
  unfolding attempt into_new
  attempt-IsAdded o id source release asset metadata w link =
      let path = added_path apps_dir uuid_text o.new_app_id in
      elim (Option-cases (find_github_source w.db id)) [
        | inl e ↦ rw (e, attempt) (failed refl)
        | inr (current, e) ↦ elim (Bool-cases (is_same_config current source)) [
          | inr f ↦ rw (e, f, attempt) (failed refl)
          | inl f ↦ elim (Bool-cases o.renames) [
            | inr g ↦ rw (e, f, link, g, attempt, into_new) (failed refl)
            | inl g ↦
                rw (e, f, link, g, attempt, into_new)
                  (linked-IsAdded o id release asset metadata path
                    (record w { files = moved o.temporary path w.files })
                    (insert_app o.now o.new_app_id metadata.sha256 path metadata.size_bytes
                      metadata.bundle_id metadata.display_name metadata.app_version w.db))
          ]
        ]
      ]

-- A nonempty path is gone once it was removed.
is_file-removed :
    (path : Text) (files : List Text)
    → text_eq [] path ≡ false
    → is_file path (if is_empty path then files else remove_file path files) ≡ false
unfolding text_eq
is_file-removed [] files h = absurd (cc h)
is_file-removed (c ∷ path) files h =
    let same = text_eq_refl (c ∷ path) in
    let kept = is_file-remove_file (c ∷ path) (c ∷ path) files in ground arith

finish-IsAdded :
    (o : Outside) (release : Release) (asset : ReleaseAsset) (metadata : UploadMetadata)
    (path : Text) (a : Attempt)
    → text_eq [] path ≡ false
    → IsAdded path a
    → (finish o release asset metadata a).0.status ≡ 200
    → is_file path (finish o release asset metadata a).1.files ≡ false
unfolding finish
finish-IsAdded o release asset metadata path a h (failed e) k = absurd (ground arith)
finish-IsAdded o release asset metadata path a h (added e) k =
    rw (e, finish) (is_file-removed path a.world.files h)

-- The download for a source without an app that answers 200 leaves no file under the path of the
-- new app: the handler removes the file that it has just stored.
pub store_asset-missing :
    (P : Plist) (apps_dir : Text) (uuid_text : Uuid → Text) (o : Outside) (id : Uuid)
    (source : SourceRow) (release : Release) (asset : ReleaseAsset) (file : UploadFile)
    (metadata : UploadMetadata) (w : World)
    → inspect_ipa P file ≡ ok metadata
    → source.app_id ≡ none
    → (store_asset P apps_dir uuid_text o id source release asset file w).0.status ≡ 200
    → is_file
        (added_path apps_dir uuid_text o.new_app_id)
        (store_asset P apps_dir uuid_text o id source release asset file w).1.files
      ≡ false
unfolding store_asset
store_asset-missing P apps_dir uuid_text o id source release asset file metadata w good link
      answered =
    rw (good, store_asset)
      (finish-IsAdded o release asset metadata (added_path apps_dir uuid_text o.new_app_id)
        (attempt apps_dir uuid_text o id source release asset metadata (o.meanwhile w))
        (text_eq-slash apps_dir _)
        (attempt-IsAdded apps_dir uuid_text o id source release asset metadata (o.meanwhile w) link)
        (rw (good, store_asset) at answered))
