-- ===== src/Sources/Download/Guards.antt =====
-- The downloads that `download` of sources.rs refuses.
use i_phone_loadly.Common.{
  ◌≡◌, refl, true, false, none, some, Text, ok, Bool-cases, Option-cases, inl, inr,
}
use i_phone_loadly.Store.{Uuid, SourceRow}
use i_phone_loadly.Store.Apps.{StoredApp, find_app, active_job_exists_for_app}
use i_phone_loadly.Store.Sources.{find_github_source}
use i_phone_loadly.Github.{Release, ReleaseAsset}
use i_phone_loadly.Ipa.{Plist, UploadFile, UploadMetadata}
use i_phone_loadly.Ipa.Inspect.{inspect_ipa}
use i_phone_loadly.Sources.Download.{
  World, Outside, remove_file, is_same_config, is_bundle, failed_with, into_linked, attempt, finish,
  store_asset,
}

-- The reasons for which the closure under the lock gives up before it touches a file.
pub data IsRefused (uuid_text : Uuid → Text) (id : Uuid) (source : SourceRow)
    (metadata : UploadMetadata) (w : World) : Type 0 where
  removed : find_github_source w.db id ≡ none → IsRefused uuid_text id source metadata w
  reconfigured :
      (current : SourceRow)
      → find_github_source w.db id ≡ some current
      → is_same_config current source ≡ false
      → IsRefused uuid_text id source metadata w
  busy :
      (app_id : Uuid)
      → source.app_id ≡ some app_id
      → active_job_exists_for_app w.db app_id ≡ true
      → IsRefused uuid_text id source metadata w
  other_bundle :
      (app_id : Uuid) (app : StoredApp)
      → source.app_id ≡ some app_id
      → find_app uuid_text w.db app_id ≡ some app
      → is_bundle app.bundle_id metadata.bundle_id ≡ false
      → IsRefused uuid_text id source metadata w

module _ (apps_dir : Text) (uuid_text : Uuid → Text) where
  into_linked_busy :
      (o : Outside) (id app_id : Uuid) (release : Release) (asset : ReleaseAsset)
      (metadata : UploadMetadata) (w : World)
      → active_job_exists_for_app w.db app_id ≡ true
      → into_linked apps_dir uuid_text o id app_id release asset metadata w ≡ failed_with w none
  unfolding into_linked
  into_linked_busy o id app_id release asset metadata w h =
      elim (Option-cases (find_app uuid_text w.db app_id)) [
        | inl e ↦ rw (e, into_linked) refl
        | inr (app, e) ↦ rw (e, h, into_linked) refl
      ]

  into_linked_other :
      (o : Outside) (id app_id : Uuid) (app : StoredApp) (release : Release) (asset : ReleaseAsset)
      (metadata : UploadMetadata) (w : World)
      → find_app uuid_text w.db app_id ≡ some app
      → is_bundle app.bundle_id metadata.bundle_id ≡ false
      → into_linked apps_dir uuid_text o id app_id release asset metadata w ≡ failed_with w none
  unfolding into_linked
  into_linked_other o id app_id app release asset metadata w found other =
      elim (Bool-cases (active_job_exists_for_app w.db app_id)) [
        | inl e ↦ rw (found, e, into_linked) refl
        | inr e ↦ rw (found, e, other, into_linked) refl
      ]

  -- With the settings as they were, the branch of a linked app decides.
  attempt_linked :
      (o : Outside) (id app_id : Uuid) (source : SourceRow) (release : Release)
      (asset : ReleaseAsset) (metadata : UploadMetadata) (w : World)
      → source.app_id ≡ some app_id
      → into_linked apps_dir uuid_text o id app_id release asset metadata w ≡ failed_with w none
      → attempt apps_dir uuid_text o id source release asset metadata w ≡ failed_with w none
  unfolding attempt
  attempt_linked o id app_id source release asset metadata w link h =
      elim (Option-cases (find_github_source w.db id)) [
        | inl e ↦ rw (e, attempt) refl
        | inr (current, e) ↦ elim (Bool-cases (is_same_config current source)) [
          | inr f ↦ rw (e, f, attempt) refl
          | inl f ↦ rw (e, f, link, attempt) h
        ]
      ]

  attempt_refused :
      (o : Outside) (id : Uuid) (source : SourceRow) (release : Release) (asset : ReleaseAsset)
      (metadata : UploadMetadata) (w : World)
      → IsRefused uuid_text id source metadata w
      → attempt apps_dir uuid_text o id source release asset metadata w ≡ failed_with w none
  unfolding attempt
  attempt_refused o id source release asset metadata w (removed e) = rw (e, attempt) refl
  attempt_refused o id source release asset metadata w (reconfigured current e f) =
      rw (e, f, attempt) refl
  attempt_refused o id source release asset metadata w (busy app_id link e) =
      attempt_linked o id app_id source release asset metadata w link
        (into_linked_busy o id app_id release asset metadata w e)
  attempt_refused o id source release asset metadata w (other_bundle app_id app link e f) =
      attempt_linked o id app_id source release asset metadata w link
        (into_linked_other o id app_id app release asset metadata w e f)

-- If, once the file is fetched, the source is gone or configured anew, or its app has an active job
-- or another bundle identifier, then the answer is 409, the database is what the other requests have
-- left, and of the files only the temporary one is removed.
pub store_asset_refused :
    (P : Plist) (apps_dir : Text) (uuid_text : Uuid → Text) (o : Outside) (id : Uuid)
    (source : SourceRow) (release : Release) (asset : ReleaseAsset) (file : UploadFile)
    (metadata : UploadMetadata) (w : World)
    → inspect_ipa P file ≡ ok metadata
    → IsRefused uuid_text id source metadata (o.meanwhile w)
    → ((store_asset P apps_dir uuid_text o id source release asset file w).0.status ≡ 409)
      × ((store_asset P apps_dir uuid_text o id source release asset file w).1
          ≡ record (o.meanwhile w) { files = remove_file o.temporary (o.meanwhile w).files })
unfolding store_asset finish
store_asset_refused P apps_dir uuid_text o id source release asset file metadata w good refused =
    rw
      (
        good,
        attempt_refused apps_dir uuid_text o id source release asset metadata (o.meanwhile w)
            refused,
        store_asset,
      )
      (refl, refl)
