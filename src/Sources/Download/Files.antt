-- ===== src/Sources/Download/Files.antt =====
-- The file of the linked app after a download: `download` of sources.rs.
use i_phone_loadly.Common.{
  ◌≡◌, refl, sym, ap, ◌∙◌, true, false, none, some, List, [], ◌∷◌, ◌++◌, not, ◌&&◌, Text, arith,
  is_empty, select, text_eq, text_eq_iff, text_eq_refl, Result, ok, err, Bool-cases, Option-cases,
  inl, inr, if◌then◌else◌,
}
use i_phone_loadly.Store.{Uuid, Database, Error, SourceRow}
use i_phone_loadly.Store.Apps.{StoredApp, find_app, active_job_exists_for_app}
use i_phone_loadly.Store.Sources.{find_github_source, replace_app_from_source}
use i_phone_loadly.Github.{Release, ReleaseAsset}
use i_phone_loadly.Ipa.{Plist, UploadFile, UploadMetadata}
use i_phone_loadly.Ipa.Inspect.{inspect_ipa}
use i_phone_loadly.Sources.Download.{
  World, Outside, Attempt, is_file, remove_file, moved, is_same_config, is_bundle, replaced_path,
  replace, into_linked, stored, attempt, finish, store_asset,
}

pub is_file-remove_file :
    (p q : Text) (files : List Text)
    → is_file p (remove_file q files) ≡ (is_file p files && not (text_eq q p))
unfolding select
is_file-remove_file p q [] = refl
is_file-remove_file p q (f ∷ files) = elim (Bool-cases (text_eq q f)) [
  | inl e ↦ elim (Bool-cases (text_eq p f)) [
    | inl k ↦
        let same = (text_eq_iff q f).0 e ∙ sym ((text_eq_iff p f).0 k) in
        let equal = (text_eq_iff q p).1 same in ground (arith, is_file-remove_file p q files)
    | inr k ↦ ground (arith, is_file-remove_file p q files)
  ]
  | inr e ↦ elim (Bool-cases (text_eq p f)) [
    | inl k ↦
        let other : text_eq q p ≡ false = ap (text_eq q) ((text_eq_iff p f).0 k) ∙ e in
        ground (arith, is_file-remove_file p q files)
    | inr k ↦ ground (arith, is_file-remove_file p q files)
  ]
]

pub text_eq-slash : (dir rest : Text) → text_eq [] (dir ++ (b'/' ∷ rest)) ≡ false
unfolding text_eq
text_eq-slash [] rest = refl
text_eq-slash (c ∷ dir) rest = refl

-- The files after an old path is removed, unless it is empty.
pub is_file-finished :
    (old path : Text) (files : List Text)
    → text_eq [] path ≡ false
    → is_file path files ≡ true
    → is_file path (if is_empty old then files else remove_file old files) ≡ not (text_eq old path)
is_file-finished [] path files h k = rw (h, k) refl
is_file-finished (c ∷ old) path files h k = is_file-remove_file path (c ∷ old) files ∙ rw k refl

-- An attempt for a linked app fails, finds the file in its place, or has moved the new one there.
data IsReplaced (path old : Text) (a : Attempt) : Type 0 where
  failed : a.result ≡ none → IsReplaced path old a
  kept : (text : Text) → a.result ≡ some (text, true) → IsReplaced path old a
  moved_to :
      a.result ≡ some (old, false) → is_file path a.world.files ≡ true → IsReplaced path old a

stored-IsReplaced :
    (m : Result Error Database) (w : World) (path old : Text)
    → is_file path w.files ≡ true
    → IsReplaced path old (stored w (some path) old m)
stored-IsReplaced (ok db) w path old h = moved_to refl h
stored-IsReplaced (err _) w path old h = failed refl

is_file-moved : (from to : Text) (files : List Text) → is_file to (moved from to files) ≡ true
is_file-moved from to files = rw (text_eq_refl to) refl

module _ (apps_dir : Text) (uuid_text : Uuid → Text) where
  replace-IsReplaced :
      (o : Outside) (id app_id : Uuid) (app : StoredApp) (release : Release) (asset : ReleaseAsset)
      (metadata : UploadMetadata) (w : World)
      → IsReplaced
          (replaced_path apps_dir uuid_text app_id metadata.sha256)
          app.storage_path
          (replace apps_dir uuid_text o id app_id app release asset metadata w)
  unfolding replace
  replace-IsReplaced o id app_id app release asset metadata w = elim (Bool-cases o.renames) [
    | inr e ↦ rw e (failed refl)
    | inl e ↦
        let path = replaced_path apps_dir uuid_text app_id metadata.sha256 in
        rw e (
          stored-IsReplaced
            (replace_app_from_source o.now app_id id metadata.sha256 path metadata.size_bytes
              metadata.bundle_id metadata.app_version release.id release.tag_name asset.id
              asset.name w.db)
            (record w { files = moved o.temporary path w.files }) path app.storage_path
            (is_file-moved o.temporary path w.files))
  ]

  into_linked-IsReplaced :
      (o : Outside) (id app_id : Uuid) (app : StoredApp) (release : Release) (asset : ReleaseAsset)
      (metadata : UploadMetadata) (w : World)
      → find_app uuid_text w.db app_id ≡ some app
      → IsReplaced
          (replaced_path apps_dir uuid_text app_id metadata.sha256)
          app.storage_path
          (into_linked apps_dir uuid_text o id app_id release asset metadata w)
  unfolding into_linked
  into_linked-IsReplaced o id app_id app release asset metadata w h =
      let present = text_eq app.sha256 metadata.sha256 && is_file app.storage_path w.files in
      elim (Bool-cases (active_job_exists_for_app w.db app_id)) [
        | inl e ↦ rw (h, e, into_linked) (failed refl)
        | inr e ↦ elim (Bool-cases (is_bundle app.bundle_id metadata.bundle_id)) [
          | inr f ↦ rw (h, e, f, into_linked) (failed refl)
          | inl f ↦ elim (Bool-cases present) [
            | inl g ↦ rw (h, e, f, g, into_linked) (kept [] refl)
            | inr g ↦
                rw (h, e, f, g, into_linked)
                  (replace-IsReplaced o id app_id app release asset metadata w)
          ]
        ]
      ]

  attempt-IsReplaced :
      (o : Outside) (id app_id : Uuid) (source : SourceRow) (app : StoredApp) (release : Release)
      (asset : ReleaseAsset) (metadata : UploadMetadata) (w : World)
      → source.app_id ≡ some app_id
      → find_app uuid_text w.db app_id ≡ some app
      → IsReplaced
          (replaced_path apps_dir uuid_text app_id metadata.sha256)
          app.storage_path
          (attempt apps_dir uuid_text o id source release asset metadata w)
  unfolding attempt
  attempt-IsReplaced o id app_id source app release asset metadata w link h =
      elim (Option-cases (find_github_source w.db id)) [
        | inl e ↦ rw (e, attempt) (failed refl)
        | inr (current, e) ↦ elim (Bool-cases (is_same_config current source)) [
          | inr f ↦ rw (e, f, attempt) (failed refl)
          | inl f ↦
              rw (e, f, link, attempt)
                (into_linked-IsReplaced o id app_id app release asset metadata w h)
        ]
      ]

finish-IsReplaced :
    (o : Outside) (release : Release) (asset : ReleaseAsset) (metadata : UploadMetadata)
    (path old : Text) (a : Attempt)
    → text_eq [] path ≡ false
    → IsReplaced path old a
    → (finish o release asset metadata a).0.status ≡ 200
    → is_file path (finish o release asset metadata a).1.files ≡ not (text_eq old path)
unfolding finish
finish-IsReplaced o release asset metadata path old a h (failed e) k = absurd (ground arith)
finish-IsReplaced o release asset metadata path old a h (kept t e) k = absurd (ground arith)
finish-IsReplaced o release asset metadata path old a h (moved_to e f) k =
    rw (e, finish) (is_file-finished old path a.world.files h f)

-- The download for a source with an app answers 200 only after the new file has its place in the
-- application directory; that file is still there at the end if and only if the app was stored
-- under another path before. (An app whose row names the same path, its file missing, loses the
-- file that was just fetched.)
pub store_asset-is_file :
    (P : Plist) (apps_dir : Text) (uuid_text : Uuid → Text) (o : Outside) (id app_id : Uuid)
    (source : SourceRow) (app : StoredApp) (release : Release) (asset : ReleaseAsset)
    (file : UploadFile) (metadata : UploadMetadata) (w : World)
    → inspect_ipa P file ≡ ok metadata
    → source.app_id ≡ some app_id
    → find_app uuid_text (o.meanwhile w).db app_id ≡ some app
    → (store_asset P apps_dir uuid_text o id source release asset file w).0.status ≡ 200
    → is_file
        (replaced_path apps_dir uuid_text app_id metadata.sha256)
        (store_asset P apps_dir uuid_text o id source release asset file w).1.files
      ≡ not (text_eq app.storage_path (replaced_path apps_dir uuid_text app_id metadata.sha256))
unfolding store_asset
store_asset-is_file P apps_dir uuid_text o id app_id source app release asset file metadata w good
      link found answered =
    rw (good, store_asset)
      (finish-IsReplaced o release asset metadata
        (replaced_path apps_dir uuid_text app_id metadata.sha256) app.storage_path
        (attempt apps_dir uuid_text o id source release asset metadata (o.meanwhile w))
        (text_eq-slash apps_dir _)
        (attempt-IsReplaced apps_dir uuid_text o id app_id source app release asset metadata
          (o.meanwhile w) link found)
        (rw (good, store_asset) at answered))
