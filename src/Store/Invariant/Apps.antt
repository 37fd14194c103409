-- ===== src/Store/Invariant/Apps.antt =====
-- The statements on `apps` keep the invariant.
use i_phone_loadly.Common.{
  ok, ok-injective, guarded-eq-ok, checked-eq-ok, ◌≡◌, subst, Bool, true, false, Option, none, some,
  List, [], ◌∷◌, ◌++◌, All, All-map, All-map₂, All-of_any-false, any, any-append, any-update_mono,
  changed, update, ◌==◌, Text, ℕ, arith, Bool-cases, Option-cases, inl, inr,
}
use i_phone_loadly.Store.{Uuid, Timestamp, constraint, AppRow, Database}
use i_phone_loadly.Store.Apps.{
  has_id, is_live_with_id, is_linked_to, clashes, new_app, insert_app, set_app_bundle_id,
  active_job_exists_for_app, app_path, drop_automation, stamp_deleted, delete_app_rows, restore_app,
  rename_app, mark_app_deleted,
}
use i_phone_loadly.Store.Sources.{replaced, replace_app_from_source}
use i_phone_loadly.Store.Invariant.{IsConsistent, HasLiveApp}
use i_phone_loadly.Store.Invariant.Sources.{update_sources, record_source_check-IsConsistent}

abbrev IsLiveIn : List AppRow → Uuid → Type 0
IsLiveIn apps app_id = any (is_live_with_id app_id) apps ≡ true

-- Every app that was live still is.
with_apps :
    (db : Database) (rows : List AppRow)
    → ((app_id : Uuid) → IsLiveIn db.apps app_id → IsLiveIn rows app_id)
    → IsConsistent db
    → IsConsistent (record db { apps = rows })
with_apps db rows keep c = record {
  acknowledged = c.acknowledged;
  live = All-map db.jobs (λ j h active. keep j.app_id (h active)) c.live;
  stamped = c.stamped;
}

pub insert_app-IsConsistent :
    (now : Timestamp) (id : Uuid) (sha256 storage_path : Text) (size_bytes : ℕ)
    (bundle_id display_name : Text) (app_version : Option Text) (db : Database) {db' : Database}
    → IsConsistent db
    → insert_app now id sha256 storage_path size_bytes bundle_id display_name app_version db
      ≡ ok db'
    → IsConsistent db'
unfolding insert_app
insert_app-IsConsistent now id sha256 storage_path size_bytes bundle_id display_name app_version db
      c e =
    let row = new_app now id sha256 storage_path size_bytes bundle_id display_name app_version in
    subst IsConsistent (ok-injective (guarded-eq-ok (any (clashes row) db.apps) constraint _ e)) (
      with_apps db (db.apps ++ row ∷ [])
        (λ app_id h. ground (arith, any-append (is_live_with_id app_id) db.apps (row ∷ []))) c)

-- An UPDATE of rows that leaves a live row live.
module _ (test : AppRow → Bool) (change : AppRow → AppRow)
    (keep : (app_id : Uuid) (a : AppRow)
      → is_live_with_id app_id a ≡ true
      → is_live_with_id app_id (change a) ≡ true) where
  update_apps :
      (db : Database)
      → IsConsistent db
      → IsConsistent (record db { apps = update test change db.apps })
  update_apps db c =
      with_apps db _
        (λ app_id.
          any-update_mono (is_live_with_id app_id) test change db.apps
            (λ a h. ground (arith, keep app_id a)))
        c

pub set_app_bundle_id-IsConsistent :
    (id : Uuid) (bundle_id : Text) (db : Database)
    → IsConsistent db
    → IsConsistent (set_app_bundle_id id bundle_id db)
unfolding set_app_bundle_id
set_app_bundle_id-IsConsistent id bundle_id db c =
    update_apps (has_id id) (λ a. record a { bundle_id = some bundle_id }) (λ app_id a h. h) db c

pub rename_app-IsConsistent :
    (id : Uuid) (display_name : Text) (db : Database)
    → IsConsistent db
    → IsConsistent (rename_app id display_name db).1
unfolding rename_app
rename_app-IsConsistent id display_name db c =
    update_apps (is_live_with_id id) (λ a. record a { display_name = some display_name })
      (λ app_id a h. h) db c

pub restore_app-IsConsistent :
    (id : Uuid) (db : Database) → IsConsistent db → IsConsistent (restore_app id db)
unfolding restore_app
restore_app-IsConsistent id db c =
    update_apps (has_id id) (λ a. record a { deleted_at = none }) (λ app_id a h. ground arith) db c

-- A row of another app is not deleted.
live_elsewhere :
    (now : Timestamp) (id app_id : Uuid) (a : AppRow)
    → (app_id == id) ≡ false
    → is_live_with_id app_id a ≡ true
    → is_live_with_id app_id (changed (is_live_with_id id) (stamp_deleted now) a) ≡ true
live_elsewhere now id app_id a ne h = ground arith

-- Without an active job of the app, no unfinished job loses its app.
delete_app_rows-live :
    (now : Timestamp) (id : Uuid) (db : Database)
    → active_job_exists_for_app db id ≡ false
    → All (HasLiveApp db.apps) db.jobs
    → All (HasLiveApp (delete_app_rows now id db).apps) db.jobs
unfolding active_job_exists_for_app
delete_app_rows-live now id db quiet live =
    All-map₂ db.jobs
      (λ j idle h active.
        any-update_mono (is_live_with_id j.app_id) (is_live_with_id id) (stamp_deleted now) db.apps
          (λ a. live_elsewhere now id j.app_id a (ground arith)) (h active))
      (All-of_any-false _ db.jobs quiet) live

delete_app_rows-IsConsistent :
    (now : Timestamp) (id : Uuid) (db : Database)
    → active_job_exists_for_app db id ≡ false
    → IsConsistent db
    → IsConsistent (delete_app_rows now id db)
delete_app_rows-IsConsistent now id db quiet c =
    let sources =
      update_sources (is_linked_to id) (drop_automation now) (λ s h off. absurd (cc off)) db c in
    record {
      acknowledged = sources.acknowledged;
      live = delete_app_rows-live now id db quiet c.live;
      stamped = c.stamped;
    }

pub mark_app_deleted-IsConsistent :
    (now : Timestamp) (id : Uuid) (db : Database)
    → IsConsistent db
    → IsConsistent (mark_app_deleted now id db).1
unfolding mark_app_deleted
mark_app_deleted-IsConsistent now id db c = elim (Option-cases (app_path db id)) [
  | inl e ↦ rw (e, mark_app_deleted) c
  | inr (path, e) ↦ elim (Bool-cases (active_job_exists_for_app db id)) [
    | inl busy ↦ rw (e, mark_app_deleted) (rw busy c)
    | inr quiet ↦
        rw (e, mark_app_deleted) (rw quiet (delete_app_rows-IsConsistent now id db quiet c))
  ]
]

pub replace_app_from_source-IsConsistent :
    (now : Timestamp) (app_id source_id : Uuid) (sha256 storage_path : Text) (size_bytes : ℕ)
    (bundle_id : Text) (app_version : Option Text) (release_id : ℕ) (release_tag : Text)
    (asset_id : ℕ) (asset_name : Text) (db : Database) {db' : Database}
    → IsConsistent db
    → replace_app_from_source now app_id source_id sha256 storage_path size_bytes bundle_id
        app_version release_id release_tag asset_id asset_name db
      ≡ ok db'
    → IsConsistent db'
unfolding replace_app_from_source
replace_app_from_source-IsConsistent now app_id source_id sha256 storage_path size_bytes bundle_id
      app_version release_id release_tag asset_id asset_name db c e =
    subst IsConsistent (checked-eq-ok _ constraint _ e) (
      record_source_check-IsConsistent now source_id _ _ _ _ _ _ _ _ (
        update_apps (has_id app_id) (replaced sha256 storage_path size_bytes bundle_id app_version)
          (λ other a h. ground arith) db c))
