-- ===== src/Store/Invariant/Reach.antt =====
-- The store as a transition system: a step is a statement of store.rs that succeeds. A statement
-- that fails leaves the database as it was. The phase of a job is written only by its own task,
-- `run_install_job`, which `update_job_status` itself does not check: it is a condition of the step.
use i_phone_loadly.Common.{ok, ◌≡◌, Bool, Option, All, Text, ℕ}
use i_phone_loadly.Store.{Uuid, Timestamp, Phase, Database, initialize}
use i_phone_loadly.Store.Apps.{
  insert_app, set_app_bundle_id, mark_app_deleted, restore_app, rename_app,
}
use i_phone_loadly.Store.Jobs.{
  insert_job, update_job_status, set_job_failure, set_job_installed_bundle_id,
}
use i_phone_loadly.Store.Sources.{
  insert_github_source, update_github_source, delete_github_source, link_github_source_app,
  replace_app_from_source, record_source_check, set_source_automation,
}
use i_phone_loadly.Store.Managed.{forget_managed_installation, restore_managed_installation}
use i_phone_loadly.Store.Settings.{set_refresh_after_days}
use i_phone_loadly.Store.Invariant.{IsConsistent, IsUnfinished}
use i_phone_loadly.Store.Invariant.Apps.{
  insert_app-IsConsistent, set_app_bundle_id-IsConsistent, mark_app_deleted-IsConsistent,
  restore_app-IsConsistent, rename_app-IsConsistent, replace_app_from_source-IsConsistent,
}
use i_phone_loadly.Store.Invariant.Jobs.{
  insert_job-IsConsistent, update_job_status-IsConsistent, set_job_failure-IsConsistent,
  set_job_installed_bundle_id-IsConsistent,
}
use i_phone_loadly.Store.Invariant.Sources.{
  insert_github_source-IsConsistent, update_github_source-IsConsistent,
  delete_github_source-IsConsistent, link_github_source_app-IsConsistent,
  record_source_check-IsConsistent, set_source_automation-IsConsistent,
}
use i_phone_loadly.Store.Invariant.Other.{
  forget_managed_installation-IsConsistent, restore_managed_installation-IsConsistent,
  set_refresh_after_days-IsConsistent,
}

pub data Step (db : Database) : Database → Type 0 where
  app_inserted :
      (now : Timestamp) (id : Uuid) (sha256 storage_path : Text) (size_bytes : ℕ)
      (bundle_id display_name : Text) (app_version : Option Text) {db' : Database}
      → insert_app now id sha256 storage_path size_bytes bundle_id display_name app_version db
        ≡ ok db'
      → Step db db'
  bundle_id_set : (id : Uuid) (bundle_id : Text) → Step db (set_app_bundle_id id bundle_id db)
  app_deleted : (now : Timestamp) (id : Uuid) → Step db (mark_app_deleted now id db).1
  app_restored : (id : Uuid) → Step db (restore_app id db)
  app_renamed : (id : Uuid) (display_name : Text) → Step db (rename_app id display_name db).1
  app_replaced :
      (now : Timestamp) (app_id source_id : Uuid) (sha256 storage_path : Text) (size_bytes : ℕ)
      (bundle_id : Text) (app_version : Option Text) (release_id : ℕ) (release_tag : Text)
      (asset_id : ℕ) (asset_name : Text) {db' : Database}
      → replace_app_from_source now app_id source_id sha256 storage_path size_bytes bundle_id
          app_version release_id release_tag asset_id asset_name db
        ≡ ok db'
      → Step db db'
  job_inserted :
      (now : Timestamp) (id app_id device_id : Uuid) (device_label : Text) {db' : Database}
      → insert_job now id app_id device_id device_label db ≡ ok db'
      → Step db db'
  -- with the condition that no job of the id has finished
  status_updated :
      (now : Timestamp) (id : Uuid) (phase : Phase) (progress_percent : Option ℕ)
      → All (IsUnfinished id) db.jobs
      → Step db (update_job_status now id phase progress_percent db)
  failure_set : (id : Uuid) (failure_code : Text) → Step db (set_job_failure id failure_code db)
  installed_set :
      (id : Uuid) (bundle_id : Text) → Step db (set_job_installed_bundle_id id bundle_id db)
  forgotten :
      (now : Timestamp) (app_id device_id : Uuid)
      → Step db (forget_managed_installation now app_id device_id db).1
  remembered :
      (app_id device_id : Uuid) → Step db (restore_managed_installation app_id device_id db)
  days_set :
      (after_days : ℕ) {db' : Database}
      → set_refresh_after_days after_days db ≡ ok db'
      → Step db db'
  source_inserted :
      (now : Timestamp) (id : Uuid) (app_id : Option Uuid) (owner repo asset_pattern : Text)
      (include_prereleases : Bool) {db' : Database}
      → insert_github_source now id app_id owner repo asset_pattern include_prereleases db ≡ ok db'
      → Step db db'
  source_updated :
      (now : Timestamp) (id : Uuid) (app_id : Option Uuid) (owner repo asset_pattern : Text)
      (include_prereleases : Bool) {result : Bool × Database}
      → update_github_source now id app_id owner repo asset_pattern include_prereleases db
        ≡ ok result
      → Step db result.1
  source_deleted : (id : Uuid) → Step db (delete_github_source id db).1
  source_linked :
      (now : Timestamp) (source_id app_id : Uuid) {db' : Database}
      → link_github_source_app now source_id app_id db ≡ ok db'
      → Step db db'
  source_checked :
      (now : Timestamp) (id : Uuid) (release_id : Option ℕ) (release_tag : Option Text)
      (asset_id : Option ℕ) (asset_name sha256 : Option Text) (status : Text)
      (error_code : Option Text)
      → Step db (
          record_source_check now id release_id release_tag asset_id asset_name sha256 status
            error_code db)
  automation_set :
      (now : Timestamp) (id : Uuid) (enabled acknowledged : Bool)
      → Step db (set_source_automation now id enabled acknowledged db).1

pub data Reach : Database → Type 0 where
  start : Reach initialize
  next : {db db' : Database} → Reach db → Step db db' → Reach db'

Step-IsConsistent : {db db' : Database} → Step db db' → IsConsistent db → IsConsistent db'
Step-IsConsistent {db}
      (app_inserted now id sha256 storage_path size_bytes bundle_id display_name app_version e) c =
    insert_app-IsConsistent now id sha256 storage_path size_bytes bundle_id display_name app_version
      db c e
Step-IsConsistent {db} (bundle_id_set id bundle_id) c =
    set_app_bundle_id-IsConsistent id bundle_id db c
Step-IsConsistent {db} (app_deleted now id) c = mark_app_deleted-IsConsistent now id db c
Step-IsConsistent {db} (app_restored id) c = restore_app-IsConsistent id db c
Step-IsConsistent {db} (app_renamed id display_name) c =
    rename_app-IsConsistent id display_name db c
Step-IsConsistent {db}
      (app_replaced now app_id source_id sha256 storage_path size_bytes bundle_id app_version
        release_id release_tag asset_id asset_name e)
      c =
    replace_app_from_source-IsConsistent now app_id source_id sha256 storage_path size_bytes
      bundle_id app_version release_id release_tag asset_id asset_name db c e
Step-IsConsistent {db} (job_inserted now id app_id device_id device_label e) c =
    insert_job-IsConsistent now id app_id device_id device_label db c e
Step-IsConsistent {db} (status_updated now id phase progress_percent unfinished) c =
    update_job_status-IsConsistent now id phase progress_percent db c unfinished
Step-IsConsistent {db} (failure_set id failure_code) c =
    set_job_failure-IsConsistent id failure_code db c
Step-IsConsistent {db} (installed_set id bundle_id) c =
    set_job_installed_bundle_id-IsConsistent id bundle_id db c
Step-IsConsistent {db} (forgotten now app_id device_id) c =
    forget_managed_installation-IsConsistent now app_id device_id db c
Step-IsConsistent {db} (remembered app_id device_id) c =
    restore_managed_installation-IsConsistent app_id device_id db c
Step-IsConsistent {db} (days_set after_days e) c =
    set_refresh_after_days-IsConsistent after_days db c e
Step-IsConsistent {db}
      (source_inserted now id app_id owner repo asset_pattern include_prereleases e) c =
    insert_github_source-IsConsistent now id app_id owner repo asset_pattern include_prereleases db
      c e
Step-IsConsistent {db} (source_updated now id app_id owner repo asset_pattern include_prereleases e)
      c =
    update_github_source-IsConsistent now id app_id owner repo asset_pattern include_prereleases db
      c e
Step-IsConsistent {db} (source_deleted id) c = delete_github_source-IsConsistent id db c
Step-IsConsistent {db} (source_linked now source_id app_id e) c =
    link_github_source_app-IsConsistent now source_id app_id db c e
Step-IsConsistent {db}
      (source_checked now id release_id release_tag asset_id asset_name sha256 status error_code)
      c =
    record_source_check-IsConsistent now id release_id release_tag asset_id asset_name sha256 status
      error_code db c
Step-IsConsistent {db} (automation_set now id enabled acknowledged) c =
    set_source_automation-IsConsistent now id enabled acknowledged db c

-- In every database that the statements build from the empty one, where `update_job_status` is run
-- only for a job that is unfinished, automatic downloads are on only for sources whose warning was
-- acknowledged, every unfinished job belongs to an app that is there and not deleted, and every
-- finished job has its time of completion.
pub Reach-IsConsistent : {db : Database} → Reach db → IsConsistent db
Reach-IsConsistent start = record { acknowledged = tt; live = tt; stamped = tt }
Reach-IsConsistent (next r s) = Step-IsConsistent s (Reach-IsConsistent r)
