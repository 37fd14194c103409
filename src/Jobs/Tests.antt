-- ===== src/Jobs/Tests.antt =====
-- A refresh of one installation that is due, and the theorem about it applied there.
use i_phone_loadly.Common.{All, In, here, subst, sym, ok, Text, first, ℕ}
use i_phone_loadly.Store.Jobs.{has_id}
use i_phone_loadly.Ipa.{UploadFile}
use i_phone_loadly.Ipa.Tests.{simple, upload}
use i_phone_loadly.Jobs.{apple_tv, is_device}
use i_phone_loadly.Jobs.Devices.{found_devices, merge_install_devices, merge_install_devices-first}
use i_phone_loadly.Jobs.Run.{run_install_job, progress, other, network}
use i_phone_loadly.Jobs.Run.Outcome.{HasEnded, run_install_job-HasEnded}
use i_phone_loadly.Jobs.Create.{CreateInstallJobRequest, create_install_job}
use i_phone_loadly.Jobs.Create.Accepted.{IsCreated, create_install_job-IsCreated}
use i_phone_loadly.Store.Jobs.{active_job_exists, insert_job}
use i_phone_loadly.Store.Settings.{refresh_after_days}
use i_phone_loadly.Store.Managed.{is_latest, is_unmanaged}
use i_phone_loadly.Common.{first, select}
use i_phone_loadly.Store.Refresh.{refresh_due_targets}
use i_phone_loadly.Common.{◌+◌, ◌≡◌, refl, true, some, none, List, [], ◌∷◌, codes, is_unique}
use i_phone_loadly.Store.{AppRow, JobRow, Database, initialize, succeeded}
use i_phone_loadly.Store.Apps.{new_app}
use i_phone_loadly.Store.Jobs.{queued_job}
use i_phone_loadly.Jobs.{DeviceSummary, iphone, accepted, trigger_refresh}
use i_phone_loadly.Jobs.Single.{rivals, trigger_refresh-single}
use i_phone_loadly.Install.Upload.Tests.{sum, outside}
use i_phone_loadly.Install.Upload.Tests.{answers as answered}
use i_phone_loadly.Install.Execute.{upgrade}
use i_phone_loadly.Install.Execute.Tests.{answers, is_uuid, staging}
use i_phone_loadly.Install.Pipeline.{rsd_install_timeout, install_remote_pairing_app}
use i_phone_loadly.Install.Pipeline.Tests.{run}
use i_phone_loadly.Install.Pipeline.Proven.{IsProven, execute}
use i_phone_loadly.Jobs.Run.{rsd}
use i_phone_loadly.Jobs.Run.Confirmed.{run_install_job-IsProven}

abbrev app : AppRow
app = new_app 100 1 (codes "ab12") (codes "/apps/1.ipa") 4096 (codes "org.app") (codes "App") none

abbrev old_job : JobRow
old_job = record (queued_job 200 5 9 (codes "Phone") app) {
  phase = succeeded;
  completed_at = some 1000;
}

abbrev db : Database
db = record initialize { apps = app ∷ []; jobs = old_job ∷ [] }

abbrev phone : DeviceSummary
phone = record {
  id = 9;
  display_name = codes "Phone";
  product_type = codes "iPhone14,2";
  ios_version = codes "18.1";
  install_eligible = true;
  device_class = iphone;
}

abbrev devices : List DeviceSummary
devices = phone ∷ []

queued_one : (trigger_refresh 600000 true (some devices) (λ n. 20 + n) db).0 ≡ accepted 1
unfolding trigger_refresh refresh_due_targets select is_unmanaged is_latest refresh_after_days first
    active_job_exists insert_job
queued_one = refl

single : is_unique rivals db.jobs ≡ true
unfolding is_unique
single = refl

trigger_refresh-single_example :
    is_unique rivals (trigger_refresh 600000 true (some devices) (λ n. 20 + n) db).1.jobs ≡ true
trigger_refresh-single_example =
    trigger_refresh-single 600000 true (some devices) (λ n. 20 + n) db single

-- The job 20 while its archive is signed and sent, and after.
abbrev sent : Database → Database
sent before =
    run_install_job 600001 600090 20 1 9 true
      (progress 600002 12 ∷ other (λ d. d) ∷ progress 600050 60 ∷ [])
      (network (ok (codes "org.app.TEAM"))) before

run_install_job-HasEnded_example :
    All
      (λ j. has_id 20 j ≡ true → HasEnded 600090 j (some (ok (codes "org.app.TEAM"))))
      (sent (trigger_refresh 600000 true (some devices) (λ n. 20 + n) db).1).jobs
run_install_job-HasEnded_example =
    run_install_job-HasEnded 600001 600090 20 1 9 true
      (progress 600002 12 ∷ other (λ d. d) ∷ progress 600050 60 ∷ [])
      (network (ok (codes "org.app.TEAM")))
      (trigger_refresh 600000 true (some devices) (λ n. 20 + n) db).1

abbrev television : DeviceSummary
television = record phone { id = 11; display_name = codes "TV"; device_class = apple_tv }

merge_install_devices-first_example :
    first (is_device 9) (
      found_devices (
        merge_install_devices
          (ok (phone ∷ []))
          (record phone { ios_version = codes "18.2" } ∷ television ∷ [])))
    ≡ some (record phone { ios_version = codes "18.2" })
unfolding first
merge_install_devices-first_example =
    merge_install_devices-first (ok (phone ∷ []))
      (record phone { ios_version = codes "18.2" } ∷ television ∷ []) 9

abbrev stored : Text → UploadFile
stored _ = upload (codes "Payload/App.app/App")

abbrev request : ℕ → CreateInstallJobRequest
request device_id = record { app_id = 1; device_id = device_id }

create_install_job-IsCreated_example :
    IsCreated simple stored 600000
      (some devices)
      30
      (request 9)
      db
      (create_install_job simple stored 600000 true (some devices) 30 (request 9) db).1
      (create_install_job simple stored 600000 true (some devices) 30 (request 9) db).0
create_install_job-IsCreated_example =
    create_install_job-IsCreated simple stored 600000 true (some devices) 30 (request 9) db

-- The job 5 while it is queued, and after its installation over the remote pairing.
abbrev queued_db : Database
queued_db = record db { jobs = queued_job 200 5 9 (codes "Phone") app ∷ [] }

abbrev installed_job : JobRow
installed_job = record (queued_job 200 5 9 (codes "Phone") app) {
  phase = succeeded;
  progress_percent = some 100;
  installed_bundle_id = some (codes "org.app");
  completed_at = some 2100;
}

abbrev over_rsd : Database
over_rsd =
    run_install_job 2000 2100 5 1 9 true []
      (rsd
        (install_remote_pairing_app
          (execute is_uuid staging sum outside answered answers run 50 upgrade) run 50 upgrade).0)
      queued_db

over_rsd_jobs : over_rsd.jobs ≡ installed_job ∷ []
unfolding run_install_job install_remote_pairing_app i_phone_loadly.Common.text_eq
    i_phone_loadly.Install.Execute.execute_rsd_first_install
    i_phone_loadly.Install.Upload.stage_signed_bundle i_phone_loadly.Install.Upload.stage_root
    i_phone_loadly.Install.Upload.stage_entries i_phone_loadly.Install.Upload.stage_entry
    rsd_install_timeout i_phone_loadly.Install.Execute.clean_exact_task_staging
    i_phone_loadly.Common.strip_prefix i_phone_loadly.Install.Outcome.install_verification_deadline
    i_phone_loadly.Store.Jobs.update_job_status i_phone_loadly.Common.update
    i_phone_loadly.Store.Managed.restore_managed_installation
    i_phone_loadly.Store.Jobs.set_job_installed_bundle_id
over_rsd_jobs = refl

stands : In installed_job over_rsd.jobs
stands = subst (In installed_job) (sym over_rsd_jobs) here

run_install_job-IsProven_example :
    (p : IsProven answers run (50 + rsd_install_timeout upgrade) (
      install_remote_pairing_app
        (execute is_uuid staging sum outside answered answers run 50 upgrade)
        run
        50
        upgrade))
    × (some (codes "org.app") ≡ some p.bundle_id)
run_install_job-IsProven_example =
    run_install_job-IsProven is_uuid staging sum outside answered answers run 50 2000 2100 5 1 9
      true [] queued_db installed_job stands refl refl
