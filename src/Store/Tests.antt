-- ===== src/Store/Tests.antt =====
-- The store at concrete tables, and the theorems about it applied there.
use i_phone_loadly.Common.{
  ok, ◌≡◌, refl, ◌↔◌, true, false, none, some, [], ◌∷◌, not, codes, ℕ, select, first, In, is_unique,
  update, ◌++◌,
}
use i_phone_loadly.Store.{is_active, AppRow, JobRow, SourceRow, Database, initialize, succeeded}
use i_phone_loadly.Store.Apps.{insert_app, mark_app_deleted, restore_app, ready, new_app}
use i_phone_loadly.Store.Apps.Deletion.{
  IsRemoved, mark_app_deleted-ready, restore_app-mark_app_deleted,
}
use i_phone_loadly.Store.Jobs.{active_job_exists, queued_job, insert_job, update_job_status}
use i_phone_loadly.Store.Sources.{new_source, insert_github_source, set_source_automation}
use i_phone_loadly.Store.Settings.{refresh_after_days, set_refresh_after_days}
use i_phone_loadly.Store.Settings.Laws.{refresh_after_days-set}
use i_phone_loadly.Store.Managed.{is_unmanaged, is_latest, forget_managed_installation}
use i_phone_loadly.Store.Managed.Forgetting.{target_is, refresh_due_targets-forget}
use i_phone_loadly.Store.Refresh.{refresh_due_targets}
use i_phone_loadly.Store.Refresh.Laws.{IsDue, refresh_due_targets_iff}
use i_phone_loadly.Store.Invariant.{IsConsistent}
use i_phone_loadly.Store.Invariant.Reach.{
  Reach, start, next, app_inserted, source_inserted, automation_set, job_inserted, status_updated,
  Reach-IsConsistent,
}

abbrev app : AppRow
app = new_app 100 1 (codes "ab12") (codes "/apps/1.ipa") 4096 (codes "org.app") (codes "App") none

abbrev source : SourceRow
source = new_source 120 7 (some 1) (codes "owner") (codes "repo") (codes "*.ipa") false

abbrev job : JobRow
job = record (queued_job 200 5 9 (codes "Phone") app) {
  phase = succeeded;
  completed_at = some 1000;
}

abbrev pub db : Database
db = record {
  apps = app ∷ [];
  jobs = job ∷ [];
  settings = [];
  unmanaged = [];
  sources = record source { auto_download = true; auto_acknowledged_at = some 130 } ∷ [];
}

abbrev uploaded : Database
uploaded = record initialize { apps = app ∷ [] }

reached : Reach uploaded
unfolding insert_app
reached = next start (
    app_inserted 100 1 (codes "ab12") (codes "/apps/1.ipa") 4096 (codes "org.app") (codes "App")
      none refl)

-- An automatic source of the app, a job of it that has succeeded, and a queued one.
abbrev sourced : Database
sourced = record uploaded { sources = source ∷ [] }

abbrev automatic : Database
automatic = record sourced {
  sources =
      record source { auto_download = true; auto_acknowledged_at = some 130; updated_at = 130 }
      ∷ [];
}

abbrev queued : Database
queued = record automatic { jobs = queued_job 200 5 9 (codes "Phone") app ∷ [] }

abbrev done : Database
done = update_job_status 1000 5 succeeded (some 100) queued

abbrev requeued : Database
requeued = record done { jobs = done.jobs ++ queued_job 1100 6 9 (codes "Phone") app ∷ [] }

used : Reach requeued
unfolding insert_github_source first set_source_automation insert_job is_unique update_job_status
    update is_active
used =
    next
      (next
        (next
          (next
            (next reached (
              source_inserted 120 7 (some 1) (codes "owner") (codes "repo") (codes "*.ipa") false
                {db' = sourced} refl))
            (automation_set 130 7 true true))
          (job_inserted 200 5 1 9 (codes "Phone") {db' = queued} refl))
        (status_updated 1000 5 succeeded (some 100) (λ _. refl, tt)))
      (job_inserted 1100 6 1 9 (codes "Phone") {db' = requeued} refl)

Reach-IsConsistent_example : IsConsistent requeued
Reach-IsConsistent_example = Reach-IsConsistent used

removed_db : (mark_app_deleted 300 1 db).0 ≡ ready (codes "/apps/1.ipa")
unfolding mark_app_deleted first
removed_db = refl

mark_app_deleted-ready_example : IsRemoved 1 (codes "/apps/1.ipa") db (mark_app_deleted 300 1 db).1
mark_app_deleted-ready_example = mark_app_deleted-ready 300 1 (codes "/apps/1.ipa") db removed_db

restore_app-mark_app_deleted_example : (restore_app 1 (mark_app_deleted 300 1 db).1).apps ≡ db.apps
unfolding is_unique
restore_app-mark_app_deleted_example =
    restore_app-mark_app_deleted 300 1 (codes "/apps/1.ipa") db refl removed_db

abbrev set_to : ℕ → Database
set_to n = record db { settings = record { key = codes "refresh_after_days"; value = n ∷ [] } ∷ [] }

set_to_three : set_refresh_after_days 3 db ≡ ok (set_to b'3')
unfolding set_refresh_after_days
set_to_three = refl

refresh_after_days-set_example : refresh_after_days (set_to b'3') ≡ 3
refresh_after_days-set_example = refresh_after_days-set 3 db set_to_three

due : refresh_due_targets 600000 6 db ≡ (1, 9, codes "/apps/1.ipa") ∷ []
unfolding refresh_due_targets select is_unmanaged is_latest
due = refl

refresh_due_targets_iff_example :
    In (1, 9, codes "/apps/1.ipa") (refresh_due_targets 600000 6 db)
    ↔ IsDue 600000 6 db (1, 9, codes "/apps/1.ipa")
refresh_due_targets_iff_example = refresh_due_targets_iff 600000 6 db (1, 9, codes "/apps/1.ipa")

refresh_due_targets-forget_example :
    refresh_due_targets 600000 6 (forget_managed_installation 5000 1 9 db).1
    ≡ select (λ t. not (target_is 1 9 t)) (refresh_due_targets 600000 6 db)
unfolding active_job_exists
refresh_due_targets-forget_example = refresh_due_targets-forget 5000 600000 6 1 9 db refl
