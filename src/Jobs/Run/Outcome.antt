-- ===== src/Jobs/Run/Outcome.antt =====
-- How an installation job ends.
use i_phone_loadly.Common.{
  ◌≡◌, refl, Bool, true, false, Option, none, some, List, Text, codes, All, All-map, All-updated,
  All-any_row, Result, ok, err,
}
use i_phone_loadly.Store.{Uuid, Timestamp, Database, JobRow, succeeded, failed}
use i_phone_loadly.Store.Jobs.{
  has_id, update_job_status, set_job_failure, set_job_installed_bundle_id, with_status,
}
use i_phone_loadly.Store.Managed.{restore_managed_installation}
use i_phone_loadly.Jobs.{TransportError}
use i_phone_loadly.Jobs.Run.{
  Installation, Event, install_result, failure_code, finish, run_install_job,
}

-- A job that has ended, by the result of the installation; without a file there is none.
pub data HasEnded (now : Timestamp) (j : JobRow)
    : Option (Result TransportError Text) → Type 0 where
  done :
      (bundle_id : Text)
      → j.phase ≡ succeeded
      → j.progress_percent ≡ some 100
      → j.completed_at ≡ some now
      → j.installed_bundle_id ≡ some bundle_id
      → HasEnded now j (some (ok bundle_id))
  gave_up :
      (error : TransportError)
      → j.phase ≡ failed
      → j.completed_at ≡ some now
      → j.failure_code ≡ some (failure_code error)
      → HasEnded now j (some (err error))
  missing :
      j.phase ≡ failed
      → j.completed_at ≡ some now
      → j.failure_code ≡ some (codes "ipa_file_missing")
      → HasEnded now j none

-- Every row with the id of the job has the property.
abbrev Marks : (JobRow → Type 0) → Uuid → Database → Type 0
Marks P id db = All (λ j. has_id id j ≡ true → P j) db.jobs

fail_job :
    (now : Timestamp) (id : Uuid) (code : Text) (db : Database)
    → Marks
        (λ j. (j.phase ≡ failed) × (j.completed_at ≡ some now) × (j.failure_code ≡ some code))
        id
        (update_job_status now id failed none (set_job_failure id code db))
unfolding update_job_status set_job_failure
fail_job now id code db =
    All-updated (λ j. j.failure_code ≡ some code)
      (λ j. (j.phase ≡ failed) × (j.completed_at ≡ some now) × (j.failure_code ≡ some code))
      (has_id id) (with_status now failed none) (set_job_failure id code db).jobs
      (λ j e. (refl, refl, e))
      (All-updated (λ _. Unit) (λ j. j.failure_code ≡ some code) (has_id id)
        (λ j. record j { failure_code = some code }) db.jobs (λ j _. refl)
        (All-any_row _ db.jobs (λ _ _. tt)))

complete_job :
    (now : Timestamp) (id app_id device_id : Uuid) (bundle_id : Text) (db : Database)
    → Marks
        (λ j. HasEnded now j (some (ok bundle_id)))
        id
        (finish now id app_id device_id (ok bundle_id) db)
unfolding finish update_job_status restore_managed_installation set_job_installed_bundle_id
complete_job now id app_id device_id bundle_id db =
    All-updated (λ j. j.installed_bundle_id ≡ some bundle_id)
      (λ j. HasEnded now j (some (ok bundle_id))) (has_id id) (with_status now succeeded (some 100))
      (set_job_installed_bundle_id id bundle_id db).jobs (λ j e. done bundle_id refl refl refl e)
      (All-updated (λ _. Unit) (λ j. j.installed_bundle_id ≡ some bundle_id) (has_id id)
        (λ j. record j { installed_bundle_id = some bundle_id }) db.jobs (λ j _. refl)
        (All-any_row _ db.jobs (λ _ _. tt)))

finish-HasEnded :
    (now : Timestamp) (id app_id device_id : Uuid) (result : Result TransportError Text)
    (db : Database)
    → Marks (λ j. HasEnded now j (some result)) id (finish now id app_id device_id result db)
unfolding finish
finish-HasEnded now id app_id device_id (ok bundle_id) db =
    complete_job now id app_id device_id bundle_id db
finish-HasEnded now id app_id device_id (err error) db =
    All-map (finish now id app_id device_id (err error) db).jobs
      (λ j h e. let (p, c, f) = h e in gave_up error p c f)
      (fail_job now id (failure_code error) db)

-- the result of the installation, if the file was there
abbrev pub result_of : Bool → Installation → Option (Result TransportError Text)
result_of true installation = some (install_result installation)
result_of false installation = none

-- the time of the last statement
abbrev pub end_of : Bool → Timestamp → Timestamp → Timestamp
end_of true started ended = ended
end_of false started ended = started

-- Once the transport has returned, whatever progress it reported and whatever other requests did
-- meanwhile, each row with the id of the job is finished: succeeded with the bundle that was
-- installed, or failed with the code of the error or of the missing file, and with its time.
pub run_install_job-HasEnded :
    (started ended : Timestamp) (id app_id device_id : Uuid) (is_file : Bool) (events : List Event)
    (installation : Installation) (db : Database)
    → All
        (λ j.
          has_id id j ≡ true
          → HasEnded (end_of is_file started ended) j (result_of is_file installation))
        (run_install_job started ended id app_id device_id is_file events installation db).jobs
unfolding run_install_job
run_install_job-HasEnded started ended id app_id device_id true events installation db =
    finish-HasEnded ended id app_id device_id (install_result installation) _
run_install_job-HasEnded started ended id app_id device_id false events installation db =
    All-map
      (update_job_status started id failed none
        (set_job_failure id (codes "ipa_file_missing") db)).jobs
      (λ j h e. let (p, c, f) = h e in missing p c f)
      (fail_job started id (codes "ipa_file_missing") db)
