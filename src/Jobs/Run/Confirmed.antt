-- ===== src/Jobs/Run/Confirmed.antt =====
-- The installation jobs that succeed over a remote pairing: `run_install_job` of main.rs together with
-- `install_remote_pairing_app` of wireless_pairing.rs.
use i_phone_loadly.Common.{
  ◌≡◌, refl, sym, ap, ◌∙◌, ◌+◌, Bool, true, false, Option, none, some, List, Text, In, All-of_In,
  Result, ok, ok-injective, if-intro,
}
use i_phone_loadly.Store.{Uuid, Timestamp, Database, JobRow, succeeded}
use i_phone_loadly.Store.Jobs.{has_id}
use i_phone_loadly.Install.{RsdInstallOutcome, RsdInstallReport}
use i_phone_loadly.Install.Outcome.{Instant}
use i_phone_loadly.Install.Upload.{Bytes, UploadEntry, Outside, Staging, TaskStagingPath}
use i_phone_loadly.Install.Execute.{Answers, Outcome, upgrade}
use i_phone_loadly.Install.Pipeline.{Run, rsd_install_timeout, install_remote_pairing_app}
use i_phone_loadly.Install.Pipeline.Proven.{IsProven, execute, install_remote_pairing_app-IsProven}
use i_phone_loadly.Jobs.{TransportError}
use i_phone_loadly.Jobs.Run.{
  Event, rsd, rsd_install_result, run_install_job, is_installed, bundle_or_failed,
}
use i_phone_loadly.Jobs.Run.Outcome.{
  HasEnded, end_of, done, gave_up, missing, result_of, run_install_job-HasEnded,
}

HasEnded-succeeded :
    (now : Timestamp) (j : JobRow) (result : Option (Result TransportError Text))
    → HasEnded now j result
    → j.phase ≡ succeeded
    → (bundle_id : Text) × (result ≡ some (ok bundle_id)) × (j.installed_bundle_id ≡ some bundle_id)
HasEnded-succeeded now j _ (done bundle_id _ _ _ b) s = (bundle_id, refl, b)
HasEnded-succeeded now j _ (gave_up error f _ _) s = absurd (cc (sym f ∙ s))
HasEnded-succeeded now j _ (missing f _ _) s = absurd (cc (sym f ∙ s))

is_installed-eq :
    (outcome : RsdInstallOutcome)
    → is_installed outcome ≡ true
    → outcome ≡ RsdInstallOutcome.installed
is_installed-eq RsdInstallOutcome.installed h = refl
is_installed-eq RsdInstallOutcome.not_installed h = cc
is_installed-eq RsdInstallOutcome.not_started h = cc
is_installed-eq RsdInstallOutcome.outcome_unknown h = cc

bundle_or_failed-ok :
    (o : Option Text) (bundle_id : Text) → bundle_or_failed o ≡ ok bundle_id → o ≡ some bundle_id
bundle_or_failed-ok none bundle_id h = absurd (cc h)
bundle_or_failed-ok (some other) bundle_id h = ap some (ok-injective h)

rsd_install_result-ok :
    (report : RsdInstallReport) (bundle_id : Text)
    → rsd_install_result report ≡ ok bundle_id
    → (report.outcome ≡ RsdInstallOutcome.installed) × (report.bundle_id ≡ some bundle_id)
unfolding rsd_install_result
rsd_install_result-ok report bundle_id =
    if-intro {A = Result TransportError Text}
      (λ r.
        r ≡ ok bundle_id
        → (report.outcome ≡ RsdInstallOutcome.installed) × (report.bundle_id ≡ some bundle_id))
      (is_installed report.outcome)
      (λ e h. (is_installed-eq report.outcome e, bundle_or_failed-ok report.bundle_id bundle_id h))
      (λ _ h. absurd (cc h))

result_of-ok :
    (is_file : Bool) (report : RsdInstallReport) (bundle_id : Text)
    → result_of is_file (rsd report) ≡ some (ok bundle_id)
    → rsd_install_result report ≡ ok bundle_id
result_of-ok true report bundle_id h = cc
result_of-ok false report bundle_id h = cc

some-injective : {A : Type 0} {x y : A} → ◌≡◌ {A = Option A} (some x) (some y) → x ≡ y
some-injective h = cc

-- If a job over a remote pairing has succeeded once it is over, then the device had the same identity
-- in both sessions, the bundle that the job records is the one that was signed for it, one install
-- command was sent, and the lookup after the command found the app on the device.
pub run_install_job-IsProven :
    (is_uuid : Text → Bool) (staging : TaskStagingPath) (sha256 : Bytes → Bytes)
    (outside : UploadEntry → Outside) (s : Staging) (a : Answers) (run : Run) (start : Instant)
    (started ended : Timestamp) (id app_id device_id : Uuid) (is_file : Bool) (events : List Event)
    (db : Database) (j : JobRow)
    → let installed =
        install_remote_pairing_app
          (execute is_uuid staging sha256 outside s a run start upgrade)
          run
          start
          upgrade in
      In j
        (run_install_job started ended id app_id device_id is_file events (rsd installed.0) db).jobs
      → has_id id j ≡ true
      → j.phase ≡ succeeded
      → (p : IsProven a run (start + rsd_install_timeout upgrade) installed)
        × (j.installed_bundle_id ≡ some p.bundle_id)
run_install_job-IsProven is_uuid staging sha256 outside s a run start started ended id app_id
      device_id is_file events db j m i e =
    let ended_job =
      All-of_In
        (λ k.
          has_id id k ≡ true
          → HasEnded (end_of is_file started ended) k (result_of is_file (rsd installed.0)))
        (run_install_job-HasEnded started ended id app_id device_id is_file events (rsd installed.0)
          db)
        m in
    let (bundle_id, r, b) = HasEnded-succeeded _ j _ (ended_job i) e in
    let (outcome, named) =
      rsd_install_result-ok installed.0 bundle_id (result_of-ok is_file installed.0 bundle_id r) in
    let p =
      install_remote_pairing_app-IsProven is_uuid staging sha256 outside s a run start upgrade
        outcome in
    (p, b ∙ sym named ∙ p.named)
  where
    installed : Outcome
    installed =
        install_remote_pairing_app (execute is_uuid staging sha256 outside s a run start upgrade)
          run start upgrade
