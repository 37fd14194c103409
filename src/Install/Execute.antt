-- ===== src/Install/Execute.antt =====
-- `execute_rsd_first_install` of wireless_pairing.rs. What the device answers at each call is a field of
-- `Answers`; the calls of the device and the progress that is reported are a list.
pub mod Report
pub mod Sound
pub mod Truth
pub mod Tests
use i_phone_loadly.Common.{
  ℕ, Text, Bool, true, false, not, ◌&&◌, ◌||◌, any, take, Option, none, some, List, [], ◌∷◌, ◌++◌,
  codes, leb, is_empty, starts_with, strip_prefix, text_eq, Result, ok, err, if◌then◌else◌,
}
use i_phone_loadly.Store.{Uuid}
use i_phone_loadly.Install.{
  RsdInstallOutcome, RsdInstallStage, RsdStagingCleanup, RsdSessionCleanup, RsdInstallReport,
}
use i_phone_loadly.Install.Outcome.{
  Instant, InstallCommandFailure, outcome_after_install_result, install_error_kind,
  rsd_install_failure, install_verification_deadline, install_deadline,
}
use i_phone_loadly.Install.Upload.{
  Call, reports, creates, installs, removes, TaskStagingPath, SignedBundleUploadPlan, Progress,
  Traced,
}

pub data ExistingAppPolicy : Type 0 where
  refuse upgrade : ExistingAppPolicy

pub data UploadPlanFailure : Type 0 where
  source_not_directory source_symlink unsupported_file_type non_unicode_path : UploadPlanFailure
  unsafe_path too_many_entries too_many_bytes local_io timeout : UploadPlanFailure

unfoldable pub plan_failure_kind : UploadPlanFailure → Text
plan_failure_kind source_not_directory = codes "source_not_directory"
plan_failure_kind source_symlink = codes "source_symlink"
plan_failure_kind unsupported_file_type = codes "unsupported_file_type"
plan_failure_kind non_unicode_path = codes "non_unicode_path"
plan_failure_kind unsafe_path = codes "unsafe_path"
plan_failure_kind too_many_entries = codes "entry_limit"
plan_failure_kind too_many_bytes = codes "byte_limit"
plan_failure_kind local_io = codes "local_io"
plan_failure_kind timeout = codes "timeout"

-- The plan of the upload, which is made in a task of its own, with a deadline.
pub data Planning : Type 0 where
  planned : SignedBundleUploadPlan → Planning
  failed : UploadPlanFailure → Planning
  panicked late : Planning

-- The upload ends, or it is cut off after some of its calls. The flag that the root may exist is set
-- before the call that creates it.
pub data Upload : Type 0 where
  ended : Upload
  cut_off : ℕ → Bool → Upload

pub data Removal : Type 0 where
  removed not_found not_removed : Removal

pub record Answers : Type 0 where
  pub has_lookup_client : Bool
  pub lookup_before : Option Bool
  pub planning : Planning
  pub has_afc : Bool
  pub upload : Upload
  pub window_start : Instant
  pub now : Instant
  pub has_install_client : Bool
  pub command : Result InstallCommandFailure (Unit {0})
  pub verification_start : Instant
  pub verification_now : Instant
  pub has_verification_client : Bool
  pub lookup_after : Option Bool
  pub has_cleaning_client : Bool
  pub removal : Removal

-- The staging directory of a task; `uuid_text` prints its identifier.
unfoldable pub task_staging_path : (Uuid → Text) → Uuid → TaskStagingPath
task_staging_path uuid_text id =
    let root = codes "PublicStaging/iphoneloadly-spike-" ++ uuid_text id in
    record { root = root; app = root ++ codes "/Signed.app" }

-- `is_uuid` tells what `Uuid::parse_str` accepts.
unfoldable pub is_exact_task_root : (Text → Bool) → TaskStagingPath → Text → Bool
is_exact_task_root is_uuid staging candidate =
    text_eq candidate staging.root
    && elim (strip_prefix candidate (codes "PublicStaging/iphoneloadly-spike-")) [
      | none ↦ false
      | some suffix ↦ is_uuid suffix
    ]

abbrev pub is_create : Call → Bool
is_create (creates _) = true
is_create _ = false

abbrev pub removal_cleanup : Removal → RsdStagingCleanup
removal_cleanup not_removed = RsdStagingCleanup.failed
removal_cleanup _ = RsdStagingCleanup.succeeded

abbrev pub is_failed_cleanup : RsdStagingCleanup → Bool
is_failed_cleanup RsdStagingCleanup.failed = true
is_failed_cleanup _ = false

abbrev pub Outcome : Type 0
Outcome = RsdInstallReport × List Call

module _ (is_uuid : Text → Bool) (a : Answers) (staging : TaskStagingPath) where
  unfoldable pub clean_exact_task_staging : Bool → RsdStagingCleanup × List Call
  unfolding is_exact_task_root
  clean_exact_task_staging root_created =
      if not root_created
      then (RsdStagingCleanup.not_needed, [])
      else if not (is_exact_task_root is_uuid staging staging.root)
      then (RsdStagingCleanup.failed, [])
      else if not a.has_cleaning_client
      then (RsdStagingCleanup.failed, [])
      else (removal_cleanup a.removal, removes staging.root ∷ [])

  -- the end of an installation in which no command was sent
  abbrev pub stopped : Bool → List Call → RsdInstallReport → Outcome
  stopped root_created calls report =
      let (cleanup, more) = clean_exact_task_staging root_created in
      (
        record report { outcome = RsdInstallOutcome.not_installed; cleanup = cleanup },
        calls ++ more,
      )

  -- the last lines, which all other ends pass
  abbrev pub concluded : Bool → List Call → RsdInstallReport → Outcome
  concluded root_created calls report =
      let (cleanup, more) = clean_exact_task_staging root_created in
      let cleaned = record report { cleanup = cleanup } in
      (
        (if is_failed_cleanup cleanup && is_empty report.error_kind
            then record cleaned {
              stage = RsdInstallStage.cleanup;
              error_kind = codes "staging_cleanup";
            }
            else cleaned),
        calls ++ more,
      )

-- What the lookup after the command says; a late one is not made.
abbrev pub verified : Answers → Instant → Option Bool
verified a deadline =
    if leb (install_verification_deadline deadline a.verification_start) a.verification_now
    then none
    else if a.has_verification_client
    then a.lookup_after
    else none

abbrev outcome_stage : RsdInstallOutcome → RsdInstallStage
outcome_stage RsdInstallOutcome.installed = RsdInstallStage.complete
outcome_stage _ = RsdInstallStage.verification

-- the report after the command
abbrev pub command_report : Answers → Text → Bool → Instant → RsdInstallReport
command_report a bundle_id pressure deadline =
    let outcome = outcome_after_install_result a.command (verified a deadline) in
    record {
      outcome = outcome;
      stage = outcome_stage outcome;
      cleanup = RsdStagingCleanup.not_needed;
      session_cleanup = RsdSessionCleanup.not_needed;
      install_command_count = 1;
      error_kind = install_error_kind a.command outcome;
      bundle_id = some bundle_id;
      certificate_pressure = pressure;
    }

-- The upload that ended: its result, whether the root may exist and its calls.
abbrev Ended : Type 0
Ended = Traced Progress × Bool

-- `stage` is what the upload of a plan to the device does when nothing cuts it off.
module _ (is_uuid : Text → Bool) (staging : TaskStagingPath)
    (stage : SignedBundleUploadPlan → Ended) (a : Answers) (bundle_id : Text) (pressure : Bool)
    (deadline : Instant) where
  abbrev failure : RsdInstallStage → Text → RsdInstallReport
  failure at kind = rsd_install_failure at kind pressure (some bundle_id)

  -- the part after the upload
  unfoldable pub install_staged : Bool → List Call → Outcome
  unfolding outcome_after_install_result install_error_kind rsd_install_failure install_deadline
  install_staged root_created calls =
      if leb (install_deadline deadline a.window_start) a.now
      then stopped is_uuid a staging root_created calls
          (failure RsdInstallStage.install (codes "timeout"))
      else if not a.has_install_client
      then stopped is_uuid a staging root_created calls
          (failure RsdInstallStage.install (codes "installation_proxy"))
      else concluded is_uuid a staging root_created
          (calls ++ reports 90 ∷ installs staging.app ∷ reports 95 ∷ [])
          (command_report a bundle_id pressure deadline)

  -- an upload that failed
  abbrev pub not_staged : Text → Bool → List Call → Outcome
  not_staged kind root_created calls =
      concluded is_uuid a staging root_created calls
        (record (failure RsdInstallStage.staging kind) {
          outcome = RsdInstallOutcome.not_installed;
        })

  unfoldable pub upload_planned : Upload → Ended → Outcome
  unfolding rsd_install_failure install_staged
  upload_planned (cut_off made is_set) ((result, calls), root_created) =
      not_staged (codes "timeout") (root_created && (is_set || any is_create (take made calls)))
        (take made calls)
  upload_planned ended ((err kind, calls), root_created) = not_staged kind root_created calls
  upload_planned ended ((ok _, calls), root_created) = install_staged root_created calls

  unfoldable pub install_planned : Planning → Outcome
  unfolding rsd_install_failure plan_failure_kind upload_planned
  install_planned (failed why) = (failure RsdInstallStage.staging (plan_failure_kind why), [])
  install_planned panicked = (failure RsdInstallStage.staging (codes "local_task"), [])
  install_planned late = (failure RsdInstallStage.staging (codes "timeout"), [])
  install_planned (planned plan) =
      if not a.has_afc
      then (failure RsdInstallStage.staging (codes "afc_service"), [])
      else upload_planned a.upload (stage plan)

  abbrev looked_up : Option Bool → Outcome
  looked_up (some true) =
      (failure RsdInstallStage.already_installed (codes "app_already_installed"), [])
  looked_up (some false) = install_planned a.planning
  looked_up none = (failure RsdInstallStage.already_installed (codes "installed_app_lookup"), [])

  unfoldable pub execute_rsd_first_install : ExistingAppPolicy → Outcome
  unfolding rsd_install_failure install_planned
  execute_rsd_first_install upgrade = install_planned a.planning
  execute_rsd_first_install refuse =
      if not a.has_lookup_client
      then (failure RsdInstallStage.already_installed (codes "installation_proxy"), [])
      else looked_up a.lookup_before
