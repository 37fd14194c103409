-- ===== src/Jobs/Run.antt =====
-- `run_install_job` of main.rs.
pub mod Outcome
pub mod Confirmed
use i_phone_loadly.Common.{
  ℕ, Text, Bool, true, false, not, Option, none, some, List, [], ◌∷◌, codes, leb, text_eq, Result,
  ok, err, if◌then◌else◌,
}
use i_phone_loadly.Store.{
  Uuid, Timestamp, Database, Phase, connecting, signing, transferring, succeeded, failed,
}
use i_phone_loadly.Store.Jobs.{update_job_status, set_job_failure, set_job_installed_bundle_id}
use i_phone_loadly.Store.Managed.{restore_managed_installation}
use i_phone_loadly.Install.{RsdInstallReport, RsdInstallOutcome, RsdInstallStage}
use i_phone_loadly.Jobs.{
  TransportError, unavailable, device_install_failed, device_info_failed, developer_team_failed,
  device_registration_failed, ipa_signing_failed, signed_metadata_failed,
}

abbrev pub is_installed : RsdInstallOutcome → Bool
is_installed RsdInstallOutcome.installed = true
is_installed _ = false

-- the error of a stage in which the installation has ended
abbrev stage_error : RsdInstallStage → Text → TransportError
stage_error RsdInstallStage.discovery kind = unavailable
stage_error RsdInstallStage.validate_pairing kind = unavailable
stage_error RsdInstallStage.tunnel kind = unavailable
stage_error RsdInstallStage.rsd_handshake kind = unavailable
stage_error RsdInstallStage.identity kind = device_info_failed
stage_error RsdInstallStage.account_preflight kind =
    if text_eq kind (codes "device_registration_required")
    then device_registration_failed
    else developer_team_failed
stage_error RsdInstallStage.signing kind = ipa_signing_failed
stage_error _ kind = device_install_failed

abbrev pub bundle_or_failed : Option Text → Result TransportError Text
bundle_or_failed none = err device_install_failed
bundle_or_failed (some bundle_id) = ok bundle_id

unfoldable pub rsd_install_result : RsdInstallReport → Result TransportError Text
rsd_install_result report =
    if is_installed report.outcome
    then bundle_or_failed report.bundle_id
    else err (stage_error report.stage report.error_kind)

-- What one of the two transports returns.
pub data Installation : Type 0 where
  rsd : RsdInstallReport → Installation
  network : Result TransportError Text → Installation

abbrev pub install_result : Installation → Result TransportError Text
install_result (rsd report) = rsd_install_result report
install_result (network result) = result

unfoldable pub failure_code : TransportError → Text
failure_code unavailable = codes "iphone_unavailable"
failure_code device_info_failed = codes "device_info_failed"
failure_code developer_team_failed = codes "developer_team_failed"
failure_code device_registration_failed = codes "device_registration_failed"
failure_code ipa_signing_failed = codes "ipa_signing_failed"
failure_code signed_metadata_failed = codes "signed_metadata_failed"
failure_code device_install_failed = codes "device_install_failed"

-- What happens while the transport works: a call of the progress callback, or what other requests do
-- with the database.
pub data Event : Type 0 where
  progress : Timestamp → ℕ → Event
  other : (Database → Database) → Event

abbrev pub progress_phase : ℕ → Phase
progress_phase percent = if leb 40 percent then transferring else signing

unfoldable pub on_events : Uuid → List Event → Database → Database
on_events id [] db = db
on_events id (progress now percent ∷ events) db =
    on_events id events (update_job_status now id (progress_phase percent) (some percent) db)
on_events id (other change ∷ events) db = on_events id events (change db)

-- the code after the installation
unfoldable pub finish :
    Timestamp → Uuid → Uuid → Uuid → Result TransportError Text → Database → Database
unfolding failure_code
finish now id app_id device_id (ok bundle_id) db =
    update_job_status now id succeeded (some 100)
      (restore_managed_installation app_id device_id (set_job_installed_bundle_id id bundle_id db))
finish now id app_id device_id (err error) db =
    update_job_status now id failed none (set_job_failure id (failure_code error) db)

-- The times are those of the first and of the last statements; the events end when the transport
-- returns.
unfoldable pub run_install_job :
    Timestamp
    → Timestamp
    → Uuid
    → Uuid
    → Uuid
    → Bool
    → List Event
    → Installation
    → Database
    → Database
unfolding on_events finish rsd_install_result
run_install_job started ended id app_id device_id is_file events installation db =
    if not is_file
    then update_job_status started id failed none (set_job_failure id (codes "ipa_file_missing") db)
    else finish ended id app_id device_id (install_result installation) (
        on_events id events (
          update_job_status started id signing (some 1)
            (update_job_status started id connecting (some 0) db)))
