-- ===== src/Install/Outcome.antt =====
-- What an installation reports of its result: the small functions of wireless_pairing.rs around
-- `execute_rsd_first_install`. An instant is a number of seconds; the lookups of an app give none
-- where they fail.
use i_phone_loadly.Common.{
  ℕ, ◌+◌, ◌-◌, Text, Bool, true, false, ◌&&◌, Option, none, some, [], codes, leb, is_empty, Result,
  ok, err, if◌then◌else◌,
}
use i_phone_loadly.Install.{
  RsdInstallOutcome, RsdInstallStage, RsdStagingCleanup, RsdSessionCleanup, RsdInstallReport,
}

abbrev pub Instant : Type 0
Instant = ℕ

pub data InstallCommandFailure : Type 0 where
  definitive possibly_accepted : InstallCommandFailure

unfoldable pub outcome_after_install_failure :
    InstallCommandFailure → Option Bool → RsdInstallOutcome
outcome_after_install_failure _ (some true) = RsdInstallOutcome.installed
outcome_after_install_failure definitive _ = RsdInstallOutcome.not_installed
outcome_after_install_failure possibly_accepted _ = RsdInstallOutcome.outcome_unknown

unfoldable pub outcome_after_install_result :
    Result InstallCommandFailure (Unit {0}) → Option Bool → RsdInstallOutcome
unfolding outcome_after_install_failure
outcome_after_install_result (ok _) (some true) = RsdInstallOutcome.installed
outcome_after_install_result (ok _) (some false) = RsdInstallOutcome.not_installed
outcome_after_install_result (ok _) none = RsdInstallOutcome.outcome_unknown
outcome_after_install_result (err failure) lookup = outcome_after_install_failure failure lookup

-- Never called where the outcome is that nothing was started.
unfoldable pub install_error_kind :
    Result InstallCommandFailure (Unit {0}) → RsdInstallOutcome → Text
install_error_kind _ RsdInstallOutcome.installed = []
install_error_kind (ok _) RsdInstallOutcome.not_installed = codes "install_not_verified"
install_error_kind (err _) RsdInstallOutcome.not_installed = codes "install_rejected"
install_error_kind _ RsdInstallOutcome.outcome_unknown = codes "install_result_ambiguous"
install_error_kind _ RsdInstallOutcome.not_started = codes "install command was sent"

abbrev pub is_failed : RsdSessionCleanup → Bool
is_failed RsdSessionCleanup.failed = true
is_failed _ = false

unfoldable pub merge_session_cleanup : RsdSessionCleanup → RsdSessionCleanup → RsdSessionCleanup
merge_session_cleanup RsdSessionCleanup.failed _ = RsdSessionCleanup.failed
merge_session_cleanup _ RsdSessionCleanup.failed = RsdSessionCleanup.failed
merge_session_cleanup RsdSessionCleanup.succeeded _ = RsdSessionCleanup.succeeded
merge_session_cleanup _ RsdSessionCleanup.succeeded = RsdSessionCleanup.succeeded
merge_session_cleanup RsdSessionCleanup.not_needed RsdSessionCleanup.not_needed =
    RsdSessionCleanup.not_needed

unfoldable pub record_session_cleanup : RsdSessionCleanup → RsdInstallReport → RsdInstallReport
record_session_cleanup cleanup report =
    let recorded = record report { session_cleanup = cleanup } in
    if is_failed cleanup && is_empty report.error_kind
    then record recorded {
      stage = RsdInstallStage.session_cleanup;
      error_kind = codes "session_cleanup";
    }
    else recorded

unfoldable pub rsd_install_failure : RsdInstallStage → Text → Bool → Option Text → RsdInstallReport
rsd_install_failure stage error_kind certificate_pressure bundle_id = record {
  outcome = RsdInstallOutcome.not_started;
  stage = stage;
  cleanup = RsdStagingCleanup.not_needed;
  session_cleanup = RsdSessionCleanup.not_needed;
  install_command_count = 0;
  error_kind = error_kind;
  bundle_id = bundle_id;
  certificate_pressure = certificate_pressure;
}

-- `checked_sub`, with the instant that stands for none
abbrev pub before_or : Instant → ℕ → Instant → Instant
before_or instant duration otherwise =
    if leb duration instant then instant - duration else otherwise

-- 10 seconds for the staging directory and 10 for the session
abbrev pub install_cleanup_reserve : ℕ
install_cleanup_reserve = 20

abbrev pub rsd_install_verification_timeout : ℕ
rsd_install_verification_timeout = 20

unfoldable pub install_work_deadline : Instant → Instant → Instant
install_work_deadline overall start = before_or overall install_cleanup_reserve start

unfoldable pub install_verification_deadline : Instant → Instant → Instant
unfolding install_work_deadline
install_verification_deadline overall start =
    let limit = install_work_deadline overall start in
    if leb limit (start + rsd_install_verification_timeout)
    then limit
    else start + rsd_install_verification_timeout

-- the last instant at which the install command is sent
unfoldable pub install_deadline : Instant → Instant → Instant
unfolding install_work_deadline
install_deadline overall start =
    let limit = install_work_deadline overall start in
    before_or limit rsd_install_verification_timeout limit
