-- ===== src/Install.antt =====
-- The report of an installation over a remote pairing
-- (crates/iphoneloadly-api/src/wireless_pairing.rs).
pub mod Upload
pub mod Outcome
pub mod Execute
pub mod Plan
pub mod Identity
pub mod Pipeline
use i_phone_loadly.Common.{ℕ, Text, Bool, Option}

pub data RsdInstallOutcome : Type 0 where
  not_started installed not_installed outcome_unknown : RsdInstallOutcome

pub data RsdInstallStage : Type 0 where
  discovery validate_pairing tunnel rsd_handshake identity account_preflight : RsdInstallStage
  signing already_installed staging install verification cleanup : RsdInstallStage
  session_cleanup complete : RsdInstallStage

pub data RsdStagingCleanup : Type 0 where
  not_needed succeeded failed : RsdStagingCleanup

pub data RsdSessionCleanup : Type 0 where
  not_needed succeeded failed : RsdSessionCleanup

-- The report, less the signing diagnostic, which is only written to the log.
pub record RsdInstallReport : Type 0 where
  pub outcome : RsdInstallOutcome
  pub stage : RsdInstallStage
  pub cleanup : RsdStagingCleanup
  pub session_cleanup : RsdSessionCleanup
  pub install_command_count : ℕ
  pub error_kind : Text
  pub bundle_id : Option Text
  pub certificate_pressure : Bool
