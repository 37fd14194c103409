-- ===== src/Install/Pipeline.antt =====
-- `install_remote_pairing_app` of wireless_pairing.rs: a session to identify the device, the signing
-- for it, a second session to the same device, and the installation. What opening a session, the
-- signing and closing give is a field of `Run`.
pub mod Proven
pub mod Tests
use i_phone_loadly.Common.{
  ℕ, ◌+◌, Text, Bool, true, false, not, ◌&&◌, Option, none, some, List, [], codes, leb, Result, ok,
  err, if◌then◌else◌,
}
use i_phone_loadly.Install.{RsdInstallStage, RsdSessionCleanup, RsdInstallReport}
use i_phone_loadly.Install.Outcome.{
  Instant, is_failed, merge_session_cleanup, record_session_cleanup, rsd_install_failure,
}
use i_phone_loadly.Install.Identity.{
  SigningDeviceIdentity, RsdIdentityFailure, identity_failure_kind, same_device,
}
use i_phone_loadly.Install.Execute.{ExistingAppPolicy, refuse, upgrade, Outcome}

pub data ReadOnlyProbeStage : Type 0 where
  discovery validate_pairing tunnel rsd_handshake service_lookup service_connect :
      ReadOnlyProbeStage
  client_init afc_query app_lookup cleanup : ReadOnlyProbeStage

unfoldable pub install_stage : ReadOnlyProbeStage → RsdInstallStage
install_stage discovery = RsdInstallStage.discovery
install_stage validate_pairing = RsdInstallStage.validate_pairing
install_stage tunnel = RsdInstallStage.tunnel
install_stage afc_query = RsdInstallStage.staging
install_stage app_lookup = RsdInstallStage.already_installed
install_stage cleanup = RsdInstallStage.session_cleanup
install_stage _ = RsdInstallStage.rsd_handshake

pub data RsdProbeStage : Type 0 where
  discovery validate_pairing tunnel rsd_handshake core_device_service : RsdProbeStage

unfoldable pub probe_install_stage : RsdProbeStage → RsdInstallStage
probe_install_stage RsdProbeStage.discovery = RsdInstallStage.discovery
probe_install_stage RsdProbeStage.validate_pairing = RsdInstallStage.validate_pairing
probe_install_stage RsdProbeStage.tunnel = RsdInstallStage.tunnel
probe_install_stage RsdProbeStage.rsd_handshake = RsdInstallStage.rsd_handshake
probe_install_stage core_device_service = RsdInstallStage.rsd_handshake

-- The opening of a session, which may be late at a stage.
pub data Opening : Type 0 where
  opened : Opening
  not_opened : RsdProbeStage → RsdSessionCleanup → Opening
  opening_late : ReadOnlyProbeStage → Opening

-- The identity of the device, none where it was late.
abbrev pub IdentityRead : Type 0
IdentityRead = Option (Result RsdIdentityFailure SigningDeviceIdentity)

-- the errors of the signing that have a kind of their own, and the others
pub data SigningError : Type 0 where
  not_ready device_registration_required developer_team_failed : SigningError
  signed_metadata_failed other_error : SigningError

unfoldable pub signing_error_kind : SigningError → Text
signing_error_kind not_ready = codes "signing_not_ready"
signing_error_kind device_registration_required = codes "device_registration_required"
signing_error_kind developer_team_failed = codes "account_preflight"
signing_error_kind signed_metadata_failed = codes "signed_metadata"
signing_error_kind other_error = codes "signing_failed"

-- The part of the preflight that a report tells of.
pub record Preflight : Type 0 where
  pub development_certificate_count : ℕ
  pub development_certificate_capacity : Option ℕ
  pub machine_certificate_present : Bool

-- The signing: with the bundle identifier of the artifact, if there is one.
pub data Signing : Type 0 where
  signed : Preflight → Option Text → Signing
  preflight_error signing_error : SigningError → Signing
  panicked late : Signing

pub record Run : Type 0 where
  pub first_opening : Opening
  pub first_identity : IdentityRead
  pub first_close : RsdSessionCleanup
  pub signing : Signing
  pub second_opening : Opening
  pub second_identity : IdentityRead
  pub second_close : RsdSessionCleanup

unfoldable pub certificate_pressure : Preflight → Bool
certificate_pressure p =
    elim p.development_certificate_capacity [
      | none ↦ false
      | some capacity ↦ leb capacity p.development_certificate_count
    ]
    && not p.machine_certificate_present

unfoldable pub rsd_install_timeout : ExistingAppPolicy → ℕ
rsd_install_timeout refuse = 900
rsd_install_timeout upgrade = 3600

-- a failure, with what became of the sessions
abbrev pub failing : RsdInstallStage → Text → Bool → Option Text → RsdSessionCleanup → Outcome
failing stage kind pressure bundle_id left =
    (record_session_cleanup left (rsd_install_failure stage kind pressure bundle_id), [])

abbrev pub is_rsd_handshake : ReadOnlyProbeStage → Bool
is_rsd_handshake rsd_handshake = true
is_rsd_handshake _ = false

-- what is left of a session that was late to open
abbrev pub late_cleanup : ReadOnlyProbeStage → RsdSessionCleanup
late_cleanup stage =
    if is_rsd_handshake stage then RsdSessionCleanup.failed else RsdSessionCleanup.not_needed

-- a late opening of the first session, whose cleanup is recorded only where it failed
abbrev pub late_open : ReadOnlyProbeStage → Outcome
late_open stage =
    let report = rsd_install_failure (install_stage stage) (codes "timeout") false none in
    (
      (if is_rsd_handshake stage
          then record_session_cleanup RsdSessionCleanup.failed report
          else report),
      [],
    )

-- why the second identity is refused
abbrev pub second_identity_error : SigningDeviceIdentity → IdentityRead → Option Text
second_identity_error identity none = some (codes "timeout")
second_identity_error identity (some (err failure)) = some (identity_failure_kind failure)
second_identity_error identity (some (ok second)) =
    if same_device second identity then none else some (codes "identity_changed")

-- `execute` is the installation in the open session, with the bundle identifier, the pressure and the
-- deadline.
module _ (execute : Text → Bool → Instant → ExistingAppPolicy → Outcome) (run : Run)
    (start : Instant) (policy : ExistingAppPolicy) where
  abbrev pub closed : Outcome → Outcome
  closed (report, calls) = (
    record_session_cleanup (merge_session_cleanup run.first_close run.second_close) report,
    calls,
  )

  -- the part in the second session
  unfoldable pub install_opened : SigningDeviceIdentity → Bool → Text → Outcome
  unfolding rsd_install_failure record_session_cleanup merge_session_cleanup identity_failure_kind
  install_opened identity pressure bundle_id =
      elim (second_identity_error identity run.second_identity) [
        | some kind ↦
            failing RsdInstallStage.identity kind pressure (some bundle_id)
              (merge_session_cleanup run.first_close run.second_close)
        | none ↦ closed (execute bundle_id pressure (start + rsd_install_timeout policy) policy)
      ]

  unfoldable pub install_signed : SigningDeviceIdentity → Bool → Text → Opening → Outcome
  unfolding install_opened install_stage probe_install_stage
  install_signed identity pressure bundle_id opened = install_opened identity pressure bundle_id
  install_signed identity pressure bundle_id (not_opened stage left) =
      failing (probe_install_stage stage) (codes "session_open") pressure (some bundle_id)
        (merge_session_cleanup run.first_close left)
  install_signed identity pressure bundle_id (opening_late stage) =
      failing (install_stage stage) (codes "timeout") pressure (some bundle_id)
        (merge_session_cleanup run.first_close (late_cleanup stage))

  unfoldable pub install_identified : SigningDeviceIdentity → Signing → Outcome
  unfolding install_signed signing_error_kind certificate_pressure
  install_identified identity (preflight_error error) =
      failing RsdInstallStage.account_preflight (signing_error_kind error) false none
        run.first_close
  install_identified identity (signing_error error) =
      failing RsdInstallStage.signing (signing_error_kind error) false none run.first_close
  install_identified identity panicked =
      failing RsdInstallStage.signing (codes "local_task") false none run.first_close
  install_identified identity late =
      failing RsdInstallStage.signing (codes "timeout") false none run.first_close
  install_identified identity (signed preflight none) =
      failing RsdInstallStage.account_preflight (codes "device_registration_required")
        (certificate_pressure preflight) none run.first_close
  install_identified identity (signed preflight (some bundle_id)) =
      install_signed identity (certificate_pressure preflight) bundle_id run.second_opening

  unfoldable pub install_read : IdentityRead → Outcome
  unfolding install_identified
  install_read none = failing RsdInstallStage.identity (codes "timeout") false none run.first_close
  install_read (some (err failure)) =
      failing RsdInstallStage.identity (identity_failure_kind failure) false none run.first_close
  install_read (some (ok identity)) =
      if is_failed run.first_close
      then failing RsdInstallStage.session_cleanup (codes "session_cleanup") false none
          run.first_close
      else install_identified identity run.signing

  abbrev pub begun : Opening → Outcome
  begun opened = install_read run.first_identity
  begun (not_opened stage left) =
      failing (probe_install_stage stage) (codes "session_open") false none left
  begun (opening_late stage) = late_open stage

  unfoldable pub install_remote_pairing_app : Outcome
  unfolding install_read
  install_remote_pairing_app = begun run.first_opening
