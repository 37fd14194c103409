-- ===== src/Install/Pipeline/Proven.antt =====
-- What an installation over a remote pairing that is reported as a success has done.
use i_phone_loadly.Common.{
  ◌≡◌, refl, sym, ◌∙◌, ◌+◌, Text, Bool, true, false, ◌&&◌, count, Option, none, some, [], ok, err,
  if-intro, is_empty, codes,
}
use i_phone_loadly.Install.{RsdInstallOutcome, RsdInstallStage, RsdSessionCleanup, RsdInstallReport}
use i_phone_loadly.Install.Outcome.{
  Instant, is_failed, record_session_cleanup, rsd_install_failure, merge_session_cleanup,
}
use i_phone_loadly.Install.Identity.{SigningDeviceIdentity, identity_failure_kind, same_device}
use i_phone_loadly.Install.Upload.{
  Bytes, UploadEntry, Outside, Staging, TaskStagingPath, stage_signed_bundle,
}
use i_phone_loadly.Install.Execute.{
  Answers, ExistingAppPolicy, Outcome, verified, execute_rsd_first_install,
}
use i_phone_loadly.Install.Execute.Report.{is_install}
use i_phone_loadly.Install.Execute.Truth.{execute_rsd_first_install-IsTruthful}
use i_phone_loadly.Install.Pipeline.{
  Opening, opened, not_opened, opening_late, IdentityRead, Signing, signed, preflight_error,
  signing_error, panicked, late, Preflight, Run, rsd_install_timeout, failing,
  second_identity_error, closed, install_opened, install_signed, install_identified, install_read,
  install_remote_pairing_app, certificate_pressure, probe_install_stage, install_stage,
  late_cleanup, signing_error_kind, late_open, ReadOnlyProbeStage, is_rsd_handshake, begun,
}

-- An app that was installed: the device had the same identity in both sessions, the bundle was signed
-- for it, one command was sent, and the lookup after it found the app.
pub record IsProven (a : Answers) (run : Run) (deadline : Instant) (r : Outcome) : Type 0 where
  pub identity : SigningDeviceIdentity
  pub second : SigningDeviceIdentity
  pub preflight : Preflight
  pub bundle_id : Text
  pub identified : run.first_identity ≡ some (ok identity)
  pub identified_again : run.second_identity ≡ some (ok second)
  pub same : same_device second identity ≡ true
  pub was_signed : run.signing ≡ signed preflight (some bundle_id)
  pub named : r.0.bundle_id ≡ some bundle_id
  pub sent_once : count is_install r.1 ≡ 1
  pub found : verified a deadline ≡ some true

-- Success leads to the proof.
abbrev Proves : Answers → Run → Instant → Outcome → Type 0
Proves a run deadline r = r.0.outcome ≡ RsdInstallOutcome.installed → IsProven a run deadline r

record_session_cleanup-outcome :
    (left : RsdSessionCleanup) (report : RsdInstallReport)
    → (record_session_cleanup left report).outcome ≡ report.outcome
unfolding record_session_cleanup
record_session_cleanup-outcome left report =
    if-intro {A = RsdInstallReport} (λ r. r.outcome ≡ report.outcome)
      (is_failed left && is_empty report.error_kind) (λ _. refl) (λ _. refl)

record_session_cleanup-bundle_id :
    (left : RsdSessionCleanup) (report : RsdInstallReport)
    → (record_session_cleanup left report).bundle_id ≡ report.bundle_id
unfolding record_session_cleanup
record_session_cleanup-bundle_id left report =
    if-intro {A = RsdInstallReport} (λ r. r.bundle_id ≡ report.bundle_id)
      (is_failed left && is_empty report.error_kind) (λ _. refl) (λ _. refl)

failing-Proves :
    (a : Answers) (run : Run) (deadline : Instant) (at : RsdInstallStage) (kind : Text)
    (pressure : Bool) (bundle_id : Option Text) (left : RsdSessionCleanup)
    → Proves a run deadline (failing at kind pressure bundle_id left)
unfolding rsd_install_failure
failing-Proves a run deadline at kind pressure bundle_id left h = absurd (
    cc (
      rw (record_session_cleanup-outcome left (rsd_install_failure at kind pressure bundle_id)) at
        h))

module _ (is_uuid : Text → Bool) (staging : TaskStagingPath) (sha256 : Bytes → Bytes)
    (outside : UploadEntry → Outside) (s : Staging) (a : Answers) (run : Run) (start : Instant)
    (policy : ExistingAppPolicy) where
  -- the installation on the device
  abbrev pub execute : Text → Bool → Instant → ExistingAppPolicy → Outcome
  execute =
      execute_rsd_first_install is_uuid staging (stage_signed_bundle sha256 outside s staging) a

  abbrev deadline : Instant
  deadline = start + rsd_install_timeout policy

  abbrev Good : Outcome → Type 0
  Good = Proves a run deadline

  executed-Proves :
      (identity second : SigningDeviceIdentity) (preflight : Preflight) (bundle_id : Text)
      → run.first_identity ≡ some (ok identity)
      → run.second_identity ≡ some (ok second)
      → same_device second identity ≡ true
      → run.signing ≡ signed preflight (some bundle_id)
      → Good (
          closed execute run start policy
            (execute bundle_id (certificate_pressure preflight) deadline policy))
  executed-Proves identity second preflight bundle_id i j e g h =
      let r = execute bundle_id (certificate_pressure preflight) deadline policy in
      let left = merge_session_cleanup run.first_close run.second_close in
      let t =
        execute_rsd_first_install-IsTruthful is_uuid staging sha256 outside s a bundle_id
          (certificate_pressure preflight) deadline policy in
      let (one, found) = t.confirmed.0 (sym (record_session_cleanup-outcome left r.0) ∙ h) in
      record {
        identity = identity;
        second = second;
        preflight = preflight;
        bundle_id = bundle_id;
        identified = i;
        identified_again = j;
        same = e;
        was_signed = g;
        named = record_session_cleanup-bundle_id left r.0 ∙ t.named;
        sent_once = t.commands ∙ one;
        found = found;
      }

  install_opened-Proves :
      (identity : SigningDeviceIdentity) (preflight : Preflight) (bundle_id : Text)
      → run.first_identity ≡ some (ok identity)
      → run.signing ≡ signed preflight (some bundle_id)
      → Good (
          install_opened execute run start policy identity
            (certificate_pressure preflight)
            bundle_id)
  unfolding install_opened
  install_opened-Proves identity preflight bundle_id i g = go run.second_identity refl
    where
      last : Option Text → Outcome
      last o = elim o [
        | some kind ↦
            failing RsdInstallStage.identity kind (certificate_pressure preflight) (some bundle_id)
              (merge_session_cleanup run.first_close run.second_close)
        | none ↦
            closed execute run start policy
              (execute bundle_id (certificate_pressure preflight) deadline policy)
      ]

      refused : (kind : Text) → Good (last (some kind))
      refused kind =
          failing-Proves a run deadline RsdInstallStage.identity kind
            (certificate_pressure preflight) (some bundle_id)
            (merge_session_cleanup run.first_close run.second_close)

      go :
          (read : IdentityRead)
          → run.second_identity ≡ read
          → Good (last (second_identity_error identity read))
      go none j = refused (codes "timeout")
      go (some (err failure)) j = refused (identity_failure_kind failure)
      go (some (ok second)) j =
          if-intro (λ o. Good (last o)) (same_device second identity)
            (λ e. executed-Proves identity second preflight bundle_id i j e g)
            (λ _. refused (codes "identity_changed"))

  install_signed-Proves :
      (identity : SigningDeviceIdentity) (preflight : Preflight) (bundle_id : Text)
      (opening : Opening)
      → run.first_identity ≡ some (ok identity)
      → run.signing ≡ signed preflight (some bundle_id)
      → Good (
          install_signed execute run start policy identity
            (certificate_pressure preflight)
            bundle_id
            opening)
  unfolding install_signed
  install_signed-Proves identity preflight bundle_id opened i g =
      install_opened-Proves identity preflight bundle_id i g
  install_signed-Proves identity preflight bundle_id (not_opened stage left) i g =
      failing-Proves a run deadline (probe_install_stage stage) (codes "session_open")
        (certificate_pressure preflight) (some bundle_id)
        (merge_session_cleanup run.first_close left)
  install_signed-Proves identity preflight bundle_id (opening_late stage) i g =
      failing-Proves a run deadline (install_stage stage) (codes "timeout")
        (certificate_pressure preflight) (some bundle_id)
        (merge_session_cleanup run.first_close (late_cleanup stage))

  install_identified-Proves :
      (identity : SigningDeviceIdentity) (signing : Signing)
      → run.first_identity ≡ some (ok identity)
      → run.signing ≡ signing
      → Good (install_identified execute run start policy identity signing)
  unfolding install_identified
  install_identified-Proves identity (preflight_error error) i g =
      failing-Proves a run deadline RsdInstallStage.account_preflight (signing_error_kind error)
        false none run.first_close
  install_identified-Proves identity (signing_error error) i g =
      failing-Proves a run deadline RsdInstallStage.signing (signing_error_kind error) false none
        run.first_close
  install_identified-Proves identity panicked i g =
      failing-Proves a run deadline RsdInstallStage.signing (codes "local_task") false none
        run.first_close
  install_identified-Proves identity late i g =
      failing-Proves a run deadline RsdInstallStage.signing (codes "timeout") false none
        run.first_close
  install_identified-Proves identity (signed preflight none) i g =
      failing-Proves a run deadline RsdInstallStage.account_preflight
        (codes "device_registration_required") (certificate_pressure preflight) none run.first_close
  install_identified-Proves identity (signed preflight (some bundle_id)) i g =
      install_signed-Proves identity preflight bundle_id run.second_opening i g

  install_read-Proves :
      (read : IdentityRead)
      → run.first_identity ≡ read
      → Good (install_read execute run start policy read)
  unfolding install_read
  install_read-Proves none i =
      failing-Proves a run deadline RsdInstallStage.identity (codes "timeout") false none
        run.first_close
  install_read-Proves (some (err failure)) i =
      failing-Proves a run deadline RsdInstallStage.identity (identity_failure_kind failure) false
        none run.first_close
  install_read-Proves (some (ok identity)) i =
      if-intro Good (is_failed run.first_close)
        (λ _.
          failing-Proves a run deadline RsdInstallStage.session_cleanup (codes "session_cleanup")
            false none run.first_close)
        (λ _. install_identified-Proves identity run.signing i refl)

  late_open-Proves : (stage : ReadOnlyProbeStage) → Good (late_open stage)
  unfolding rsd_install_failure record_session_cleanup
  late_open-Proves stage =
      if-intro {A = RsdInstallReport} (λ r. Good (r, [])) (is_rsd_handshake stage)
        (λ _ h. absurd (cc h)) (λ _ h. absurd (cc h))

  -- An installation over a remote pairing that reports the app as installed has found the same device
  -- in both of its sessions, has signed the bundle that it names, has sent exactly one install command
  -- and has found the app on the device afterwards.
  pub install_remote_pairing_app-IsProven :
      (install_remote_pairing_app execute run start policy).0.outcome ≡ RsdInstallOutcome.installed
      → IsProven a run
          (start + rsd_install_timeout policy)
          (install_remote_pairing_app execute run start policy)
  unfolding install_remote_pairing_app
  install_remote_pairing_app-IsProven = go run.first_opening
    where
      go : (opening : Opening) → Good (begun execute run start policy opening)
      go opened = install_read-Proves run.first_identity refl
      go (not_opened stage left) =
          failing-Proves a run deadline (probe_install_stage stage) (codes "session_open") false
            none left
      go (opening_late stage) = late_open-Proves stage
