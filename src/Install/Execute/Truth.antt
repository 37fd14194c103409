-- ===== src/Install/Execute/Truth.antt =====
-- What the report of an installation says of the calls of the device.
use i_phone_loadly.Common.{
  ◌≡◌, refl, sym, ap, ◌∙◌, ◌+◌, Text, Bool, true, false, not, any, any-append, count, count-append,
  count-any, Option, none, some, List, [], ◌∷◌, ◌++◌, leb, take, ok, err, if-intro, arith, is_empty,
  codes,
}
use i_phone_loadly.Install.{RsdInstallOutcome, RsdInstallStage, RsdInstallReport}
use i_phone_loadly.Install.Outcome.{Instant, rsd_install_failure, install_deadline}
use i_phone_loadly.Install.Upload.{
  Bytes, UploadEntry, Outside, Staging, SignedBundleUploadPlan, Call, reports, installs,
  TaskStagingPath, Traced, Progress, stage_signed_bundle,
}
use i_phone_loadly.Install.Upload.Rising.{IsNamed}
use i_phone_loadly.Install.Execute.{
  Answers, ExistingAppPolicy, refuse, upgrade, Planning, planned, failed, panicked, late, Upload,
  ended, cut_off, plan_failure_kind, is_create, verified, command_report, install_staged,
  not_staged, upload_planned, install_planned, looked_up, execute_rsd_first_install, Outcome,
}
use i_phone_loadly.Install.Execute.Report.{
  is_install, IsQuiet, stage_signed_bundle-IsQuiet, IsQuiet-take,
}
use i_phone_loadly.Install.Execute.Sound.{
  IsTruthful, IsReady, concluded-IsTruthful, none-IsConfirmed, stopped-IsTruthful, outcome_iff,
  install_error_kind-empty, plan_failure_kind-named, ||-false,
}

module _ (is_uuid : Text → Bool) (staging : TaskStagingPath) (sha256 : Bytes → Bytes)
    (outside : UploadEntry → Outside) (s : Staging) (a : Answers) (bundle_id : Text)
    (pressure : Bool) (deadline : Instant) where
  abbrev stage : SignedBundleUploadPlan → Traced Progress × Bool
  stage plan = stage_signed_bundle sha256 outside s staging plan

  abbrev Truthful : Outcome → Type 0
  Truthful = IsTruthful a bundle_id deadline

  -- an end before the upload
  early-IsTruthful :
      (at : RsdInstallStage) (kind : Text)
      → is_empty kind ≡ false
      → Truthful (rsd_install_failure at kind pressure (some bundle_id), [])
  unfolding rsd_install_failure count
  early-IsTruthful at kind e = record {
    commands = refl;
    at_most_once = omega arith;
    confirmed =
        none-IsConfirmed is_uuid a staging bundle_id deadline
          (rsd_install_failure at kind pressure (some bundle_id)) refl (λ h. cc);
    named = refl;
    complete = λ h. absurd (cc (rw e at h));
    swept = λ h. absurd (cc h);
  }

  install_staged-IsTruthful :
      (root_created : Bool) (calls : List Call)
      → IsQuiet root_created calls
      → Truthful
          (install_staged is_uuid staging stage a bundle_id pressure deadline root_created calls)
  unfolding install_staged rsd_install_failure count
  install_staged-IsTruthful root_created calls q =
      if-intro Truthful (leb (install_deadline deadline a.window_start) a.now)
        (λ _.
          stopped-IsTruthful is_uuid a staging bundle_id deadline root_created calls
            (rsd_install_failure RsdInstallStage.install (codes "timeout") pressure
              (some bundle_id))
            q refl refl refl)
        λ _.
          if-intro Truthful (not a.has_install_client)
            (λ _.
              stopped-IsTruthful is_uuid a staging bundle_id deadline root_created calls
                (rsd_install_failure RsdInstallStage.install (codes "installation_proxy") pressure
                  (some bundle_id))
                q refl refl refl)
            (λ _. concluded-IsTruthful is_uuid a staging bundle_id deadline root_created _ _ sent)
    where
      sending : List Call
      sending = reports 90 ∷ installs staging.app ∷ reports 95 ∷ []

      counted : count is_install (calls ++ sending) ≡ 1
      counted =
          count-append is_install calls sending
          ∙ ap (λ n. n + count is_install sending) (count-any is_install calls q.no_command)

      created : any is_create (calls ++ sending) ≡ any is_create calls
      created = any-append is_create calls sending ∙ ||-false (any is_create calls)

      sent :
          IsReady a bundle_id deadline root_created
            (calls ++ sending)
            (command_report a bundle_id pressure deadline)
      sent = record {
        commands = counted;
        at_most_once = omega arith;
        confirmed = (
          λ h. (refl, (outcome_iff a.command (verified a deadline)).0 h),
          λ (_, h). (outcome_iff a.command (verified a deadline)).1 h,
        );
        named = refl;
        complete = λ h. install_error_kind-empty a.command _ h;
        flagged = λ h. q.flagged (sym created ∙ h);
      }

  abbrev unsent : Text → RsdInstallReport
  unsent kind =
      record (rsd_install_failure RsdInstallStage.staging kind pressure (some bundle_id)) {
        outcome = RsdInstallOutcome.not_installed;
      }

  not_staged-IsTruthful :
      (kind : Text) (root_created : Bool) (calls : List Call)
      → is_empty kind ≡ false
      → IsQuiet root_created calls
      → Truthful
          (not_staged is_uuid staging stage a bundle_id pressure deadline kind root_created calls)
  unfolding rsd_install_failure
  not_staged-IsTruthful kind root_created calls e q =
      concluded-IsTruthful is_uuid a staging bundle_id deadline root_created calls (unsent kind)
        (record {
          commands = count-any is_install calls q.no_command;
          at_most_once = omega arith;
          confirmed =
              none-IsConfirmed is_uuid a staging bundle_id deadline (unsent kind) refl (λ h. cc);
          named = refl;
          complete = λ h. absurd (cc (rw e at h));
          flagged = q.flagged;
        })

  upload_planned-IsTruthful :
      (upload : Upload) (r : Traced Progress × Bool)
      → IsQuiet r.1 r.0.1
      → IsNamed r.0.0
      → Truthful (upload_planned is_uuid staging stage a bundle_id pressure deadline upload r)
  unfolding upload_planned
  upload_planned-IsTruthful (cut_off made is_set) ((result, calls), root_created) q n =
      not_staged-IsTruthful (codes "timeout") _ (take made calls) refl
        (IsQuiet-take root_created is_set made calls q)
  upload_planned-IsTruthful ended ((err kind, calls), root_created) q n =
      not_staged-IsTruthful kind root_created calls n q
  upload_planned-IsTruthful ended ((ok _, calls), root_created) q n =
      install_staged-IsTruthful root_created calls q

  install_planned-IsTruthful :
      (planning : Planning)
      → Truthful (install_planned is_uuid staging stage a bundle_id pressure deadline planning)
  unfolding install_planned
  install_planned-IsTruthful (failed why) =
      early-IsTruthful RsdInstallStage.staging (plan_failure_kind why) (plan_failure_kind-named why)
  install_planned-IsTruthful panicked =
      early-IsTruthful RsdInstallStage.staging (codes "local_task") refl
  install_planned-IsTruthful late = early-IsTruthful RsdInstallStage.staging (codes "timeout") refl
  install_planned-IsTruthful (planned plan) =
      if-intro Truthful (not a.has_afc)
        (λ _. early-IsTruthful RsdInstallStage.staging (codes "afc_service") refl)
        (λ _.
          let (quiet, named) = stage_signed_bundle-IsQuiet sha256 outside s staging plan in
          upload_planned-IsTruthful a.upload (stage plan) quiet named)

  looked_up-IsTruthful :
      (lookup : Option Bool)
      → Truthful (looked_up is_uuid staging stage a bundle_id pressure deadline lookup)
  looked_up-IsTruthful (some true) =
      early-IsTruthful RsdInstallStage.already_installed (codes "app_already_installed") refl
  looked_up-IsTruthful (some false) = install_planned-IsTruthful a.planning
  looked_up-IsTruthful none =
      early-IsTruthful RsdInstallStage.already_installed (codes "installed_app_lookup") refl

  -- Whatever the device answers, the report of an installation counts the install commands that were
  -- sent, at most one; it says that the app is installed exactly where a command was sent and the
  -- lookup after it found the app; it names the bundle; it has no error only where the app is
  -- installed and the staging directory was not left behind; and it says that no cleaning was needed
  -- only where no directory was created on the device.
  pub execute_rsd_first_install-IsTruthful :
      (policy : ExistingAppPolicy)
      → IsTruthful a bundle_id deadline (
          execute_rsd_first_install is_uuid staging
            (stage_signed_bundle sha256 outside s staging)
            a
            bundle_id
            pressure
            deadline
            policy)
  unfolding execute_rsd_first_install
  execute_rsd_first_install-IsTruthful upgrade = install_planned-IsTruthful a.planning
  execute_rsd_first_install-IsTruthful refuse =
      if-intro Truthful (not a.has_lookup_client)
        (λ _. early-IsTruthful RsdInstallStage.already_installed (codes "installation_proxy") refl)
        (λ _. looked_up-IsTruthful a.lookup_before)
