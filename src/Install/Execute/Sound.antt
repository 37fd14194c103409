-- ===== src/Install/Execute/Sound.antt =====
-- What the report of an installation is to say of the calls of the device, and its ends.
use i_phone_loadly.Common.{
  ◌≡◌, ◌≢◌, ◌↔◌, ◌≤◌, refl, sym, subst, ◌∙◌, Text, Bool, true, false, ◌&&◌, ◌||◌, any, any-append,
  count, count-append, count-any, Option, none, some, List, ◌++◌, Result, ok, err, if-intro, arith,
  is_empty,
}
use i_phone_loadly.Install.{RsdInstallOutcome, RsdStagingCleanup, RsdInstallReport}
use i_phone_loadly.Install.Outcome.{
  Instant, InstallCommandFailure, definitive, possibly_accepted, outcome_after_install_result,
  outcome_after_install_failure, install_error_kind,
}
use i_phone_loadly.Install.Upload.{Call, TaskStagingPath}
use i_phone_loadly.Install.Execute.{
  Answers, UploadPlanFailure, source_not_directory, source_symlink, unsupported_file_type,
  non_unicode_path, unsafe_path, too_many_entries, too_many_bytes, local_io, timeout,
  plan_failure_kind, is_create, is_failed_cleanup, clean_exact_task_staging, stopped, concluded,
  verified, Outcome,
}
use i_phone_loadly.Install.Execute.Report.{is_install, IsQuiet, clean-IsSwept}

-- Whether the app is on the device, as far as the lookup after the command tells.
abbrev pub IsConfirmed : Answers → Instant → RsdInstallReport → Type 0
IsConfirmed a deadline report =
    (report.outcome ≡ RsdInstallOutcome.installed)
    ↔ ((report.install_command_count ≡ 1) × (verified a deadline ≡ some true))

-- A report against the calls of the device.
pub record IsTruthful (a : Answers) (bundle_id : Text) (deadline : Instant) (r : Outcome)
    : Type 0 where
  pub commands : count is_install r.1 ≡ r.0.install_command_count
  pub at_most_once : r.0.install_command_count ≤ 1
  pub confirmed : IsConfirmed a deadline r.0
  pub named : r.0.bundle_id ≡ some bundle_id
  pub complete :
      is_empty r.0.error_kind ≡ true
      → (r.0.outcome ≡ RsdInstallOutcome.installed) × (is_failed_cleanup r.0.cleanup ≡ false)
  pub swept : any is_create r.1 ≡ true → r.0.cleanup ≢ RsdStagingCleanup.not_needed

-- What is needed of a report and its calls before the cleaning.
pub record IsReady (a : Answers) (bundle_id : Text) (deadline : Instant) (root_created : Bool)
    (calls : List Call) (report : RsdInstallReport) : Type 0 where
  pub commands : count is_install calls ≡ report.install_command_count
  pub at_most_once : report.install_command_count ≤ 1
  pub confirmed : IsConfirmed a deadline report
  pub named : report.bundle_id ≡ some bundle_id
  pub complete : is_empty report.error_kind ≡ true → report.outcome ≡ RsdInstallOutcome.installed
  pub flagged : any is_create calls ≡ true → root_created ≡ true

pub ||-false : (b : Bool) → b || false ≡ b
||-false true = refl
||-false false = refl

module _ (is_uuid : Text → Bool) (a : Answers) (staging : TaskStagingPath) (bundle_id : Text)
    (deadline : Instant) where
  cleaned_count :
      (root_created : Bool) (calls : List Call)
      → count is_install (calls ++ (clean_exact_task_staging is_uuid a staging root_created).1)
        ≡ count is_install calls
  cleaned_count root_created calls =
      let swept = clean-IsSwept is_uuid a staging root_created in
      let split =
        count-append is_install calls (clean_exact_task_staging is_uuid a staging root_created).1 in
      omega (arith, swept.no_install)

  cleaned_created :
      (root_created : Bool) (calls : List Call)
      → any is_create (calls ++ (clean_exact_task_staging is_uuid a staging root_created).1)
        ≡ any is_create calls
  cleaned_created root_created calls =
      any-append is_create calls (clean_exact_task_staging is_uuid a staging root_created).1
      ∙ rw (clean-IsSwept is_uuid a staging root_created).no_create (||-false (any is_create calls))

  pub concluded-IsTruthful :
      (root_created : Bool) (calls : List Call) (report : RsdInstallReport)
      → IsReady a bundle_id deadline root_created calls report
      → IsTruthful a bundle_id deadline (concluded is_uuid a staging root_created calls report)
  concluded-IsTruthful root_created calls report k =
      if-intro (λ r. IsTruthful a bundle_id deadline (r, calls ++ cleaning.1))
        (is_failed_cleanup cleaning.0 && is_empty report.error_kind)
        (λ e. record {
          commands = cleaned_count root_created calls ∙ k.commands;
          at_most_once = k.at_most_once;
          confirmed = k.confirmed;
          named = k.named;
          complete = λ h. absurd (cc h);
          swept = swept;
        })
        (λ e. record {
          commands = cleaned_count root_created calls ∙ k.commands;
          at_most_once = k.at_most_once;
          confirmed = k.confirmed;
          named = k.named;
          complete = λ h. (
            k.complete h,
            free (is_failed_cleanup cleaning.0)
                (subst (λ b. (is_failed_cleanup cleaning.0 && b) ≡ false) h e),
          );
          swept = swept;
        })
    where
      cleaning : RsdStagingCleanup × List Call
      cleaning = clean_exact_task_staging is_uuid a staging root_created

      swept : any is_create (calls ++ cleaning.1) ≡ true → cleaning.0 ≢ RsdStagingCleanup.not_needed
      swept h =
          (clean-IsSwept is_uuid a staging root_created).done
            (k.flagged (sym (cleaned_created root_created calls) ∙ h))

      free : (b : Bool) → (b && true) ≡ false → b ≡ false
      free true h = cc
      free false h = refl

  -- no command and an error
  pub none-IsConfirmed :
      (report : RsdInstallReport)
      → report.install_command_count ≡ 0
      → report.outcome ≢ RsdInstallOutcome.installed
      → IsConfirmed a deadline report
  none-IsConfirmed report zero_sent b = (λ h. absurd (b h), λ (one, _). absurd (omega arith))

  pub stopped-IsTruthful :
      (root_created : Bool) (calls : List Call) (report : RsdInstallReport)
      → IsQuiet root_created calls
      → report.install_command_count ≡ 0
      → report.bundle_id ≡ some bundle_id
      → is_empty report.error_kind ≡ false
      → IsTruthful a bundle_id deadline (stopped is_uuid a staging root_created calls report)
  stopped-IsTruthful root_created calls report q n b e = record {
    commands = cleaned_count root_created calls ∙ count-any is_install calls q.no_command ∙ sym n;
    at_most_once = omega arith;
    confirmed =
        none-IsConfirmed (stopped is_uuid a staging root_created calls report).0 n (λ h. cc);
    named = b;
    complete = λ h. absurd (cc (rw e at h));
    swept = λ h.
        (clean-IsSwept is_uuid a staging root_created).done
          (q.flagged (sym (cleaned_created root_created calls) ∙ h));
  }

pub outcome_iff :
    (command : Result InstallCommandFailure Unit) (lookup : Option Bool)
    → (outcome_after_install_result command lookup ≡ RsdInstallOutcome.installed)
      ↔ (lookup ≡ some true)
unfolding outcome_after_install_result outcome_after_install_failure
outcome_iff (ok _) (some true) = (λ _. refl, λ _. refl)
outcome_iff (ok _) (some false) = (λ h. absurd (cc h), λ h. absurd (cc h))
outcome_iff (ok _) none = (λ h. absurd (cc h), λ h. absurd (cc h))
outcome_iff (err _) (some true) = (λ _. refl, λ _. refl)
outcome_iff (err definitive) (some false) = (λ h. absurd (cc h), λ h. absurd (cc h))
outcome_iff (err possibly_accepted) (some false) = (λ h. absurd (cc h), λ h. absurd (cc h))
outcome_iff (err definitive) none = (λ h. absurd (cc h), λ h. absurd (cc h))
outcome_iff (err possibly_accepted) none = (λ h. absurd (cc h), λ h. absurd (cc h))

pub install_error_kind-empty :
    (command : Result InstallCommandFailure Unit) (outcome : RsdInstallOutcome)
    → is_empty (install_error_kind command outcome) ≡ true
    → outcome ≡ RsdInstallOutcome.installed
unfolding install_error_kind
install_error_kind-empty command RsdInstallOutcome.installed h = refl
install_error_kind-empty (ok _) RsdInstallOutcome.not_installed h = absurd (cc h)
install_error_kind-empty (err _) RsdInstallOutcome.not_installed h = absurd (cc h)
install_error_kind-empty (ok _) RsdInstallOutcome.outcome_unknown h = absurd (cc h)
install_error_kind-empty (err _) RsdInstallOutcome.outcome_unknown h = absurd (cc h)
install_error_kind-empty (ok _) RsdInstallOutcome.not_started h = absurd (cc h)
install_error_kind-empty (err _) RsdInstallOutcome.not_started h = absurd (cc h)

pub plan_failure_kind-named : (why : UploadPlanFailure) → is_empty (plan_failure_kind why) ≡ false
unfolding plan_failure_kind
plan_failure_kind-named source_not_directory = refl
plan_failure_kind-named source_symlink = refl
plan_failure_kind-named unsupported_file_type = refl
plan_failure_kind-named non_unicode_path = refl
plan_failure_kind-named unsafe_path = refl
plan_failure_kind-named too_many_entries = refl
plan_failure_kind-named too_many_bytes = refl
plan_failure_kind-named local_io = refl
plan_failure_kind-named timeout = refl
