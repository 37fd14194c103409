-- ===== src/Install/Execute/Report.antt =====
-- The calls of an installation before and after the install command.
use i_phone_loadly.Common.{
  ℕ, ◌≡◌, ◌≢◌, refl, Text, Bool, true, false, not, ◌&&◌, ◌||◌, any, take, any-take, count, Option,
  none, some, List, [], ◌∷◌, Bool-cases, inl, inr, if-intro,
}
use i_phone_loadly.Install.{RsdStagingCleanup}
use i_phone_loadly.Install.Upload.{
  Bytes, UploadEntry, Outside, Staging, SignedBundleUploadPlan, Call, reports, creates, opens,
  writes, closes, installs, removes, TaskStagingPath, Traced, Progress, stage_signed_bundle,
}
use i_phone_loadly.Install.Upload.Rising.{Rises, nothing, report, other, is_plain, IsNamed}
use i_phone_loadly.Install.Upload.Percent.{stage_signed_bundle-Climbing}
use i_phone_loadly.Install.Execute.{
  Answers, is_create, clean_exact_task_staging, removal_cleanup, is_exact_task_root, Removal,
  removed, not_found, not_removed,
}

abbrev pub is_install : Call → Bool
is_install (installs _) = true
is_install _ = false

plain-is_install : (call : Call) → is_plain call ≡ true → is_install call ≡ false
plain-is_install (reports n) h = refl
plain-is_install (creates path) h = refl
plain-is_install (opens path) h = refl
plain-is_install (writes bytes) h = refl
plain-is_install closes h = refl
plain-is_install (installs path) h = cc
plain-is_install (removes path) h = refl

Rises-is_install :
    (cap low high : ℕ) {calls : List Call} → Rises cap low calls high → any is_install calls ≡ false
Rises-is_install cap low high (nothing _) = refl
Rises-is_install cap low high (report _ n _ a b f) = Rises-is_install cap n high f
Rises-is_install cap low high (other _ _ call h f) =
    rw (plain-is_install call h) (Rises-is_install cap low high f)

-- No command, and no directory on the device that the flag does not tell of.
pub record IsQuiet (root_created : Bool) (calls : List Call) : Type 0 where
  pub no_command : any is_install calls ≡ false
  pub flagged : any is_create calls ≡ true → root_created ≡ true

-- The upload of a bundle in full.
pub stage_signed_bundle-IsQuiet :
    (sha256 : Bytes → Bytes) (outside : UploadEntry → Outside) (s : Staging)
    (staging : TaskStagingPath) (plan : SignedBundleUploadPlan)
    → let r = stage_signed_bundle sha256 outside s staging plan in IsQuiet r.1 r.0.1 × IsNamed r.0.0
unfolding stage_signed_bundle
stage_signed_bundle-IsQuiet sha256 outside s staging plan =
    let (high, f, named) = stage_signed_bundle-Climbing sha256 outside s staging plan in
    (
      record {
        no_command = Rises-is_install 85 40 high f;
        flagged = flagged s.is_directory s.root_exists;
      },
      named,
    )
  where
    at : Option Bool → Option Bool → Traced Progress × Bool
    at d x =
        stage_signed_bundle sha256 outside (record s { is_directory = d; root_exists = x }) staging
          plan

    flagged : (d x : Option Bool) → any is_create (at d x).0.1 ≡ true → (at d x).1 ≡ true
    flagged none x h = absurd (cc h)
    flagged (some false) x h = absurd (cc h)
    flagged (some true) none h = absurd (cc h)
    flagged (some true) (some true) h = absurd (cc h)
    flagged (some true) (some false) h = refl

-- An upload that is cut off.
pub IsQuiet-take :
    (root_created is_set : Bool) (made : ℕ) (calls : List Call)
    → IsQuiet root_created calls
    → IsQuiet (root_created && (is_set || any is_create (take made calls))) (take made calls)
IsQuiet-take root_created is_set made calls q = record {
  no_command = any-take is_install made calls q.no_command;
  flagged = λ h. elim (Bool-cases root_created) [
    | inl e ↦ rw (e, h) (or_true is_set)
    | inr e ↦ absurd (
        created
          (elim (Bool-cases (any is_create calls)) [
            | inl k ↦ absurd (cc (rw (q.flagged k) at e))
            | inr k ↦ any-take is_create made calls k
          ])
          h)
  ];
}
  where
    or_true : (b : Bool) → (true && (b || true)) ≡ true
    or_true true = refl
    or_true false = refl

    created : any is_create (take made calls) ≡ false → any is_create (take made calls) ≡ true → ⊥
    created e h = cc

module _ (is_uuid : Text → Bool) (a : Answers) (staging : TaskStagingPath) where
  -- What the cleaning does.
  pub record IsSwept (root_created : Bool) (r : RsdStagingCleanup × List Call) : Type 0 where
    pub no_install : count is_install r.1 ≡ 0
    pub no_create : any is_create r.1 ≡ false
    pub done : root_created ≡ true → r.0 ≢ RsdStagingCleanup.not_needed

  removal-IsSwept :
      (root_created : Bool) (removal : Removal)
      → IsSwept root_created (removal_cleanup removal, removes staging.root ∷ [])
  unfolding count
  removal-IsSwept root_created removed = record {
    no_install = refl;
    no_create = refl;
    done = λ _ e. cc;
  }
  removal-IsSwept root_created not_found = record {
    no_install = refl;
    no_create = refl;
    done = λ _ e. cc;
  }
  removal-IsSwept root_created not_removed = record {
    no_install = refl;
    no_create = refl;
    done = λ _ e. cc;
  }

  pub clean-IsSwept :
      (root_created : Bool)
      → IsSwept root_created (clean_exact_task_staging is_uuid a staging root_created)
  unfolding clean_exact_task_staging count
  clean-IsSwept root_created =
      if-intro (IsSwept root_created) (not root_created)
        (λ e. record { no_install = refl; no_create = refl; done = λ h. absurd (cc (rw h at e)) })
        λ _.
          if-intro (IsSwept root_created) (not (is_exact_task_root is_uuid staging staging.root))
            (λ _. record { no_install = refl; no_create = refl; done = λ _ e. cc })
            λ _.
              if-intro (IsSwept root_created) (not a.has_cleaning_client)
                (λ _. record { no_install = refl; no_create = refl; done = λ _ e. cc })
                (λ _. removal-IsSwept root_created a.removal)
