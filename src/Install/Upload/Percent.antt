-- ===== src/Install/Upload/Percent.antt =====
-- The progress that an upload reports.
use i_phone_loadly.Common.{
  ℕ, refl, sym, ap, ◌≤◌, Text, Bool, true, false, not, Option, none, some, List, [], ◌∷◌, ◌++◌,
  Result, ok, err, ok-injective, if-intro, arith, codes,
}
use i_phone_loadly.Install.Upload.Copies.{copied-ok}
use i_phone_loadly.Install.Upload.{
  Bytes, FileIdentity, UploadEntryKind, directory, file, UploadEntry, SignedBundleUploadPlan,
  Outside, Call, reports, creates, opens, closes, Traced, Progress, stage_entry, stage_entries,
  stage_root, stage_signed_bundle, copied, checked, closed, is_unchanged, and_then, fresh, begun,
  Staging, TaskStagingPath, is_same_directory, open_verified_upload_file,
}
use i_phone_loadly.Install.Upload.Rising.{
  IsNamed, Rises, nothing, report, other, Rises-append, bound-Rises, Climbs, refused, refused-after,
  after-Climbs, and_then-Climbs, write_chunks-Climbs,
}

copied-IsNamed :
    (sha256 : Bytes → Bytes) (size : ℕ) (identity : FileIdentity) (digest : Bytes) (o : Outside)
    (result : Result Text Progress)
    → IsNamed result
    → IsNamed (closed o.closes_file (checked sha256 size identity digest o result))
copied-IsNamed sha256 size identity digest o (err e) n = n
copied-IsNamed sha256 size identity digest o (ok p) n =
    if-intro (λ r. IsNamed (closed o.closes_file r))
      (is_unchanged sha256 size identity digest o.final p)
      (λ _. if-intro IsNamed o.closes_file (λ _. tt) (λ _. refl)) (λ _. refl)

copied-Climbs :
    (sha256 : Bytes → Bytes) (size : ℕ) (identity : FileIdentity) (digest : Bytes) (o : Outside)
    (low : ℕ) (r : Traced Progress)
    → Climbs low r
    → Climbs low (copied sha256 size identity digest o r)
copied-Climbs sha256 size identity digest o low (result, calls) (high, f, n, kept) = (
  high,
  Rises-append 85 low high high f (other high high closes refl (nothing high)),
  copied-IsNamed sha256 size identity digest o result n,
  λ q h. kept q (copied-ok sha256 size identity digest o result q h).0,
)

stage_entry-Climbs :
    (sha256 : Bytes → Bytes) (app : Text) (total : ℕ) (entry : UploadEntry) (o : Outside)
    (p : Progress)
    → Climbs p.last_percent (stage_entry sha256 app total entry o p)
unfolding stage_entry
stage_entry-Climbs sha256 app total entry o p = go entry.kind
  where
    low : ℕ
    low = p.last_percent

    path : Text
    path = app ++ codes "/" ++ entry.remote_relative_path

    go :
        (kind : UploadEntryKind)
        → Climbs low (stage_entry sha256 app total (record entry { kind = kind }) o p)
    go (directory identity) =
        if-intro (Climbs low) (not (is_same_directory identity o))
          (λ _. refused low (codes "source_changed") refl)
          λ _.
            if-intro (Climbs low) o.makes
              (λ _. (
                low,
                other low low (creates path) refl (nothing low),
                tt,
                λ q h. ap Progress.last_percent (sym (ok-injective h)),
              ))
              (λ _. refused-after low (codes "staging_directory_create") (creates path) refl refl)
    go (file size identity digest) =
        if-intro (Climbs low) (not (open_verified_upload_file size identity o))
          (λ _. refused low (codes "source_changed") refl)
          λ _.
            if-intro (Climbs low) (not o.opens_file)
              (λ _. refused-after low (codes "staging_file_open") (opens path) refl refl)
              (λ _.
                after-Climbs low low (opens path ∷ []) _
                  (other low low (opens path) refl (nothing low))
                  (copied-Climbs sha256 size identity digest o low _
                    (write_chunks-Climbs size total o.takes o.reads 0 (fresh p))))

stage_entries-Climbs :
    (sha256 : Bytes → Bytes) (app : Text) (total : ℕ) (outside : UploadEntry → Outside)
    (entries : List UploadEntry) (p : Progress)
    → Climbs p.last_percent (stage_entries sha256 app total outside entries p)
unfolding stage_entries
stage_entries-Climbs sha256 app total outside [] p = (
  p.last_percent,
  nothing p.last_percent,
  tt,
  λ q h. ap Progress.last_percent (sym (ok-injective h)),
)
stage_entries-Climbs sha256 app total outside (entry ∷ entries) p =
    and_then-Climbs p.last_percent (stage_entry sha256 app total entry (outside entry) p)
      (stage_entries sha256 app total outside entries)
      (stage_entry-Climbs sha256 app total entry (outside entry) p)
      (stage_entries-Climbs sha256 app total outside entries)

-- The reports of a result, whatever it keeps.
abbrev pub Climbing : ℕ → Traced Progress → Type 0
Climbing low r = (high : ℕ) × Rises 85 low r.1 high × IsNamed r.0

finished-Climbing :
    (low : ℕ) (r : Traced Progress)
    → low ≤ 85
    → Climbs low r
    → Climbing low (and_then r (λ p. (ok p, reports 85 ∷ [])))
finished-Climbing low (err e, calls) b (high, f, n, _) = (high, f, n)
finished-Climbing low (ok p, calls) b (high, f, _, _) = (
  85,
  Rises-append 85 low high 85 f
      (report high 85 85 (bound-Rises 85 low high b f) (omega arith) (nothing 85)),
  tt,
)

stage_root-Climbing :
    (sha256 : Bytes → Bytes) (outside : UploadEntry → Outside) (s : Staging)
    (staging : TaskStagingPath) (plan : SignedBundleUploadPlan)
    → Climbing 40 (stage_root sha256 outside s staging plan)
unfolding stage_root
stage_root-Climbing sha256 outside s staging plan =
    if-intro Shown (not s.makes_root) (λ _. (40, root (nothing 40), refl))
      λ _.
        if-intro Shown (not s.makes_app) (λ _. (40, root (app (nothing 40)), refl))
          λ _.
            let (high, f, n) =
              finished-Climbing 40
                (stage_entries sha256 staging.app plan.byte_count outside plan.entries begun)
                (omega arith)
                (stage_entries-Climbs sha256 staging.app plan.byte_count outside plan.entries
                  begun) in
            (high, root (app f), n)
  where
    Shown : Traced Progress → Type 0
    Shown r = Climbing 40 r

    root :
        {calls : List Call} {high : ℕ}
        → Rises 85 40 calls high
        → Rises 85 40 (creates staging.root ∷ calls) high
    root f = other _ _ (creates staging.root) refl f

    app :
        {calls : List Call} {high : ℕ}
        → Rises 85 40 calls high
        → Rises 85 40 (creates staging.app ∷ calls) high
    app f = other _ _ (creates staging.app) refl f

-- The percents that an upload reports, whether it succeeds or fails and where, never go back, and lie
-- between 40 and 85; it sends no install command, and the kind of a failure is not empty.
pub stage_signed_bundle-Climbing :
    (sha256 : Bytes → Bytes) (outside : UploadEntry → Outside) (s : Staging)
    (staging : TaskStagingPath) (plan : SignedBundleUploadPlan)
    → Climbing 40 (stage_signed_bundle sha256 outside s staging plan).0
unfolding stage_signed_bundle
stage_signed_bundle-Climbing sha256 outside s staging plan = go s.is_directory s.root_exists
  where
    at : Option Bool → Option Bool → Traced Progress
    at d x =
        (stage_signed_bundle sha256 outside (record s { is_directory = d; root_exists = x }) staging
          plan).0

    first :
        {calls : List Call} {high : ℕ}
        → Rises 85 40 calls high
        → Rises 85 40 (reports 40 ∷ calls) high
    first f = report 40 40 _ (omega arith) (omega arith) f

    go : (d x : Option Bool) → Climbing 40 (at d x)
    go none x = (40, first (nothing 40), refl)
    go (some false) x = (40, first (nothing 40), refl)
    go (some true) none = (40, first (nothing 40), refl)
    go (some true) (some true) = (40, first (nothing 40), refl)
    go (some true) (some false) =
        let (high, f, n) =
          stage_root-Climbing sha256 outside
            (record s { is_directory = some true; root_exists = some false }) staging plan in
        (high, first f, n)
