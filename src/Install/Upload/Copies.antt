-- ===== src/Install/Upload/Copies.antt =====
-- What an upload that succeeds has put on the device.
use i_phone_loadly.Common.{
  ℕ, ◌≡◌, refl, sym, ap, subst, ◌∙◌, ◌+◌, Text, Bool, true, false, not, ==_iff, Option, none, some,
  List, [], ◌∷◌, ◌++◌, codes, length, ltb, Result, ok, err, ok-injective, &&-eq-true, text_eq_iff,
  if-intro,
}
use i_phone_loadly.Install.Upload.{
  Bytes, FileIdentity, UploadEntryKind, directory, file, UploadEntry, SignedBundleUploadPlan,
  Outside, Call, reports, closes, Traced, Progress, write_chunks, upload_progress_percent, risen,
  sent, stage_entry, stage_entries, stage_root, stage_signed_bundle, checked, closed, is_unchanged,
  and_then, fresh, begun, Staging, TaskStagingPath, is_same_directory, open_verified_upload_file,
}
use i_phone_loadly.Install.Upload.Replay.{Files, replay, replay-append}

-- The reads have become the content of the file that was opened last.
abbrev Written : Text → Files → Bytes → Traced Progress → Type 0
Written path files before r =
    (p : Progress) → r.0 ≡ ok p → replay r.1 ((path, before) ∷ files) ≡ (path, p.content) ∷ files

risen-replay :
    (total : ℕ) (chunk : Bytes) (p : Progress) (more : List Call) (files : Files)
    → replay (risen total chunk p ++ more) files ≡ replay more files
unfolding replay
risen-replay total chunk p more files =
    if-intro (λ calls. replay (calls ++ more) files ≡ replay more files)
      (ltb p.last_percent (upload_progress_percent (p.bytes_sent + length chunk) total)) (λ _. refl)
      (λ _. refl)

write_chunks-Written :
    (path : Text) (files : Files) (size total : ℕ) (takes : ℕ → Bool) (reads : List (Option Bytes))
    (turn : ℕ) (p : Progress)
    → Written path files p.content (write_chunks size total takes reads turn p)
unfolding write_chunks replay
write_chunks-Written path files size total takes [] turn p =
    λ q e. ap (λ r. (path, r.content) ∷ files) (ok-injective e)
write_chunks-Written path files size total takes (none ∷ reads) turn p = λ q e. absurd (cc e)
write_chunks-Written path files size total takes (some [] ∷ reads) turn p =
    λ q e. ap (λ r. (path, r.content) ∷ files) (ok-injective e)
write_chunks-Written path files size total takes (some (byte ∷ bytes) ∷ reads) turn p =
    let chunk = byte ∷ bytes in
    if-intro (Written path files p.content) (ltb size (length (p.content ++ chunk)))
      (λ _ q e. absurd (cc e))
      λ _.
        if-intro (Written path files p.content) (not (takes turn)) (λ _ q e. absurd (cc e))
          λ _ q e.
            risen-replay total chunk p _ _
            ∙ write_chunks-Written path files size total takes reads (turn + 1) (sent total chunk p)
                q e

-- What the upload of entries makes of the files of the device.
pub data Uploads (sha256 : Bytes → Bytes) (app : Text)
    : List UploadEntry → Files → Files → Type 0 where
  done : (files : Files) → Uploads sha256 app [] files files
  folder :
      (entry : UploadEntry) {entries : List UploadEntry} {files after : Files}
      (identity : FileIdentity)
      → entry.kind ≡ directory identity
      → Uploads sha256 app entries files after
      → Uploads sha256 app (entry ∷ entries) files after
  copy :
      (entry : UploadEntry) {entries : List UploadEntry} {files after : Files} (size : ℕ)
      (identity : FileIdentity) (digest content : Bytes)
      → entry.kind ≡ file size identity digest
      → length content ≡ size
      → sha256 content ≡ digest
      → Uploads sha256 app entries
          ((app ++ codes "/" ++ entry.remote_relative_path, content) ∷ files)
          after
      → Uploads sha256 app (entry ∷ entries) files after

is_unchanged_lem :
    (sha256 : Bytes → Bytes) (size : ℕ) (identity : FileIdentity) (digest : Bytes) (o : Outside)
    (p : Progress)
    → is_unchanged sha256 size identity digest o.final p ≡ true
    → (length p.content ≡ size) × (sha256 p.content ≡ digest)
is_unchanged_lem sha256 size identity digest o p h =
    let (first_two, same) = &&-eq-true _ _ h in
    (
      (==_iff (length p.content) size).0 (&&-eq-true _ _ first_two).0,
      (text_eq_iff (sha256 p.content) digest).0 same,
    )

-- The file of an entry, once it is copied.
pub copied-ok :
    (sha256 : Bytes → Bytes) (size : ℕ) (identity : FileIdentity) (digest : Bytes) (o : Outside)
    (result : Result Text Progress) (q : Progress)
    → closed o.closes_file (checked sha256 size identity digest o result) ≡ ok q
    → (result ≡ ok q) × (length q.content ≡ size) × (sha256 q.content ≡ digest)
copied-ok sha256 size identity digest o (err e) q = λ h. absurd (cc h)
copied-ok sha256 size identity digest o (ok p) q =
    if-intro (λ r. closed o.closes_file r ≡ ok q → Kept)
      (is_unchanged sha256 size identity digest o.final p) (λ e h. whole e o.closes_file h)
      (λ _ h. absurd (cc h))
  where
    Kept : Type 0
    Kept =
        (◌≡◌ {A = Result Text Progress} (ok p) (ok q))
        × (length q.content ≡ size)
        × (sha256 q.content ≡ digest)

    whole :
        is_unchanged sha256 size identity digest o.final p ≡ true
        → (b : Bool) → closed b (ok p) ≡ ok q
        → Kept
    whole e true h =
        let (n, d) = is_unchanged_lem sha256 size identity digest o p e in
        let same = ap Progress.content (ok-injective h) in
        (h, sym (ap length same) ∙ n, sym (ap sha256 same) ∙ d)
    whole e false h = absurd (cc h)

-- The outcome of the upload of one entry.
abbrev Uploaded : (Bytes → Bytes) → Text → UploadEntry → Files → Traced Progress → Type 0
Uploaded sha256 app entry files r =
    (q : Progress) (entries : List UploadEntry) (after : Files)
    → r.0 ≡ ok q
    → Uploads sha256 app entries (replay r.1 files) after
    → Uploads sha256 app (entry ∷ entries) files after

stage_entry-Uploaded :
    (sha256 : Bytes → Bytes) (app : Text) (total : ℕ) (entry : UploadEntry) (o : Outside)
    (p : Progress) (files : Files)
    → Uploaded sha256 app entry files (stage_entry sha256 app total entry o p)
unfolding stage_entry replay
stage_entry-Uploaded sha256 app total entry o p files = go entry.kind refl
  where
    with_kind : UploadEntryKind → UploadEntry
    with_kind kind = record entry { kind = kind }

    go :
        (kind : UploadEntryKind)
        → entry.kind ≡ kind
        → Uploaded sha256 app entry files
            (stage_entry sha256 app total (record entry { kind = kind }) o p)
    go (directory identity) k =
        if-intro (Uploaded sha256 app entry files) (not (is_same_directory identity o))
          (λ _ q _ _ e _. absurd (cc e))
          λ _.
            if-intro (Uploaded sha256 app entry files) o.makes
              (λ _ q _ _ e u. folder entry identity k u) (λ _ q _ _ e _. absurd (cc e))
    go (file size identity digest) k =
        if-intro (Uploaded sha256 app entry files) (not (open_verified_upload_file size identity o))
          (λ _ q _ _ e _. absurd (cc e))
          λ _.
            if-intro (Uploaded sha256 app entry files) (not o.opens_file)
              (λ _ q _ _ e _. absurd (cc e))
              (λ _ q entries after e u.
                let reads = write_chunks size total o.takes o.reads 0 (fresh p) in
                let (r, n, d) = copied-ok sha256 size identity digest o reads.0 q e in
                copy entry size identity digest q.content k n d (
                  subst (λ fs. Uploads sha256 app entries fs after)
                    (replay-append reads.1 (closes ∷ []) _
                      ∙ write_chunks-Written _ files size total o.takes o.reads 0 (fresh p) q r)
                    u))

and_then-ok :
    {A B : Type 0} (r : Traced A) (next : A → Traced B) (b : B)
    → (and_then r next).0 ≡ ok b
    → (a : A) × (r.0 ≡ ok a) × ((next a).0 ≡ ok b) × ((and_then r next).1 ≡ r.1 ++ (next a).1)
and_then-ok (err e, calls) next b h = absurd (cc h)
and_then-ok (ok a, calls) next b h = (a, refl, h, refl)

stage_entries-Uploads :
    (sha256 : Bytes → Bytes) (app : Text) (total : ℕ) (outside : UploadEntry → Outside)
    (entries : List UploadEntry) (p : Progress) (files : Files) (q : Progress)
    → (stage_entries sha256 app total outside entries p).0 ≡ ok q
    → Uploads sha256 app entries files
        (replay (stage_entries sha256 app total outside entries p).1 files)
unfolding stage_entries replay
stage_entries-Uploads sha256 app total outside [] p files q e = done files
stage_entries-Uploads sha256 app total outside (entry ∷ entries) p files q e =
    let turn = stage_entry sha256 app total entry (outside entry) p in
    let (a, first, rest, calls) =
      and_then-ok turn (stage_entries sha256 app total outside entries) q e in
    stage_entry-Uploaded sha256 app total entry (outside entry) p files a entries _ first (
      subst (Uploads sha256 app entries (replay turn.1 files))
        (sym (
          ap (λ cs. replay cs files) calls
          ∙ replay-append turn.1 (stage_entries sha256 app total outside entries a).1 files))
        (stage_entries-Uploads sha256 app total outside entries a (replay turn.1 files) q rest))

-- What holds of the outcome of the whole upload.
abbrev Staged :
    (Bytes → Bytes) → TaskStagingPath → SignedBundleUploadPlan → Traced Progress → Type 0
Staged sha256 staging plan r =
    (q : Progress) → r.0 ≡ ok q → Uploads sha256 staging.app plan.entries [] (replay r.1 [])

stage_root-Staged :
    (sha256 : Bytes → Bytes) (outside : UploadEntry → Outside) (s : Staging)
    (staging : TaskStagingPath) (plan : SignedBundleUploadPlan)
    → Staged sha256 staging plan (stage_root sha256 outside s staging plan)
unfolding stage_root replay
stage_root-Staged sha256 outside s staging plan =
    if-intro (Staged sha256 staging plan) (not s.makes_root) (λ _ q e. absurd (cc e))
      λ _.
        if-intro (Staged sha256 staging plan) (not s.makes_app) (λ _ q e. absurd (cc e))
          λ _ q e.
            let all = stage_entries sha256 staging.app plan.byte_count outside plan.entries begun in
            let (a, first, _, calls) = and_then-ok all (λ p. (ok p, reports 85 ∷ [])) q e in
            subst (Uploads sha256 staging.app plan.entries [])
              (sym (ap (λ cs. replay cs []) calls ∙ replay-append all.1 (reports 85 ∷ []) []))
              (stage_entries-Uploads sha256 staging.app plan.byte_count outside plan.entries begun
                [] a first)

-- After an upload that succeeds, whatever else may fail on the way, the calls have made on the device,
-- under the staging directory and in the order of the plan, for each planned file a file of the
-- planned size and SHA-256, and no other file.
pub stage_signed_bundle-Uploads :
    (sha256 : Bytes → Bytes) (outside : UploadEntry → Outside) (s : Staging)
    (staging : TaskStagingPath) (plan : SignedBundleUploadPlan) (q : Progress)
    → (stage_signed_bundle sha256 outside s staging plan).0.0 ≡ ok q
    → Uploads sha256 staging.app plan.entries []
        (replay (stage_signed_bundle sha256 outside s staging plan).0.1 [])
unfolding stage_signed_bundle replay
stage_signed_bundle-Uploads sha256 outside s staging plan q = go s.is_directory s.root_exists
  where
    at : Option Bool → Option Bool → Traced Progress
    at d x =
        (stage_signed_bundle sha256 outside (record s { is_directory = d; root_exists = x }) staging
          plan).0

    go :
        (d x : Option Bool)
        → (at d x).0 ≡ ok q
        → Uploads sha256 staging.app plan.entries [] (replay (at d x).1 [])
    go none x e = absurd (cc e)
    go (some false) x e = absurd (cc e)
    go (some true) none e = absurd (cc e)
    go (some true) (some true) e = absurd (cc e)
    go (some true) (some false) e =
        stage_root-Staged sha256 outside
          (record s { is_directory = some true; root_exists = some false }) staging plan q e
