-- ===== src/Install/Upload.antt =====
-- The upload of a signed bundle to the staging directory of a device: `stage_signed_bundle` of
-- wireless_pairing.rs with what it calls. What the file system and the device answer and SHA-256 are
-- arguments; the calls of the device and the progress that is reported are a list.
pub mod Replay
pub mod Copies
pub mod Rising
pub mod Percent
pub mod Tests
use i_phone_loadly.Common.{
  ℕ, ◌+◌, ◌*◌, ◌/◌, Text, Bool, true, false, not, ◌&&◌, ◌||◌, ◌==◌, Option, none, some, List, [],
  ◌∷◌, ◌++◌, codes, length, ltb, leb, text_eq, Result, ok, err, if◌then◌else◌,
}

abbrev pub Bytes : Type 0
Bytes = List ℕ

pub record FileIdentity : Type 0 where
  pub volume : ℕ
  pub file : ℕ
  pub version : ℕ

abbrev same_identity : FileIdentity → FileIdentity → Bool
same_identity a b = a.volume == b.volume && a.file == b.file && a.version == b.version

pub data UploadEntryKind : Type 0 where
  directory : FileIdentity → UploadEntryKind
  file : (size : ℕ) (identity : FileIdentity) (digest : Bytes) → UploadEntryKind

pub record UploadEntry : Type 0 where
  pub local_path : Text
  pub remote_relative_path : Text
  pub kind : UploadEntryKind

-- The plan, less the canonical root, against which `is_inside` compares.
pub record SignedBundleUploadPlan : Type 0 where
  pub entries : List UploadEntry
  pub byte_count : ℕ

pub record Metadata : Type 0 where
  pub is_symlink : Bool
  pub is_dir : Bool
  pub is_file : Bool
  pub len : ℕ
  pub identity : Option FileIdentity

-- What one entry meets: its metadata, whether it is under the root, the metadata of the opened file,
-- the reads until the end (none for one that fails), the metadata after them; and whether the device
-- makes the directory, opens the file, takes each write and closes the file.
pub record Outside : Type 0 where
  pub metadata : Option Metadata
  pub is_inside : Bool
  pub opened : Option Metadata
  pub reads : List (Option Bytes)
  pub final : Option Metadata
  pub makes : Bool
  pub opens_file : Bool
  pub takes : ℕ → Bool
  pub closes_file : Bool

pub data Call : Type 0 where
  reports : ℕ → Call
  creates opens : Text → Call
  writes : Bytes → Call
  closes : Call
  installs removes : Text → Call

-- a result, with the calls that were made
abbrev pub Traced : Type 0 → Type 0
Traced A = Result Text A × List Call

unfoldable pub upload_progress_percent : ℕ → ℕ → ℕ
upload_progress_percent bytes_sent total_bytes =
    if total_bytes == 0
    then 40
    else 40 + (if leb bytes_sent total_bytes then bytes_sent else total_bytes) * 45 / total_bytes

-- `file_identity(&metadata) == Some(identity)`
abbrev has_identity : FileIdentity → Metadata → Bool
has_identity identity m = elim m.identity [
  | none ↦ false
  | some other ↦ same_identity other identity
]

abbrev pub is_same_directory : FileIdentity → Outside → Bool
is_same_directory identity o = elim o.metadata [
  | none ↦ false
  | some m ↦ o.is_inside && not m.is_symlink && m.is_dir && has_identity identity m
]

abbrev is_same_file : ℕ → FileIdentity → Metadata → Bool
is_same_file size identity m = m.is_file && m.len == size && has_identity identity m

-- Whether the file is as planned, before and after it is opened.
unfoldable pub open_verified_upload_file : ℕ → FileIdentity → Outside → Bool
open_verified_upload_file size identity o =
    elim o.metadata [
      | none ↦ false
      | some m ↦ o.is_inside && not m.is_symlink && is_same_file size identity m
    ]
    && elim o.opened [ none ↦ false | some m ↦ is_same_file size identity m ]

-- The counters of the upload, and what was read of the file.
pub record Progress : Type 0 where
  pub bytes_sent : ℕ
  pub last_percent : ℕ
  pub content : Bytes

abbrev sent : ℕ → Bytes → Progress → Progress
sent total chunk p =
    let percent = upload_progress_percent (p.bytes_sent + length chunk) total in
    record {
      bytes_sent = p.bytes_sent + length chunk;
      last_percent = if ltb p.last_percent percent then percent else p.last_percent;
      content = p.content ++ chunk;
    }

-- the report of the percent, where it has risen
abbrev risen : ℕ → Bytes → Progress → List Call
risen total chunk p =
    let percent = upload_progress_percent (p.bytes_sent + length chunk) total in
    if ltb p.last_percent percent then reports percent ∷ [] else []

abbrev pub after : {A : Type 0} → List Call → Traced A → Traced A
after calls (result, more) = (result, calls ++ more)

-- The loop over the reads: `turn` counts the writes. The sum of the sizes does not wrap, since it is
-- compared with the size of the file, and both refusals say the same.
unfoldable pub write_chunks :
    ℕ → ℕ → (ℕ → Bool) → List (Option Bytes) → ℕ → Progress → Traced Progress
unfolding upload_progress_percent
write_chunks size total takes [] turn p = (ok p, [])
write_chunks size total takes (none ∷ reads) turn p = (err (codes "source_read"), [])
write_chunks size total takes (some [] ∷ reads) turn p = (ok p, [])
write_chunks size total takes (some (byte ∷ bytes) ∷ reads) turn p =
    let chunk = byte ∷ bytes in
    let rest = write_chunks size total takes reads (turn + 1) (sent total chunk p) in
    if ltb size (length (p.content ++ chunk))
    then (err (codes "source_changed"), [])
    else if not (takes turn)
    then (err (codes "staging_file_write"), writes chunk ∷ [])
    else after (writes chunk ∷ risen total chunk p) rest

-- after the loop: the size, the metadata and the digest once more
abbrev pub is_unchanged :
    (Bytes → Bytes) → ℕ → FileIdentity → Bytes → Option Metadata → Progress → Bool
is_unchanged sha256 size identity digest final p =
    length p.content == size
    && elim final [ none ↦ false | some m ↦ m.len == size && has_identity identity m ]
    && text_eq (sha256 p.content) digest

abbrev checked :
    (Bytes → Bytes)
    → ℕ
    → FileIdentity
    → Bytes
    → Outside
    → Result Text Progress
    → Result Text Progress
checked sha256 size identity digest o (err e) = err e
checked sha256 size identity digest o (ok p) =
    if is_unchanged sha256 size identity digest o.final p
    then ok p
    else err (codes "source_changed")

-- The descriptor is closed in any case, and the error of the writes comes first.
abbrev closed : Bool → Result Text Progress → Result Text Progress
closed is_closed (err e) = err e
closed is_closed (ok p) = if is_closed then ok p else err (codes "staging_file_close")

abbrev copied :
    (Bytes → Bytes) → ℕ → FileIdentity → Bytes → Outside → Traced Progress → Traced Progress
copied sha256 size identity digest o (result, calls) =
    (closed o.closes_file (checked sha256 size identity digest o result), calls ++ closes ∷ [])

abbrev fresh : Progress → Progress
fresh p = record p { content = [] }

unfoldable pub stage_entry :
    (Bytes → Bytes) → Text → ℕ → UploadEntry → Outside → Progress → Traced Progress
unfolding write_chunks open_verified_upload_file
stage_entry sha256 app total entry o p =
    let path = app ++ codes "/" ++ entry.remote_relative_path in
    elim entry.kind [
      | directory identity ↦
          if not (is_same_directory identity o)
          then (err (codes "source_changed"), [])
          else if o.makes
          then (ok p, creates path ∷ [])
          else (err (codes "staging_directory_create"), creates path ∷ [])
      | file size identity digest ↦
          if not (open_verified_upload_file size identity o)
          then (err (codes "source_changed"), [])
          else if not o.opens_file
          then (err (codes "staging_file_open"), opens path ∷ [])
          else after (opens path ∷ []) (
              copied sha256 size identity digest o
                (write_chunks size total o.takes o.reads 0 (fresh p)))
    ]

-- `?` after the calls that were made
abbrev pub and_then : {A B : Type 0} → Traced A → (A → Traced B) → Traced B
and_then (err e, calls) next = (err e, calls)
and_then (ok a, calls) next = after calls (next a)

unfoldable pub stage_entries :
    (Bytes → Bytes)
    → Text
    → ℕ
    → (UploadEntry → Outside)
    → List UploadEntry
    → Progress
    → Traced Progress
stage_entries sha256 app total outside [] p = (ok p, [])
stage_entries sha256 app total outside (entry ∷ entries) p =
    and_then (stage_entry sha256 app total entry (outside entry) p)
      (stage_entries sha256 app total outside entries)

pub record TaskStagingPath : Type 0 where
  pub root : Text
  pub app : Text

-- What the device answers before the entries: whether the directory above is one and whether the
-- root exists (none for a query that fails), and whether the two directories are made.
pub record Staging : Type 0 where
  pub is_directory : Option Bool
  pub root_exists : Option Bool
  pub makes_root : Bool
  pub makes_app : Bool

abbrev pub begun : Progress
begun = record { bytes_sent = 0; last_percent = 40; content = [] }

-- the part in which the root may have been created
unfoldable pub stage_root :
    (Bytes → Bytes)
    → (UploadEntry → Outside)
    → Staging
    → TaskStagingPath
    → SignedBundleUploadPlan
    → Traced Progress
stage_root sha256 outside s staging plan =
    if not s.makes_root
    then (err (codes "staging_root_create"), creates staging.root ∷ [])
    else if not s.makes_app
    then (err (codes "staging_app_create"), creates staging.root ∷ creates staging.app ∷ [])
    else after (creates staging.root ∷ creates staging.app ∷ []) (
        and_then (stage_entries sha256 staging.app plan.byte_count outside plan.entries begun)
          (λ p. (ok p, reports 85 ∷ [])))

-- The result, with `root_created` of the source.
unfoldable pub stage_signed_bundle :
    (Bytes → Bytes)
    → (UploadEntry → Outside)
    → Staging
    → TaskStagingPath
    → SignedBundleUploadPlan
    → Traced Progress × Bool
stage_signed_bundle sha256 outside s staging plan = elim s.is_directory [
  | none ↦ ((err (codes "public_staging_query"), reports 40 ∷ []), false)
  | some false ↦ ((err (codes "public_staging_invalid"), reports 40 ∷ []), false)
  | some true ↦ elim s.root_exists [
    | none ↦ ((err (codes "staging_precheck"), reports 40 ∷ []), false)
    | some true ↦ ((err (codes "staging_root_exists"), reports 40 ∷ []), false)
    | some false ↦ (after (reports 40 ∷ []) (stage_root sha256 outside s staging plan), true)
  ]
]
