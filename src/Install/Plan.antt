-- ===== src/Install/Plan.antt =====
-- The plan of an upload: `plan_signed_bundle_until` and `safe_remote_relative_path` of
-- wireless_pairing.rs. A path under the root of the bundle is the list of its components, so that the
-- root is always its prefix; what the file system answers for it is an argument.
pub mod Total
pub mod Tests
use i_phone_loadly.Common.{
  ℕ, zero, suc, ◌+◌, ◌*◌, ◌^◌, Text, Bool, true, false, not, ◌&&◌, ◌||◌, ◌==◌, any, contains,
  Option, none, some, List, [], ◌∷◌, ◌++◌, codes, length, leb, ltb, is_empty, text_eq, text_le,
  order_by, Result, ok, err, ◌>>=◌, if◌then◌else◌,
}
use i_phone_loadly.Install.Upload.{Bytes, FileIdentity, UploadEntryKind, directory, file}
use i_phone_loadly.Install.Execute.{
  UploadPlanFailure, source_not_directory, source_symlink, unsupported_file_type, non_unicode_path,
  unsafe_path, too_many_entries, too_many_bytes, local_io, timeout,
}

abbrev pub rsd_install_file_limit : ℕ
rsd_install_file_limit = 20000

abbrev pub rsd_install_byte_limit : ℕ
rsd_install_byte_limit = 2 * 1024 * 1024 * 1024

-- A component of a path: a name, which may not be Unicode, or one that is no name.
pub data Component : Type 0 where
  normal : Text → Component
  not_unicode other : Component

abbrev pub RelativePath : Type 0
RelativePath = List Component

unfoldable pub is_unsafe : Text → Bool
is_unsafe name =
    is_empty name
    || text_eq name (codes ".")
    || text_eq name (codes "..")
    || contains 47 name
    || contains 92 name
    || contains 0 name

unfoldable pub safe_parts : RelativePath → Result UploadPlanFailure (List Text)
unfolding is_unsafe
safe_parts [] = ok []
safe_parts (not_unicode ∷ path) = err non_unicode_path
safe_parts (other ∷ path) = err unsafe_path
safe_parts (normal name ∷ path) =
    let rest = safe_parts path in
    if is_unsafe name then err unsafe_path else rest >>= λ parts. ok (name ∷ parts)

-- `parts.join("/")`
abbrev pub join : List Text → Text
join [] = []
join (part ∷ []) = part
join (part ∷ next ∷ parts) = part ++ 47 ∷ join (next ∷ parts)

abbrev pub joined : List Text → Result UploadPlanFailure Text
joined [] = err unsafe_path
joined (part ∷ parts) = ok (join (part ∷ parts))

unfoldable pub safe_remote_relative_path : RelativePath → Result UploadPlanFailure Text
unfolding safe_parts
safe_remote_relative_path path = safe_parts path >>= joined

unfoldable pub validate_upload_bounds : ℕ → ℕ → Result UploadPlanFailure (Unit {0})
validate_upload_bounds entry_count byte_count =
    if ltb rsd_install_file_limit entry_count
    then err too_many_entries
    else if ltb rsd_install_byte_limit byte_count
    then err too_many_bytes
    else ok tt

pub data Kind : Type 0 where
  symlink dir regular special : Kind

-- What the file system answers for a child of a directory: `place` is the error of its place outside
-- the root, `digest` what hashing it gives.
pub record Child : Type 0 where
  pub name : Component
  pub kind : Option Kind
  pub place : Option UploadPlanFailure
  pub hardens : Bool
  pub size : ℕ
  pub identity : Option FileIdentity
  pub digest : Result UploadPlanFailure Bytes

-- One turn over the children: whether the deadline has passed, and the child if it can be read.
pub record Turn : Type 0 where
  pub is_late : Bool
  pub child : Option Child

-- What the file system answers for a directory.
pub record Directory : Type 0 where
  pub is_late : Bool
  pub kind : Option Kind
  pub hardens : Bool
  pub place : Option UploadPlanFailure
  pub children : Option (List Turn)

pub record PlanEntry : Type 0 where
  pub remote_relative_path : Text
  pub kind : UploadEntryKind

pub record Progress : Type 0 where
  pub pending : List RelativePath
  pub entries : List PlanEntry
  pub byte_count : ℕ

abbrev pub required : Bool → UploadPlanFailure → Result UploadPlanFailure (Unit {0})
required true failure = ok tt
required false failure = err failure

abbrev pub some_or {ℓ} : {A : Type ℓ} → UploadPlanFailure → Option A → Result UploadPlanFailure A
some_or failure none = err failure
some_or failure (some a) = ok a

abbrev pub in_place : Option UploadPlanFailure → Result UploadPlanFailure (Unit {0})
in_place none = ok tt
in_place (some failure) = err failure

-- the entry of a child, which is a directory or a file, with what is left to read
unfoldable pub plan_kind :
    RelativePath → Child → Progress → Kind → Result UploadPlanFailure (UploadEntryKind × Progress)
unfolding validate_upload_bounds
plan_kind path c p symlink = err source_symlink
plan_kind path c p special = err unsupported_file_type
plan_kind path c p dir = do
  _ ← required c.hardens local_io
  identity ← some_or local_io c.identity
  ok (directory identity, record p { pending = p.pending ++ path ∷ [] })
plan_kind path c p regular = do
  _ ← required c.hardens local_io
  _ ← required (ltb (p.byte_count + c.size) (2 ^ 64)) too_many_bytes
  _ ← validate_upload_bounds (length p.entries) (p.byte_count + c.size)
  identity ← some_or local_io c.identity
  digest ← c.digest
  ok (file c.size identity digest, record p { byte_count = p.byte_count + c.size })

-- `entries.push` with the bounds after it
abbrev pub pushed : Text → UploadEntryKind × Progress → Result UploadPlanFailure Progress
pushed remote (kind, p) =
    let entries = p.entries ++ record { remote_relative_path = remote; kind = kind } ∷ [] in
    validate_upload_bounds (length entries) p.byte_count >>= λ _.
    ok (record p { entries = entries })

abbrev pub is_symlink : Kind → Bool
is_symlink symlink = true
is_symlink _ = false

abbrev pub is_dir : Kind → Bool
is_dir dir = true
is_dir _ = false

unfoldable pub plan_turn : RelativePath → Turn → Progress → Result UploadPlanFailure Progress
unfolding plan_kind validate_upload_bounds safe_remote_relative_path
plan_turn parent turn p = do
  _ ← required (not turn.is_late) timeout
  c ← some_or local_io turn.child
  kind ← some_or local_io c.kind
  _ ← required (not (is_symlink kind)) source_symlink
  _ ← in_place c.place
  let path = parent ++ c.name ∷ []
  remote ← safe_remote_relative_path path
  planned ← plan_kind path c p kind
  pushed remote planned

unfoldable pub plan_turns : RelativePath → List Turn → Progress → Result UploadPlanFailure Progress
plan_turns parent [] p = ok p
plan_turns parent (turn ∷ turns) p = plan_turn parent turn p >>= plan_turns parent turns

-- one directory of the queue
unfoldable pub plan_directory :
    RelativePath → Directory → Progress → Result UploadPlanFailure Progress
plan_directory path d p = do
  _ ← required (not d.is_late) timeout
  kind ← some_or local_io d.kind
  _ ← required (is_dir kind) source_symlink
  _ ← required d.hardens local_io
  _ ← in_place d.place
  turns ← some_or local_io d.children
  plan_turns path turns p

-- The loop over the queue: none where the fuel is used up.
unfoldable pub plan_loop :
    (RelativePath → Directory) → ℕ → Progress → Option (Result UploadPlanFailure Progress)
plan_loop fs zero p = elim p.pending [ [] ↦ some (ok p) | path ∷ paths ↦ none ]
plan_loop fs (suc fuel) p = elim p.pending [
  | [] ↦ some (ok p)
  | path ∷ paths ↦ elim (plan_directory path (fs path) (record p { pending = paths })) [
    | err failure ↦ some (err failure)
    | ok q ↦ plan_loop fs fuel q
  ]
]

-- What is asked of the root before the loop, and the deadline after it.
pub record Root : Type 0 where
  pub is_late : Bool
  pub kind : Option Kind
  pub hardens : Bool
  pub has_canonical : Bool
  pub is_late_after : Bool

abbrev pub root_checked : Root → Result UploadPlanFailure (Unit {0})
root_checked r = do
  _ ← required (not r.is_late) timeout
  kind ← some_or local_io r.kind
  _ ← required (not (is_symlink kind)) source_symlink
  _ ← required (is_dir kind) source_not_directory
  _ ← required r.hardens local_io
  required r.has_canonical local_io

abbrev pub by_path : PlanEntry → PlanEntry → Bool
by_path a b = text_le a.remote_relative_path b.remote_relative_path

-- `entries.sort_by`
abbrev pub sorted : Root → Progress → Result UploadPlanFailure Progress
sorted r p = required (not r.is_late_after) timeout >>= λ _.
    ok (record p { entries = order_by by_path p.entries })

abbrev pub start : Progress
start = record { pending = [] ∷ []; entries = []; byte_count = 0 }

-- enough for the root and as many directories as a plan has entries
abbrev pub plan_fuel : ℕ
plan_fuel = rsd_install_file_limit + 1

abbrev pub after_loop :
    Root → Option (Result UploadPlanFailure Progress) → Option (Result UploadPlanFailure Progress)
after_loop r none = none
after_loop r (some (err failure)) = some (err failure)
after_loop r (some (ok p)) = some (sorted r p)

unfoldable pub plan_signed_bundle_until :
    Root → (RelativePath → Directory) → Option (Result UploadPlanFailure Progress)
unfolding plan_loop
plan_signed_bundle_until r fs = elim (root_checked r) [
  | err failure ↦ some (err failure)
  | ok _ ↦ after_loop r (plan_loop fs plan_fuel start)
]
