-- ===== src/Ipa/Inspect.antt =====
-- `inspect_ipa` of ipa.rs: the loop over the entries and what it returns.
pub mod Safety
use mathlib.Core.Option
use i_phone_loadly.Common.{
  ℕ, ◌+◌, ◌/◌, Text, Bool, true, false, Option, none, some, List, [], ◌∷◌, ◌++◌, not, ◌&&◌, Result,
  ok, err, ◌>>=◌, ◌>>◌, codes, is_empty, length, leb, ltb, text_eq, trim, if◌then◌else◌,
}
use i_phone_loadly.Ipa.{
  AppPlatform, unknown, UploadError, too_large, invalid_archive, too_many_entries, expansion_limit,
  invalid_payload, missing_info_plist, invalid_bundle_identifier, UploadMetadata, Plist, Entry,
  UploadFile, max_compressed_bytes, max_expanded_bytes, max_entries, max_compression_ratio,
  ratio_check_min_bytes, max_info_plist_bytes,
}
use i_phone_loadly.Ipa.Platform.{string_at, from_info_plist}
use i_phone_loadly.Ipa.Paths.{validate_archive_path, main_bundle_from_entry}

-- the variables of the loop
pub record Inspection : Type 0 where
  pub expanded_bytes : ℕ
  pub app_bundle : Option Text
  pub info_plist_present : Bool
  pub bundle_id : Option Text
  pub display_name : Option Text
  pub app_version : Option Text
  pub platform : AppPlatform

abbrev pub initial : Inspection
initial = record {
  expanded_bytes = 0;
  app_bundle = none;
  info_plist_present = false;
  bundle_id = none;
  display_name = none;
  app_version = none;
  platform = unknown;
}

abbrev max_u64 : ℕ
max_u64 = 18446744073709551615

-- `u64::saturating_add`
unfoldable pub saturating_add : ℕ → ℕ → ℕ
saturating_add a b = if leb (a + b) max_u64 then a + b else max_u64

abbrev pub is_blank : Text → Bool
is_blank value = is_empty (trim value)

-- `.filter(|value| !value.trim().is_empty())`
abbrev pub not_blank : Option Text → Option Text
not_blank none = none
not_blank (some value) = if is_blank value then none else some value

-- `or_else`
abbrev or_else : Option Text → Option Text → Option Text
or_else none other = other
or_else (some s) other = some s

-- the limits that an entry is held to, after its name
unfoldable pub check_sizes : ℕ → Entry → Result UploadError (Unit {0})
check_sizes expanded entry =
    if ltb max_expanded_bytes expanded
    then err expansion_limit
    else if leb ratio_check_min_bytes entry.size
        && (ltb 0 entry.compressed_size
            && ltb max_compression_ratio (entry.size / entry.compressed_size))
    then err expansion_limit
    else ok tt

-- the bundle after an entry: the first one is kept and no other may follow
unfoldable pub next_bundle : Option Text → Option Text → Result UploadError (Option Text)
next_bundle known none = ok known
next_bundle none (some bundle) = ok (some bundle)
next_bundle (some existing) (some bundle) =
    if not (text_eq existing bundle) then err invalid_payload else ok (some existing)

-- whether the entry is the Info.plist of the bundle
unfoldable pub is_info_plist : Option Text → Text → Bool
is_info_plist none name = false
is_info_plist (some bundle) name = text_eq name (bundle ++ codes "/Info.plist")

-- `ok_or(UploadError::InvalidArchive)`
abbrev pub readable : {A : Type 0} → Option A → Result UploadError A
readable none = err invalid_archive
readable (some a) = ok a

-- `if refused { return Err(e) }`
abbrev pub check : Bool → UploadError → Result UploadError (Unit {0})
check true e = err e
check false e = ok tt

module _ (P : Plist) where
  unfoldable pub read_dictionary : Entry → Result UploadError P.Dictionary
  read_dictionary entry =
      if ltb max_info_plist_bytes entry.size then err expansion_limit else elim entry.contents [
        | none ↦ err invalid_archive
        | some contents ↦ elim (P.from_reader contents) [
          | none ↦ err invalid_bundle_identifier
          | some value ↦ elim (P.as_dictionary value) [
            | none ↦ err invalid_bundle_identifier
            | some dictionary ↦ ok dictionary
          ]
        ]
      ]

  -- the variables after an Info.plist
  unfoldable pub with_dictionary : Inspection → P.Dictionary → Inspection
  with_dictionary s dictionary = record s {
    info_plist_present = true;
    bundle_id = string_at P dictionary (codes "CFBundleIdentifier");
    display_name =
        or_else (string_at P dictionary (codes "CFBundleDisplayName"))
          (string_at P dictionary (codes "CFBundleName"));
    app_version = not_blank (
        or_else (string_at P dictionary (codes "CFBundleShortVersionString"))
          (string_at P dictionary (codes "CFBundleVersion")));
    platform = from_info_plist P dictionary;
  }

  -- the part of the loop's body that reads the Info.plist
  unfoldable pub read_info_plist : Inspection → Entry → Result UploadError Inspection
  unfolding read_dictionary with_dictionary
  read_info_plist s entry =
      if is_info_plist s.app_bundle entry.name
      then (read_dictionary entry >>= λ dictionary. ok (with_dictionary s dictionary))
      else ok s

  -- the loop's body
  unfoldable pub inspect_entry : Inspection → Entry → Result UploadError Inspection
  unfolding read_info_plist
  inspect_entry s entry = do
    let expanded = saturating_add s.expanded_bytes entry.size
    _ ← validate_archive_path entry.name
    _ ← check_sizes expanded entry
    app_bundle ← next_bundle s.app_bundle (main_bundle_from_entry entry.name)
    read_info_plist (record s { expanded_bytes = expanded; app_bundle = app_bundle }) entry

  -- the loop; a none is an entry that `by_index` does not read
  unfoldable pub inspect_entries : Inspection → List (Option Entry) → Result UploadError Inspection
  unfolding inspect_entry
  inspect_entries s [] = ok s
  inspect_entries s (none ∷ entries) = err invalid_archive
  inspect_entries s (some entry ∷ entries) =
      inspect_entry s entry >>= λ t. inspect_entries t entries

  -- the code after the loop
  unfoldable pub conclude : Text → ℕ → Inspection → Result UploadError UploadMetadata
  conclude digest len s = elim s.app_bundle [
    | none ↦ err invalid_payload
    | some app_bundle_path ↦
        if not s.info_plist_present then err missing_info_plist else elim (not_blank s.bundle_id) [
          | none ↦ err invalid_bundle_identifier
          | some bundle_id ↦ ok (record {
            sha256 = digest;
            size_bytes = len;
            app_bundle_path = app_bundle_path;
            bundle_id = bundle_id;
            display_name = Option.get_or (not_blank s.display_name) bundle_id;
            app_version = s.app_version;
            info_plist_present = s.info_plist_present;
            platform = s.platform;
          })
        ]
  ]

  unfoldable pub inspect_ipa : UploadFile → Result UploadError UploadMetadata
  unfolding inspect_entries conclude
  inspect_ipa file = do
    len ← readable file.len
    _ ← check (ltb max_compressed_bytes len) too_large
    digest ← readable file.digest
    archive ← readable file.archive
    _ ← check (ltb max_entries (length archive)) too_many_entries
    s ← inspect_entries initial archive
    conclude digest len s

  unfoldable pub bundle_identifier : UploadFile → Result UploadError Text
  unfolding inspect_ipa
  bundle_identifier file = inspect_ipa file >>= λ metadata. ok metadata.bundle_id

  unfoldable pub app_platform : UploadFile → Result UploadError AppPlatform
  unfolding inspect_ipa
  app_platform file = inspect_ipa file >>= λ metadata. ok metadata.platform
