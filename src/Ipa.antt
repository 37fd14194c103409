-- ===== src/Ipa.antt =====
-- Uploaded IPA archives (crates/iphoneloadly-api/src/ipa.rs): limits, platforms, errors and what an
-- archive and a property list offer to the inspection.
pub mod Platform
pub mod Paths
pub mod Inspect
pub mod Tests
use i_phone_loadly.Common.{ℕ, Text, Bool, Option, none, some, List}

abbrev pub max_compressed_bytes : ℕ
max_compressed_bytes = 2147483648

abbrev pub max_expanded_bytes : ℕ
max_expanded_bytes = 4294967296

abbrev pub max_entries : ℕ
max_entries = 20000

abbrev pub max_compression_ratio : ℕ
max_compression_ratio = 200

abbrev pub ratio_check_min_bytes : ℕ
ratio_check_min_bytes = 1048576

abbrev pub max_info_plist_bytes : ℕ
max_info_plist_bytes = 16777216

pub data AppPlatform : Type 0 where
  ios tvos unknown : AppPlatform

pub data UploadError : Type 0 where
  too_large invalid_archive unsafe_path too_many_entries expansion_limit invalid_payload :
      UploadError
  missing_info_plist invalid_bundle_identifier : UploadError

pub record UploadMetadata : Type 0 where
  pub sha256 : Text
  pub size_bytes : ℕ
  pub app_bundle_path : Text
  pub bundle_id : Text
  pub display_name : Text
  pub app_version : Option Text
  pub info_plist_present : Bool
  pub platform : AppPlatform

-- What the plist crate offers: a document is read from bytes (`none` is an error of the reader), and
-- a value is looked at by its kind.
pub record Plist : Type 1 where
  pub Value : Type 0
  pub Dictionary : Type 0
  pub from_reader : List ℕ → Option Value
  pub as_dictionary : Value → Option Dictionary
  pub get : Dictionary → Text → Option Value
  pub as_string : Value → Option Text
  pub as_array : Value → Option (List Value)
  pub as_unsigned_integer : Value → Option ℕ

-- What the zip crate offers of an entry; `contents` is none when reading it fails.
pub record Entry : Type 0 where
  pub name : Text
  pub size : ℕ
  pub compressed_size : ℕ
  pub contents : Option (List ℕ)

-- A file on disk: its length, its SHA-256 in hexadecimal, and its entries as a zip archive. A none is
-- a failure of the call that asks.
pub record UploadFile : Type 0 where
  pub len : Option ℕ
  pub digest : Option Text
  pub archive : Option (List (Option Entry))
