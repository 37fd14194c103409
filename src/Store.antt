-- ===== src/Store.antt =====
-- The tables of the SQLite store (crates/iphoneloadly-api/src/store.rs), each a list of its rows in
-- the order of insertion. A UUID, a release id and a time (in seconds) are numbers.
pub mod Apps
pub mod Jobs
pub mod Sources
pub mod Managed
pub mod Refresh
pub mod Invariant
pub mod Tests
pub mod Settings
use i_phone_loadly.Common.{
  ℕ, Text, Bool, true, false, Option, none, some, List, [], ◌≡◌, refl, if◌then◌else◌,
}

abbrev pub Uuid : Type 0
Uuid = ℕ

-- The value of `datetime('now')`, in seconds: its text is ordered as these numbers are.
abbrev pub Timestamp : Type 0
Timestamp = ℕ

-- A statement fails by `constraint` on a UNIQUE, PRIMARY KEY or REFERENCES clause, and a function
-- by `invalid_query` where it returns `rusqlite::Error::InvalidQuery`.
pub data Error : Type 0 where
  constraint invalid_query : Error

-- The texts of `jobs.phase`.
pub data Phase : Type 0 where
  queued connecting signing transferring installing succeeded failed : Phase
  other : Text → Phase

-- phase IN ('queued', 'connecting', 'signing', 'transferring', 'installing')
unfoldable pub is_active : Phase → Bool
is_active queued = true
is_active connecting = true
is_active signing = true
is_active transferring = true
is_active installing = true
is_active _ = false

-- phase = 'succeeded'
unfoldable pub is_succeeded : Phase → Bool
is_succeeded succeeded = true
is_succeeded _ = false

-- phase = 'failed'
unfoldable pub is_failed : Phase → Bool
is_failed failed = true
is_failed _ = false

-- The table `apps`.
pub record AppRow : Type 0 where
  pub id : Uuid
  pub sha256 : Text
  pub storage_path : Text
  pub size_bytes : ℕ
  pub uploaded_at : Timestamp
  pub deleted_at : Option Timestamp
  pub bundle_id : Option Text
  pub display_name : Option Text
  pub app_version : Option Text

-- The table `jobs`.
pub record JobRow : Type 0 where
  pub id : Uuid
  pub app_id : Uuid
  pub device_id : Uuid
  pub phase : Phase
  pub created_at : Timestamp
  pub completed_at : Option Timestamp
  pub progress_percent : Option ℕ
  pub device_label : Text
  pub failure_code : Option Text
  pub installed_bundle_id : Option Text
  pub app_display_name : Option Text
  pub app_version : Option Text

-- The table `settings`.
pub record SettingRow : Type 0 where
  pub key : Text
  pub value : Text

-- The table `unmanaged_installations`.
pub record UnmanagedRow : Type 0 where
  pub app_id : Uuid
  pub device_id : Uuid
  pub removed_at : Timestamp

-- The table `github_sources`.
pub record SourceRow : Type 0 where
  pub id : Uuid
  pub app_id : Option Uuid
  pub owner : Text
  pub repo : Text
  pub asset_pattern : Text
  pub include_prereleases : Bool
  pub auto_download : Bool
  pub auto_acknowledged_at : Option Timestamp
  pub last_checked_at : Option Timestamp
  pub last_release_id : Option ℕ
  pub last_release_tag : Option Text
  pub last_asset_id : Option ℕ
  pub last_asset_name : Option Text
  pub last_download_sha256 : Option Text
  pub last_status : Option Text
  pub last_error_code : Option Text
  pub created_at : Timestamp
  pub updated_at : Timestamp

pub record Database : Type 0 where
  pub apps : List AppRow
  pub jobs : List JobRow
  pub settings : List SettingRow
  pub unmanaged : List UnmanagedRow
  pub sources : List SourceRow

-- What `initialize` creates on a new path.
abbrev pub initialize : Database
initialize = record { apps = []; jobs = []; settings = []; unmanaged = []; sources = [] }

abbrev pub is_none {ℓ} : {A : Type ℓ} → Option A → Bool
is_none none = true
is_none (some a) = false
