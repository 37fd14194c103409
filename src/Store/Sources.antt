-- ===== src/Store/Sources.antt =====
-- The statements of store.rs on the table `github_sources`.
use i_phone_loadly.Common.{
  Result, ok, err, ◌>>=◌, ℕ, Text, Bool, true, false, Option, none, some, List, [], ◌∷◌, ◌++◌, not,
  ◌&&◌, ◌||◌, ◌==◌, text_eq, codes, any, leb, first, update, count, delete, is_unique, order_by,
  if◌then◌else◌,
}
use i_phone_loadly.Store.{Uuid, Timestamp, Error, constraint, AppRow, SourceRow, Database}
use i_phone_loadly.Store.Apps

abbrev pub has_id : Uuid → SourceRow → Bool
has_id id s = s.id == id

-- UNIQUE (app_id), where two NULLs do not clash
abbrev pub same_app : Option Uuid → Option Uuid → Bool
same_app none _ = false
same_app (some a) none = false
same_app (some a) (some b) = a == b

-- PRIMARY KEY (id), UNIQUE (app_id), UNIQUE INDEX (owner, repo, asset_pattern)
abbrev pub clashes : SourceRow → SourceRow → Bool
clashes s t =
    s.id == t.id
    || same_app s.app_id t.app_id
    || text_eq s.owner t.owner && text_eq s.repo t.repo && text_eq s.asset_pattern t.asset_pattern

-- FOREIGN KEY (app_id) REFERENCES apps(id), which the bundled SQLite enforces
abbrev pub refers : Database → Option Uuid → Bool
refers db none = true
refers db (some app_id) = any (Apps.has_id app_id) db.apps

abbrev pub new_source : Timestamp → Uuid → Option Uuid → Text → Text → Text → Bool → SourceRow
new_source now id app_id owner repo asset_pattern include_prereleases = record {
  id = id;
  app_id = app_id;
  owner = owner;
  repo = repo;
  asset_pattern = asset_pattern;
  include_prereleases = include_prereleases;
  auto_download = false;
  auto_acknowledged_at = none;
  last_checked_at = none;
  last_release_id = none;
  last_release_tag = none;
  last_asset_id = none;
  last_asset_name = none;
  last_download_sha256 = none;
  last_status = none;
  last_error_code = none;
  created_at = now;
  updated_at = now;
}

unfoldable pub insert_github_source :
    Timestamp → Uuid → Option Uuid → Text → Text → Text → Bool → Database → Result Error Database
insert_github_source now id app_id owner repo asset_pattern include_prereleases db =
    let row = new_source now id app_id owner repo asset_pattern include_prereleases in
    if any (clashes row) db.sources || not (refers db app_id)
    then err constraint
    else ok (record db { sources = db.sources ++ row ∷ [] })

-- An UPDATE of the table that may break a constraint: the statement fails as a whole.
abbrev pub update_checked :
    (SourceRow → Bool) → (SourceRow → SourceRow) → Database → Result Error Database
update_checked test change db =
    let rows = update test change db.sources in
    if is_unique clashes rows then ok (record db { sources = rows }) else err constraint

abbrev pub reconfigured :
    Timestamp → Option Uuid → Text → Text → Text → Bool → SourceRow → SourceRow
reconfigured now app_id owner repo asset_pattern include_prereleases s = record s {
  app_id = app_id;
  owner = owner;
  repo = repo;
  asset_pattern = asset_pattern;
  include_prereleases = include_prereleases;
  auto_download = false;
  auto_acknowledged_at = none;
  updated_at = now;
}

-- A foreign key is checked where a row changes.
unfoldable pub update_github_source :
    Timestamp
    → Uuid
    → Option Uuid
    → Text
    → Text
    → Text
    → Bool
    → Database
    → Result Error (Bool × Database)
update_github_source now id app_id owner repo asset_pattern include_prereleases db =
    if any (has_id id) db.sources && not (refers db app_id) then err constraint else do
      db' ←
          update_checked (has_id id)
            (reconfigured now app_id owner repo asset_pattern include_prereleases) db
      ok (count (has_id id) db.sources == 1, db')

unfoldable pub delete_github_source : Uuid → Database → Bool × Database
delete_github_source id db =
    (count (has_id id) db.sources == 1, record db { sources = delete (has_id id) db.sources })

unfoldable pub link_github_source_app : Timestamp → Uuid → Uuid → Database → Result Error Database
link_github_source_app now source_id app_id db =
    if any (has_id source_id) db.sources && not (refers db (some app_id))
    then err constraint
    else update_checked (has_id source_id)
        (λ s. record s { app_id = some app_id; updated_at = now }) db

abbrev pub replaced : Text → Text → ℕ → Text → Option Text → AppRow → AppRow
replaced sha256 storage_path size_bytes bundle_id app_version a = record a {
  sha256 = sha256;
  storage_path = storage_path;
  size_bytes = size_bytes;
  bundle_id = some bundle_id;
  app_version = app_version;
  deleted_at = none;
}

abbrev pub checked :
    Timestamp
    → Option ℕ
    → Option Text
    → Option ℕ
    → Option Text
    → Option Text
    → Text
    → Option Text
    → SourceRow
    → SourceRow
checked now release_id release_tag asset_id asset_name sha256 status error_code s = record s {
  last_checked_at = some now;
  last_release_id = release_id;
  last_release_tag = release_tag;
  last_asset_id = asset_id;
  last_asset_name = asset_name;
  last_download_sha256 = sha256;
  last_status = some status;
  last_error_code = error_code;
  updated_at = now;
}

unfoldable pub record_source_check :
    Timestamp
    → Uuid
    → Option ℕ
    → Option Text
    → Option ℕ
    → Option Text
    → Option Text
    → Text
    → Option Text
    → Database
    → Database
record_source_check now id release_id release_tag asset_id asset_name sha256 status error_code db =
    record db {
      sources =
          update (has_id id)
            (checked now release_id release_tag asset_id asset_name sha256 status error_code)
            db.sources;
    }

-- The transaction: an error in its first statement rolls it back, and the second has none.
unfoldable pub replace_app_from_source :
    Timestamp
    → Uuid
    → Uuid
    → Text
    → Text
    → ℕ
    → Text
    → Option Text
    → ℕ
    → Text
    → ℕ
    → Text
    → Database
    → Result Error Database
unfolding record_source_check
replace_app_from_source now app_id source_id sha256 storage_path size_bytes bundle_id app_version
      release_id release_tag asset_id asset_name db =
    let rows =
      update (Apps.has_id app_id) (replaced sha256 storage_path size_bytes bundle_id app_version)
        db.apps in
    if is_unique Apps.clashes rows
    then ok (
        record_source_check now source_id (some release_id) (some release_tag) (some asset_id)
          (some asset_name) (some sha256) (codes "downloaded") none (record db { apps = rows }))
    else err constraint

unfoldable pub list_github_sources : Database → List SourceRow
list_github_sources db = order_by (λ s t. leb t.created_at s.created_at) db.sources

unfoldable pub find_github_source : Database → Uuid → Option SourceRow
find_github_source db id = first (has_id id) db.sources

abbrev pub automated : Timestamp → Bool → SourceRow → SourceRow
automated now enabled s = record s {
  auto_download = enabled;
  auto_acknowledged_at = if enabled then some now else none;
  updated_at = now;
}

unfoldable pub set_source_automation : Timestamp → Uuid → Bool → Bool → Database → Bool × Database
set_source_automation now id enabled acknowledged db =
    if enabled && not acknowledged then (false, db) else (
      count (has_id id) db.sources == 1,
      record db { sources = update (has_id id) (automated now enabled) db.sources },
    )
