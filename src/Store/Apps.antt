-- ===== src/Store/Apps.antt =====
-- The statements of store.rs on the table `apps`.
pub mod Deletion
use mathlib.Core.Option
use i_phone_loadly.Common.{
  Result, ok, err, ℕ, Text, Bool, true, false, Option, none, some, List, [], ◌∷◌, ◌++◌, ◌&&◌, ◌||◌,
  ◌==◌, text_eq, any, leb, map, select, first, update, count, order_by, if◌then◌else◌,
}
use i_phone_loadly.Store.{
  Uuid, Timestamp, Error, constraint, AppRow, JobRow, SourceRow, Database, is_none, is_active,
}

-- `StoredApp`, what a query of an app returns.
pub record StoredApp : Type 0 where
  pub id : Uuid
  pub sha256 : Text
  pub size_bytes : ℕ
  pub display_name : Text
  pub app_version : Option Text
  pub bundle_id : Option Text
  pub storage_path : Text

-- WHERE id = ?
abbrev pub has_id : Uuid → AppRow → Bool
has_id id a = a.id == id

-- WHERE id = ? AND deleted_at IS NULL
abbrev pub is_live_with_id : Uuid → AppRow → Bool
is_live_with_id id a = a.id == id && is_none a.deleted_at

-- PRIMARY KEY (id), UNIQUE (sha256), UNIQUE (storage_path)
abbrev pub clashes : AppRow → AppRow → Bool
clashes a b = a.id == b.id || text_eq a.sha256 b.sha256 || text_eq a.storage_path b.storage_path

abbrev pub new_app : Timestamp → Uuid → Text → Text → ℕ → Text → Text → Option Text → AppRow
new_app now id sha256 storage_path size_bytes bundle_id display_name app_version = record {
  id = id;
  sha256 = sha256;
  storage_path = storage_path;
  size_bytes = size_bytes;
  uploaded_at = now;
  deleted_at = none;
  bundle_id = some bundle_id;
  display_name = some display_name;
  app_version = app_version;
}

unfoldable pub insert_app :
    Timestamp
    → Uuid
    → Text
    → Text
    → ℕ
    → Text
    → Text
    → Option Text
    → Database
    → Result Error Database
insert_app now id sha256 storage_path size_bytes bundle_id display_name app_version db =
    let row = new_app now id sha256 storage_path size_bytes bundle_id display_name app_version in
    if any (clashes row) db.apps
    then err constraint
    else ok (record db { apps = db.apps ++ row ∷ [] })

-- the id and the path of each app that has no bundle identifier yet
unfoldable pub apps_missing_bundle_id : Database → List (Uuid × Text)
apps_missing_bundle_id db =
    map (λ a. (a.id, a.storage_path))
      (select (λ a. is_none a.bundle_id && is_none a.deleted_at) db.apps)

unfoldable pub app_path : Database → Uuid → Option Text
app_path db id = Option.map (λ a. a.storage_path) (first (is_live_with_id id) db.apps)

unfoldable pub set_app_bundle_id : Uuid → Text → Database → Database
set_app_bundle_id id bundle_id db = record db {
  apps = update (has_id id) (λ a. record a { bundle_id = some bundle_id }) db.apps;
}

-- `unwrap_or_else(|| id.clone())`: the text of a UUID is the argument `uuid_text`
abbrev pub to_stored_app : (Uuid → Text) → AppRow → StoredApp
to_stored_app uuid_text a = record {
  id = a.id;
  sha256 = a.sha256;
  size_bytes = a.size_bytes;
  display_name = Option.get_or a.display_name (uuid_text a.id);
  app_version = a.app_version;
  bundle_id = a.bundle_id;
  storage_path = a.storage_path;
}

unfoldable pub list_apps : (Uuid → Text) → Database → List StoredApp
list_apps uuid_text db =
    map (to_stored_app uuid_text) (
      order_by (λ a b. leb b.uploaded_at a.uploaded_at)
        (select (λ a. is_none a.deleted_at) db.apps))

unfoldable pub find_app : (Uuid → Text) → Database → Uuid → Option StoredApp
find_app uuid_text db id = Option.map (to_stored_app uuid_text) (first (has_id id) db.apps)

-- WHERE app_id = ? AND phase IN (the active ones)
unfoldable pub active_job_exists_for_app : Database → Uuid → Bool
unfolding is_active
active_job_exists_for_app db app_id = any (λ j. j.app_id == app_id && is_active j.phase) db.jobs

pub data AppDeletion : Type 0 where
  ready : Text → AppDeletion
  active_job : AppDeletion
  not_found : AppDeletion

-- UPDATE github_sources SET auto_download = 0, … WHERE app_id = ?
abbrev pub is_linked_to : Uuid → SourceRow → Bool
is_linked_to id s = elim s.app_id [ none ↦ false | some app ↦ app == id ]

abbrev pub drop_automation : Timestamp → SourceRow → SourceRow
drop_automation now s = record s {
  auto_download = false;
  auto_acknowledged_at = none;
  updated_at = now;
}

abbrev pub stamp_deleted : Timestamp → AppRow → AppRow
stamp_deleted now a = record a { deleted_at = some now }

-- the two UPDATE statements of `mark_app_deleted`
abbrev pub delete_app_rows : Timestamp → Uuid → Database → Database
delete_app_rows now id db = record db {
  apps = update (is_live_with_id id) (stamp_deleted now) db.apps;
  sources = update (is_linked_to id) (drop_automation now) db.sources;
}

unfoldable pub mark_app_deleted : Timestamp → Uuid → Database → AppDeletion × Database
unfolding app_path active_job_exists_for_app
mark_app_deleted now id db = elim (app_path db id) [
  | none ↦ (not_found, db)
  | some path ↦
      if active_job_exists_for_app db id
      then (active_job, db)
      else (ready path, delete_app_rows now id db)
]

unfoldable pub restore_app : Uuid → Database → Database
restore_app id db = record db {
  apps = update (has_id id) (λ a. record a { deleted_at = none }) db.apps;
}

unfoldable pub rename_app : Uuid → Text → Database → Bool × Database
rename_app id display_name db = (
  count (is_live_with_id id) db.apps == 1,
  record db {
    apps = update (is_live_with_id id) (λ a. record a { display_name = some display_name }) db.apps;
  },
)
