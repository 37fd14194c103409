-- ===== src/Store/Jobs.antt =====
-- The statements of store.rs on the table `jobs`.
use mathlib.Core.Option
use i_phone_loadly.Common.{
  Result, ok, err, ℕ, Text, Bool, true, false, Option, none, some, List, [], ◌∷◌, ◌++◌, ◌&&◌, ◌==◌,
  any, leb, map, take, first, update, order_by, if◌then◌else◌,
}
use i_phone_loadly.Store.{
  Uuid, Timestamp, Phase, queued, succeeded, failed, AppRow, JobRow, Database, is_active, Error,
  constraint,
}
use i_phone_loadly.Store.Apps.{is_live_with_id}

-- `StoredJob`, what a query of a job returns.
pub record StoredJob : Type 0 where
  pub id : Uuid
  pub app_id : Uuid
  pub device_id : Uuid
  pub phase : Phase
  pub progress_percent : Option ℕ
  pub device_label : Text
  pub created_at : Timestamp
  pub completed_at : Option Timestamp
  pub failure_code : Option Text
  pub app_display_name : Text
  pub app_version : Option Text

abbrev pub has_id : Uuid → JobRow → Bool
has_id id j = j.id == id

-- app_id = ? AND device_id = ?
abbrev pub is_for : Uuid → Uuid → JobRow → Bool
is_for app_id device_id j = j.app_id == app_id && j.device_id == device_id

unfoldable pub active_job_exists : Database → Uuid → Uuid → Bool
unfolding is_active
active_job_exists db app_id device_id =
    any (λ j. is_for app_id device_id j && is_active j.phase) db.jobs

-- the row that `INSERT INTO jobs … SELECT … FROM apps` makes of an app
abbrev pub queued_job : Timestamp → Uuid → Uuid → Text → AppRow → JobRow
queued_job now id device_id device_label a = record {
  id = id;
  app_id = a.id;
  device_id = device_id;
  phase = queued;
  created_at = now;
  completed_at = none;
  progress_percent = none;
  device_label = device_label;
  failure_code = none;
  installed_bundle_id = none;
  app_display_name = a.display_name;
  app_version = a.app_version;
}

-- With no such app the SELECT is empty and the statement inserts nothing.
unfoldable pub insert_job : Timestamp → Uuid → Uuid → Uuid → Text → Database → Result Error Database
insert_job now id app_id device_id device_label db = elim (first (is_live_with_id app_id) db.apps) [
  | none ↦ ok db
  | some a ↦
      if any (has_id id) db.jobs
      then err constraint
      else ok (record db { jobs = db.jobs ++ queued_job now id device_id device_label a ∷ [] })
]

abbrev pub to_stored_job : (Uuid → Text) → JobRow → StoredJob
to_stored_job uuid_text j = record {
  id = j.id;
  app_id = j.app_id;
  device_id = j.device_id;
  phase = j.phase;
  progress_percent = j.progress_percent;
  device_label = j.device_label;
  created_at = j.created_at;
  completed_at = j.completed_at;
  failure_code = j.failure_code;
  app_display_name = Option.get_or j.app_display_name (uuid_text j.app_id);
  app_version = j.app_version;
}

unfoldable pub find_job : (Uuid → Text) → Database → Uuid → Option StoredJob
find_job uuid_text db id = Option.map (to_stored_job uuid_text) (first (has_id id) db.jobs)

unfoldable pub list_recent_jobs : (Uuid → Text) → Database → ℕ → List StoredJob
list_recent_jobs uuid_text db limit =
    map (to_stored_job uuid_text)
      (take limit (order_by (λ a b. leb b.created_at a.created_at) db.jobs))

-- matches!(phase, "succeeded" | "failed")
unfoldable pub is_finished : Phase → Bool
is_finished succeeded = true
is_finished failed = true
is_finished _ = false

abbrev pub with_status : Timestamp → Phase → Option ℕ → JobRow → JobRow
with_status now phase progress_percent j =
    if is_finished phase
    then record j { phase = phase; progress_percent = progress_percent; completed_at = some now }
    else record j { phase = phase; progress_percent = progress_percent }

unfoldable pub update_job_status : Timestamp → Uuid → Phase → Option ℕ → Database → Database
unfolding is_finished
update_job_status now id phase progress_percent db = record db {
  jobs = update (has_id id) (with_status now phase progress_percent) db.jobs;
}

unfoldable pub set_job_failure : Uuid → Text → Database → Database
set_job_failure id failure_code db = record db {
  jobs = update (has_id id) (λ j. record j { failure_code = some failure_code }) db.jobs;
}

unfoldable pub set_job_installed_bundle_id : Uuid → Text → Database → Database
set_job_installed_bundle_id id bundle_id db = record db {
  jobs = update (has_id id) (λ j. record j { installed_bundle_id = some bundle_id }) db.jobs;
}
