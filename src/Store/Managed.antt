-- ===== src/Store/Managed.antt =====
-- Managed installations in store.rs: which successful jobs stand for an app on a device, and the
-- tombstones that take an installation out of management.
pub mod Forgetting
use mathlib.Core.Option
use i_phone_loadly.Common.{
  text_le, ℕ, ◌+◌, ◌-◌, ◌*◌, ◌/◌, Text, Bool, true, false, Option, none, some, List, [], ◌∷◌, ◌++◌,
  not, ◌&&◌, ◌||◌, ◌==◌, text_eq, any, leb, ltb, map, select, update, delete, order_by,
  if◌then◌else◌,
}
use i_phone_loadly.Store.{
  Uuid, Timestamp, AppRow, JobRow, UnmanagedRow, Database, is_none, is_succeeded, is_failed,
}
use i_phone_loadly.Store.Jobs.{is_for, active_job_exists}

-- FROM jobs JOIN apps ON apps.id = jobs.app_id
unfoldable pub join_apps : List AppRow → List JobRow → List (JobRow × AppRow)
join_apps apps [] = []
join_apps apps (j ∷ js) =
    map (λ a. (j, a)) (select (λ a. a.id == j.app_id) apps) ++ join_apps apps js

-- EXISTS (SELECT 1 FROM unmanaged_installations u WHERE …)
unfoldable pub is_unmanaged : Database → Uuid → Uuid → Bool
is_unmanaged db app_id device_id =
    any (λ u. u.app_id == app_id && u.device_id == device_id) db.unmanaged

abbrev pub later : Option Timestamp → Option Timestamp → Option Timestamp
later none u = u
later (some t) none = some t
later (some t) (some u) = if ltb t u then some u else some t

-- MAX(latest.completed_at), which skips NULLs and is NULL where nothing is left
unfoldable pub max_completed : List JobRow → Option Timestamp
max_completed [] = none
max_completed (j ∷ js) = later j.completed_at (max_completed js)

-- SQL's `=`, which is not true of a NULL
abbrev pub times_equal : Option Timestamp → Option Timestamp → Bool
times_equal none _ = false
times_equal (some t) none = false
times_equal (some t) (some u) = t == u

-- completed_at = (SELECT MAX(latest.completed_at) FROM jobs AS latest WHERE …)
unfoldable pub is_latest : Database → JobRow → Bool
unfolding max_completed is_succeeded
is_latest db j =
    times_equal j.completed_at
      (max_completed (select (λ l. is_for j.app_id j.device_id l && is_succeeded l.phase) db.jobs))

-- The conditions that the queries below share.
unfoldable pub is_current : Database → JobRow × AppRow → Bool
unfolding is_succeeded
is_current db (j, a) =
    is_succeeded j.phase
    && is_none a.deleted_at
    && not (is_unmanaged db j.app_id j.device_id)
    && is_latest db j

-- With an active job for the pair nothing is written.
unfoldable pub forget_managed_installation : Timestamp → Uuid → Uuid → Database → Bool × Database
unfolding active_job_exists
forget_managed_installation now app_id device_id db =
    if active_job_exists db app_id device_id then (false, db) else (
      true,
      record db {
        unmanaged =
            let old = λ (u : UnmanagedRow). u.app_id == app_id && u.device_id == device_id in
            if any old db.unmanaged
            then update old (λ u. record u { removed_at = now }) db.unmanaged
            else db.unmanaged
              ++ record { app_id = app_id; device_id = device_id; removed_at = now } ∷ [];
      },
    )

unfoldable pub restore_managed_installation : Uuid → Uuid → Database → Database
restore_managed_installation app_id device_id db = record db {
  unmanaged = delete (λ u. u.app_id == app_id && u.device_id == device_id) db.unmanaged;
}

pub record ManagedInstallation : Type 0 where
  pub app_id : Uuid
  pub device_id : Uuid
  pub app_display_name : Text
  pub app_version : Option Text
  pub device_label : Text

-- SQL's order of texts is that of their bytes, and NULL comes first.
abbrev name_le : Option Text → Option Text → Bool
name_le none _ = true
name_le (some s) none = false
name_le (some s) (some t) = text_le s t

abbrev listed_before : JobRow × AppRow → JobRow × AppRow → Bool
listed_before (j, a) (k, b) =
    if text_eq j.device_label k.device_label
    then name_le a.display_name b.display_name
    else text_le j.device_label k.device_label

-- COALESCE(apps.display_name, apps.bundle_id, apps.id)
abbrev shown_name : (Uuid → Text) → AppRow → Text
shown_name uuid_text a = Option.get_or a.display_name (Option.get_or a.bundle_id (uuid_text a.id))

unfoldable pub list_managed_installations : (Uuid → Text) → Database → List ManagedInstallation
unfolding join_apps is_current
list_managed_installations uuid_text db =
    map
      (λ (r : JobRow × AppRow). record {
        app_id = r.0.app_id;
        device_id = r.0.device_id;
        app_display_name = shown_name uuid_text r.1;
        app_version = r.1.app_version;
        device_label = r.0.device_label;
      })
      (order_by listed_before (select (is_current db) (join_apps db.apps db.jobs)))

pub record ManagedAppIdentity : Type 0 where
  pub installed_bundle_id : Option Text
  pub source_bundle_id : Option Text

abbrev option_text_eq : Option Text → Option Text → Bool
option_text_eq none none = true
option_text_eq (some s) (some t) = text_eq s t
option_text_eq _ _ = false

abbrev same_identity : ManagedAppIdentity → ManagedAppIdentity → Bool
same_identity i k =
    option_text_eq i.installed_bundle_id k.installed_bundle_id
    && option_text_eq i.source_bundle_id k.source_bundle_id

-- SELECT DISTINCT
unfoldable pub distinct : List ManagedAppIdentity → List ManagedAppIdentity
distinct [] = []
distinct (i ∷ is) = i ∷ delete (same_identity i) (distinct is)

-- Rows without an exact bundle identifier count only where no row of the pair has one.
abbrev identity_counts : Database → JobRow → Bool
identity_counts db j =
    not (is_none j.installed_bundle_id)
    || not (
        any
          (λ e.
            is_for j.app_id j.device_id e
            && is_succeeded e.phase
            && not (is_none e.installed_bundle_id))
          db.jobs)

unfoldable pub managed_app_identities : Database → Uuid → List ManagedAppIdentity
unfolding join_apps is_unmanaged is_succeeded distinct
managed_app_identities db device_id = distinct (
    map
      (λ (r : JobRow × AppRow). record {
        installed_bundle_id = r.0.installed_bundle_id;
        source_bundle_id = r.1.bundle_id;
      })
      (select
        (λ r.
          r.0.device_id == device_id
          && is_succeeded r.0.phase
          && not (is_unmanaged db r.0.app_id r.0.device_id)
          && identity_counts db r.0)
        (join_apps db.apps db.jobs)))
