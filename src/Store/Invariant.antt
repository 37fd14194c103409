-- ===== src/Store/Invariant.antt =====
-- The invariant of the store, kept by every statement of store.rs.
mod Apps
mod Jobs
mod Sources
mod Other
pub mod Reach
use i_phone_loadly.Common.{◌≡◌, Bool, true, false, List, All, any, ◌&&◌, ◌==◌}
use i_phone_loadly.Store.{AppRow, JobRow, SourceRow, Database, is_none, is_active, Uuid}
use i_phone_loadly.Store.Apps.{is_live_with_id}
use i_phone_loadly.Store.Jobs.{has_id, is_finished}

-- Automatic downloads are on only where the warning has been acknowledged.
abbrev pub IsAcknowledged : SourceRow → Type 0
IsAcknowledged s = s.auto_download ≡ true → is_none s.auto_acknowledged_at ≡ false

-- An unfinished job belongs to an app that has not been deleted.
abbrev pub HasLiveApp : List AppRow → JobRow → Type 0
HasLiveApp apps j = is_active j.phase ≡ true → any (is_live_with_id j.app_id) apps ≡ true

-- A finished job has the time at which it finished.
abbrev pub IsStamped : JobRow → Type 0
IsStamped j = is_finished j.phase ≡ true → is_none j.completed_at ≡ false

pub record IsConsistent (db : Database) : Type 0 where
  pub acknowledged : All IsAcknowledged db.sources
  pub live : All (HasLiveApp db.apps) db.jobs
  pub stamped : All IsStamped db.jobs

-- Every job of this id is unfinished.
abbrev pub IsUnfinished : Uuid → JobRow → Type 0
IsUnfinished id j = has_id id j ≡ true → is_active j.phase ≡ true
