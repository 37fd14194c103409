-- ===== src/AppHandlers.antt =====
-- The handlers of crates/iphoneloadly-api/src/main.rs that remove and rename an app.
pub mod Removal
pub mod Tests
use i_phone_loadly.Common.{
  ℕ, Text, Bool, true, false, ◌||◌, Option, none, some, List, codes, length, any, ltb, trim,
  is_empty, is_ascii_control, if◌then◌else◌,
}
use i_phone_loadly.Store.{Uuid, Timestamp, Database}
use i_phone_loadly.Store.Apps
use i_phone_loadly.Store.Apps.{
  AppDeletion, ready, active_job, not_found, mark_app_deleted, restore_app,
}

-- What removing a file gives.
pub data FileRemoval : Type 0 where
  removed already_missing not_removed : FileRemoval

pub record Response : Type 0 where
  pub code : ℕ
  pub message : Option Text

abbrev pub reply : ℕ → Option Text → Response
reply code message = record { code = code; message = message }

-- the part after the file was to be removed
abbrev pub after_removal : Uuid → FileRemoval → Database → Response × Database
after_removal id not_removed db = (
  reply 500 (some (codes "Unable to remove the IPA file from server storage.")),
  restore_app id db,
)
after_removal id _ db = (reply 204 none, db)

abbrev pub after_deletion :
    Uuid → (Text → FileRemoval) → AppDeletion × Database → Response × Database
after_deletion id remove (ready path, db) = after_removal id (remove path) db
after_deletion id remove (active_job, db) = (
  reply 409
      (some (codes "This IPA cannot be removed while an installation or refresh job is active.")),
  db,
)
after_deletion id remove (not_found, db) =
    (reply 404 (some (codes "Uploaded IPA was not found.")), db)

-- `remove` is what the file system answers for a path.
unfoldable pub delete_ipa : Timestamp → Uuid → (Text → FileRemoval) → Database → Response × Database
delete_ipa now id remove db = after_deletion id remove (mark_app_deleted now id db)

unfoldable pub validate_display_name : Text → Option Text
validate_display_name value =
    if ltb 120 (length (trim value)) || any is_ascii_control (trim value)
    then none
    else some (trim value)

abbrev renamed : Bool × Database → Response × Database
renamed (true, db) = (reply 204 none, db)
renamed (false, db) = (reply 404 (some (codes "Uploaded IPA was not found.")), db)

unfoldable pub rename_app : Uuid → Text → Database → Response × Database
unfolding validate_display_name
rename_app id display_name db = elim (validate_display_name display_name) [
  | none ↦ (reply 400 (some (codes "Invalid display name.")), db)
  | some value ↦
      if is_empty value
      then (reply 400 (some (codes "Display name cannot be empty when renaming.")), db)
      else renamed (Apps.rename_app id value db)
]
