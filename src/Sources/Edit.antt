-- ===== src/Sources/Edit.antt =====
-- The handlers `create`, `update`, `remove` and `automation` of sources.rs.
pub mod Guards
pub mod Resets
use i_phone_loadly.Common.{
  ℕ, Text, Bool, true, false, Option, none, some, List, [], ◌∷◌, not, ◌&&◌, ◌||◌, ◌==◌, codes,
  Result, ok, err, if◌then◌else◌,
}
use i_phone_loadly.Store.{Uuid, Timestamp, Database, Error, is_none}
use i_phone_loadly.Store.Apps.{find_app}
use i_phone_loadly.Store.Sources.{
  insert_github_source, update_github_source, delete_github_source, set_source_automation,
}
use i_phone_loadly.Github.Repository.{parse_public_repository}
use i_phone_loadly.Github.Assets.{validate_asset_pattern}
use i_phone_loadly.Sources.{
  SourceConfig, AutomationRequest, HeaderMap, Response, reply, empty, message, coded, created,
  action_allowed, action_required, error_response, source_not_found, linked_not_found,
}

module _ (uuid_text : Uuid → Text) where
  -- whether the request links an app that is not there
  abbrev pub is_link_broken : Database → Option Uuid → Bool
  is_link_broken db none = false
  is_link_broken db (some app_id) = is_none (find_app uuid_text db app_id)

  abbrev pub insert_reply : Uuid → Database → Result Error Database → Response × Database
  insert_reply id db (ok after) = (reply 201 (created id), after)
  insert_reply id db (err _) = (
    reply 409 (coded (codes "source_exists") (codes "This source configuration already exists.")),
    db,
  )

  unfoldable pub create :
      Timestamp → Uuid → HeaderMap → SourceConfig → Database → Response × Database
  create now id headers request db =
      if not (action_allowed headers)
      then (action_required, db)
      else elim (parse_public_repository request.repository) [
        | err error ↦ (error_response error, db)
        | ok repository ↦ elim (validate_asset_pattern request.asset_pattern) [
          | err error ↦ (error_response error, db)
          | ok _ ↦
              if is_link_broken db request.app_id
              then (linked_not_found, db)
              else insert_reply id db (
                  insert_github_source now id request.app_id repository.owner repository.repo
                    request.asset_pattern request.include_prereleases db)
        ]
      ]

  abbrev pub update_reply : Database → Result Error (Bool × Database) → Response × Database
  update_reply db (ok (true, after)) = (reply 204 empty, after)
  update_reply db (ok (false, after)) = (source_not_found, after)
  update_reply db (err _) = (reply 409 (message (codes "Unable to update GitHub source.")), db)

  unfoldable pub update :
      Timestamp → Uuid → HeaderMap → SourceConfig → Database → Response × Database
  update now id headers request db =
      if not (action_allowed headers)
      then (action_required, db)
      else if is_link_broken db request.app_id
      then (linked_not_found, db)
      else elim (parse_public_repository request.repository) [
        | err error ↦ (error_response error, db)
        | ok repository ↦ elim (validate_asset_pattern request.asset_pattern) [
          | err error ↦ (error_response error, db)
          | ok _ ↦ update_reply db (
              update_github_source now id request.app_id repository.owner repository.repo
                request.asset_pattern request.include_prereleases db)
        ]
      ]

-- the response to a statement that reports whether it changed a row
abbrev changed_reply : Bool × Database → Response × Database
changed_reply (true, after) = (reply 204 empty, after)
changed_reply (false, after) = (source_not_found, after)

unfoldable pub remove : Uuid → HeaderMap → Database → Response × Database
remove id headers db =
    if not (action_allowed headers)
    then (action_required, db)
    else changed_reply (delete_github_source id db)

unfoldable pub automation :
    Timestamp → Uuid → HeaderMap → AutomationRequest → Database → Response × Database
automation now id headers request db =
    if not (action_allowed headers)
    then (action_required, db)
    else if request.enabled && not request.acknowledged_security_warning
    then (
      reply 400 (
          coded (codes "security_acknowledgement_required") (
            codes
              "Read and acknowledge the source security warning before enabling automatic downloads.")),
      db,
    )
    else changed_reply
        (set_source_automation now id request.enabled request.acknowledged_security_warning db)
