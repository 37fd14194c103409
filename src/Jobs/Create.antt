-- ===== src/Jobs/Create.antt =====
-- `create_install_job` of main.rs, with `platform_mismatch`.
pub mod Accepted
use i_phone_loadly.Common.{
  ℕ, Text, Bool, true, false, not, Option, none, some, List, [], ◌∷◌, codes, first, Result, ok, err,
  if◌then◌else◌,
}
use i_phone_loadly.Store.{Uuid, Timestamp, Database, Error}
use i_phone_loadly.Store.Apps.{app_path}
use i_phone_loadly.Store.Jobs.{insert_job}
use i_phone_loadly.Ipa.{AppPlatform, UploadError, UploadFile, Plist}
use i_phone_loadly.Ipa.Inspect.{app_platform}
use i_phone_loadly.Ipa.Platform.{installable_on_apple_tv}
use i_phone_loadly.Jobs.{DeviceSummary, DeviceClass, iphone, apple_tv, is_device}

pub record CreateInstallJobRequest : Type 0 where
  pub app_id : Uuid
  pub device_id : Uuid

-- The responses 409, 503, 404, 422, 404 and 202.
pub data CreateResponse : Type 0 where
  signing_not_ready discovery_unavailable device_not_found : CreateResponse
  platform_mismatched : Text → CreateResponse
  app_not_found : CreateResponse
  accepted : Uuid → Text → CreateResponse

abbrev pub is_apple_tv : DeviceClass → Bool
is_apple_tv iphone = false
is_apple_tv apple_tv = true

abbrev mismatch_message : Bool → Text
mismatch_message true =
    codes "This IPA is built for iPhone and iPad and cannot be installed on Apple TV."
mismatch_message false = codes "This IPA is built for Apple TV and cannot be installed on iPhone."

-- An archive that cannot be read is let through.
unfoldable pub mismatch : Result UploadError AppPlatform → DeviceClass → Option Text
unfolding installable_on_apple_tv
mismatch (err _) device_class = none
mismatch (ok platform) device_class =
    if installable_on_apple_tv platform (is_apple_tv device_class)
    then none
    else some (mismatch_message (is_apple_tv device_class))

-- What the file system holds under a path.
abbrev pub Storage : Type 0
Storage = Text → UploadFile

abbrev insert_reply : Uuid → Text → Database → Result Error Database → CreateResponse × Database
insert_reply id path db (ok after) = (accepted id path, after)
insert_reply id path db (err _) = (app_not_found, db)

module _ (P : Plist) (storage : Storage) where
  unfoldable pub platform_mismatch : Text → DeviceClass → Option Text
  unfolding mismatch
  platform_mismatch path device_class = mismatch (app_platform P (storage path)) device_class

  -- the part of the handler under the lock that no deletion of an app passes
  unfoldable pub create_for :
      Timestamp → Uuid → Uuid → DeviceSummary → Database → CreateResponse × Database
  create_for now id app_id device db = elim (app_path db app_id) [
    | none ↦ (app_not_found, db)
    | some path ↦ elim (platform_mismatch path device.device_class) [
      | some message ↦ (platform_mismatched message, db)
      | none ↦ insert_reply id path db (insert_job now id app_id device.id device.display_name db)
    ]
  ]

  -- `devices` is none when the discovery fails. With a 202 the job runs on the path.
  unfoldable pub create_install_job :
      Timestamp
      → Bool
      → Option (List DeviceSummary)
      → Uuid
      → CreateInstallJobRequest
      → Database
      → CreateResponse × Database
  create_install_job now is_ready devices id request db =
      if not is_ready then (signing_not_ready, db) else elim devices [
        | none ↦ (discovery_unavailable, db)
        | some found ↦ elim (first (is_device request.device_id) found) [
          | none ↦ (device_not_found, db)
          | some device ↦ create_for now id request.app_id device db
        ]
      ]
