-- ===== src/Jobs/Create/Accepted.antt =====
-- The installation jobs that `create_install_job` accepts.
use i_phone_loadly.Common.{
  ◌≡◌, refl, Bool, true, false, Option, none, some, List, Text, first, Result, ok, err, Bool-cases,
  Option-cases, inl, inr,
}
use i_phone_loadly.Store.{Uuid, Timestamp, Database, Error}
use i_phone_loadly.Store.Apps.{app_path}
use i_phone_loadly.Store.Jobs.{insert_job}
use i_phone_loadly.Ipa.{AppPlatform, UploadError, Plist}
use i_phone_loadly.Ipa.Inspect.{app_platform}
use i_phone_loadly.Ipa.Platform.{installable_on_apple_tv}
use i_phone_loadly.Jobs.{DeviceSummary, is_device}
use i_phone_loadly.Jobs.Create.{
  CreateInstallJobRequest, CreateResponse, signing_not_ready, discovery_unavailable,
  device_not_found, platform_mismatched, app_not_found, accepted, is_apple_tv, mismatch, Storage,
  insert_reply, platform_mismatch, create_for, create_install_job,
}

-- No job is queued on a device of another platform than the archive's, if the archive names one.
abbrev pub Fits : Result UploadError AppPlatform → DeviceSummary → Type 0
Fits (err _) device = Unit
Fits (ok platform) device =
    installable_on_apple_tv platform (is_apple_tv device.device_class) ≡ true

abbrev pub is_accepted : CreateResponse → Bool
is_accepted (accepted id path) = true
is_accepted _ = false

-- What a response to the creation of a job says of the database.
pub data IsCreated (P : Plist) (storage : Storage) (now : Timestamp)
    (found : Option (List DeviceSummary)) (id : Uuid) (request : CreateInstallJobRequest)
    (db after : Database) : CreateResponse → Type 0 where
  queued :
      (devices : List DeviceSummary) (device : DeviceSummary) (path : Text)
      → found ≡ some devices
      → first (is_device request.device_id) devices ≡ some device
      → app_path db request.app_id ≡ some path
      → Fits (app_platform P (storage path)) device
      → insert_job now id request.app_id device.id device.display_name db ≡ ok after
      → IsCreated P storage now found id request db after (accepted id path)
  refused :
      (response : CreateResponse)
      → is_accepted response ≡ false
      → after ≡ db
      → IsCreated P storage now found id request db after response

mismatch-none :
    (platform : Result UploadError AppPlatform) (device : DeviceSummary)
    → mismatch platform device.device_class ≡ none
    → Fits platform device
unfolding mismatch
mismatch-none (err _) device h = tt
mismatch-none (ok platform) device h =
    elim (Bool-cases (installable_on_apple_tv platform (is_apple_tv device.device_class))) [
      | inl e ↦ e
      | inr e ↦ absurd (cc (rw e at h))
    ]

module _ (P : Plist) (storage : Storage) where
  abbrev Answers :
      Timestamp
      → Option (List DeviceSummary)
      → Uuid
      → CreateInstallJobRequest
      → Database
      → CreateResponse × Database
      → Type 0
  Answers now found id request db r = IsCreated P storage now found id request db r.1 r.0

  insert_reply-Answers :
      (now : Timestamp) (id : Uuid) (request : CreateInstallJobRequest)
      (devices : List DeviceSummary) (device : DeviceSummary) (path : Text) (db : Database)
      → first (is_device request.device_id) devices ≡ some device
      → app_path db request.app_id ≡ some path
      → Fits (app_platform P (storage path)) device
      → (m : Result Error Database)
      → insert_job now id request.app_id device.id device.display_name db ≡ m
      → Answers now (some devices) id request db (insert_reply id path db m)
  insert_reply-Answers now id request devices device path db d p f (ok after) e =
      queued devices device path refl d p f e
  insert_reply-Answers now id request devices device path db d p f (err _) e =
      refused app_not_found refl refl

  create_for-Answers :
      (now : Timestamp) (id : Uuid) (request : CreateInstallJobRequest)
      (devices : List DeviceSummary) (device : DeviceSummary) (db : Database)
      → first (is_device request.device_id) devices ≡ some device
      → Answers now
          (some devices)
          id
          request
          db
          (create_for P storage now id request.app_id device db)
  unfolding create_for platform_mismatch
  create_for-Answers now id request devices device db d =
      elim (Option-cases (app_path db request.app_id)) [
        | inl e ↦ rw (e, create_for) (refused app_not_found refl refl)
        | inr (path, e) ↦
            elim (Option-cases (mismatch (app_platform P (storage path)) device.device_class)) [
              | inr (text, f) ↦ rw (e, f, create_for) (refused (platform_mismatched text) refl refl)
              | inl f ↦
                  rw (e, f, create_for)
                    (insert_reply-Answers now id request devices device path db d e
                      (mismatch-none (app_platform P (storage path)) device f)
                      (insert_job now id request.app_id device.id device.display_name db) refl)
            ]
      ]

  -- A job is queued only for a device that was discovered, for an app that is there and whose archive
  -- is not of another platform than the device, and then it is the row of `insert_job`; any other
  -- response leaves the database as it was.
  pub create_install_job-IsCreated :
      (now : Timestamp) (is_ready : Bool) (found : Option (List DeviceSummary)) (id : Uuid)
      (request : CreateInstallJobRequest) (db : Database)
      → IsCreated P storage now found id request db
          (create_install_job P storage now is_ready found id request db).1
          (create_install_job P storage now is_ready found id request db).0
  unfolding create_install_job
  create_install_job-IsCreated now false found id request db = refused signing_not_ready refl refl
  create_install_job-IsCreated now true none id request db = refused discovery_unavailable refl refl
  create_install_job-IsCreated now true (some devices) id request db =
      elim (Option-cases (first (is_device request.device_id) devices)) [
        | inl e ↦ rw (e, create_install_job) (refused device_not_found refl refl)
        | inr (device, e) ↦
            rw (e, create_install_job) (create_for-Answers now id request devices device db e)
      ]
