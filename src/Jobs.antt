-- ===== src/Jobs.antt =====
-- The jobs of crates/iphoneloadly-api/src/main.rs: the handler `trigger_refresh`, which queues a job
-- for each installation that is due, and in the children the rest. The jobs that it starts run after
-- it.
pub mod Single
pub mod Devices
pub mod Run
pub mod Create
pub mod Tests
use i_phone_loadly.Common.{
  ℕ, ◌+◌, Text, Bool, true, false, Option, none, some, List, [], ◌∷◌, not, ◌==◌, any, codes, first,
  Result, ok, err, if◌then◌else◌,
}
use i_phone_loadly.Store.{Uuid, Timestamp, Database, Error}
use i_phone_loadly.Store.Jobs.{active_job_exists, insert_job}
use i_phone_loadly.Store.Refresh.{refresh_due_targets}
use i_phone_loadly.Store.Settings.{refresh_after_days}

pub data DeviceClass : Type 0 where
  iphone apple_tv : DeviceClass

-- A device that was discovered, less the connection type and the status, which have one value.
pub record DeviceSummary : Type 0 where
  pub id : Uuid
  pub display_name : Text
  pub product_type : Text
  pub ios_version : Text
  pub install_eligible : Bool
  pub device_class : DeviceClass

pub data TransportError : Type 0 where
  unavailable device_install_failed device_info_failed developer_team_failed : TransportError
  device_registration_failed ipa_signing_failed signed_metadata_failed : TransportError

-- The responses 409, 503 and 202, the last with the number of jobs.
pub data RefreshResponse : Type 0 where
  signing_not_ready discovery_unavailable : RefreshResponse
  accepted : ℕ → RefreshResponse

abbrev pub is_device : Uuid → DeviceSummary → Bool
is_device device_id device = device.id == device_id

abbrev pub label_of : List DeviceSummary → Uuid → Text
label_of devices device_id = elim (first (is_device device_id) devices) [
  | none ↦ codes "Trusted iPhone"
  | some device ↦ device.display_name
]

abbrev pub inserted : Database → Result Error Database → Bool × Database
inserted db (ok after) = (true, after)
inserted db (err _) = (false, db)

-- one turn of the loop: whether a job was queued
unfoldable pub queue_target :
    Timestamp → List DeviceSummary → Uuid → Uuid × Uuid × Text → Database → Bool × Database
queue_target now devices id (app_id, device_id, path) db =
    if not (any (is_device device_id) devices)
    then (false, db)
    else if active_job_exists db app_id device_id
    then (false, db)
    else inserted db (insert_job now id app_id device_id (label_of devices device_id) db)

-- the loop, with the identifiers of the turns
unfoldable pub queue_targets :
    Timestamp
    → List DeviceSummary
    → (ℕ → Uuid)
    → List (Uuid × Uuid × Text)
    → ℕ
    → ℕ
    → Database
    → ℕ × Database
unfolding queue_target
queue_targets now devices new_id [] turn queued db = (queued, db)
queue_targets now devices new_id (target ∷ targets) turn queued db =
    let (is_queued, after) = queue_target now devices (new_id turn) target db in
    queue_targets now devices new_id targets (turn + 1) (if is_queued then queued + 1 else queued)
      after

-- `devices` is none when the discovery fails.
unfoldable pub trigger_refresh :
    Timestamp
    → Bool
    → Option (List DeviceSummary)
    → (ℕ → Uuid)
    → Database
    → RefreshResponse × Database
unfolding queue_targets
trigger_refresh now is_ready devices new_id db =
    if not is_ready then (signing_not_ready, db) else elim devices [
      | none ↦ (discovery_unavailable, db)
      | some found ↦
          let (queued, after) =
            queue_targets now found new_id (refresh_due_targets now (refresh_after_days db) db) 0 0
              db in
          (accepted queued, after)
    ]
