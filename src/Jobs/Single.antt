-- ===== src/Jobs/Single.antt =====
-- `trigger_refresh` of main.rs queues no second active job for an app on a device.
use i_phone_loadly.Common.{
  ℕ, ◌+◌, ◌≡◌, refl, sym, subst, Bool, true, false, Option, none, some, List, [], ◌∷◌, ◌++◌, Text,
  arith, any, any-append, is_unique, first, first_sound, ◌&&◌, Bool-cases, Option-cases, inl, inr,
  if◌then◌else◌,
}
use i_phone_loadly.Store.{Uuid, Timestamp, AppRow, JobRow, Database, is_active}
use i_phone_loadly.Store.Apps.{is_live_with_id}
use i_phone_loadly.Store.Jobs.{active_job_exists, insert_job, is_for, has_id, queued_job}
use i_phone_loadly.Store.Refresh.{refresh_due_targets}
use i_phone_loadly.Store.Settings.{refresh_after_days}
use i_phone_loadly.Jobs.{
  DeviceSummary, is_device, label_of, inserted, queue_target, queue_targets, trigger_refresh,
}

-- Two jobs are active for the same app and device.
abbrev pub rivals : JobRow → JobRow → Bool
rivals j k = is_for k.app_id k.device_id j && is_active j.phase && is_active k.phase

is_unique-append :
    (rows : List JobRow) (k : JobRow)
    → is_unique rivals rows ≡ true
    → any (λ j. rivals j k) rows ≡ false
    → is_unique rivals (rows ++ k ∷ []) ≡ true
unfolding is_unique
is_unique-append [] k h none_yet = refl
is_unique-append (j ∷ rows) k h none_yet =
    let rest = is_unique-append rows k (ground arith) (ground arith) in
    let all_of = any-append (rivals j) rows (k ∷ []) in ground arith

no_rival :
    (rows : List JobRow) (k : JobRow)
    → any (λ j. is_for k.app_id k.device_id j && is_active j.phase) rows ≡ false
    → any (λ j. rivals j k) rows ≡ false
no_rival [] k h = refl
no_rival (j ∷ rows) k h = let rest = no_rival rows k (ground arith) in ground arith

live_id : (app_id : Uuid) (a : AppRow) → is_live_with_id app_id a ≡ true → a.id ≡ app_id
live_id app_id a h = ground arith

insert_job-single :
    (now : Timestamp) (id app_id device_id : Uuid) (label : Text) (db : Database)
    → is_unique rivals db.jobs ≡ true
    → active_job_exists db app_id device_id ≡ false
    → is_unique rivals (inserted db (insert_job now id app_id device_id label db)).1.jobs ≡ true
unfolding insert_job active_job_exists
insert_job-single now id app_id device_id label db single idle =
    elim (Option-cases (first (is_live_with_id app_id) db.apps)) [
      | inl e ↦ rw (e, insert_job) single
      | inr (a, e) ↦ elim (Bool-cases (any (has_id id) db.jobs)) [
        | inl f ↦ rw (e, f, insert_job) single
        | inr f ↦
            let same = live_id app_id a (first_sound (is_live_with_id app_id) db.apps a e) in
            let k = queued_job now id device_id label a in
            let idle_app =
              subst (λ i. any (λ j. is_for i device_id j && is_active j.phase) db.jobs ≡ false)
                (sym same) idle in
            rw (e, f, insert_job) (is_unique-append db.jobs k single (no_rival db.jobs k idle_app))
      ]
    ]

queue_target-single :
    (now : Timestamp) (devices : List DeviceSummary) (id : Uuid) (target : Uuid × Uuid × Text)
    (db : Database)
    → is_unique rivals db.jobs ≡ true
    → is_unique rivals (queue_target now devices id target db).1.jobs ≡ true
unfolding queue_target
queue_target-single now devices id (app_id, device_id, path) db single =
    elim (Bool-cases (any (is_device device_id) devices)) [
      | inr e ↦ rw (e, queue_target) single
      | inl e ↦ elim (Bool-cases (active_job_exists db app_id device_id)) [
        | inl f ↦ rw (e, f, queue_target) single
        | inr f ↦
            rw (e, f, queue_target)
              (insert_job-single now id app_id device_id (label_of devices device_id) db single f)
      ]
    ]

queue_targets-single :
    (now : Timestamp) (devices : List DeviceSummary) (new_id : ℕ → Uuid)
    (targets : List (Uuid × Uuid × Text)) (turn queued : ℕ) (db : Database)
    → is_unique rivals db.jobs ≡ true
    → is_unique rivals (queue_targets now devices new_id targets turn queued db).1.jobs ≡ true
unfolding queue_targets
queue_targets-single now devices new_id [] turn queued db single = single
queue_targets-single now devices new_id (target ∷ targets) turn queued db single =
    let (is_queued, after) = queue_target now devices (new_id turn) target db in
    queue_targets-single now devices new_id targets (turn + 1)
      (if is_queued then queued + 1 else queued) after
      (queue_target-single now devices (new_id turn) target db single)

-- If no app has two active jobs on one device, then none has after `trigger_refresh` either, whatever
-- devices are found and whatever is due.
pub trigger_refresh-single :
    (now : Timestamp) (is_ready : Bool) (devices : Option (List DeviceSummary)) (new_id : ℕ → Uuid)
    (db : Database)
    → is_unique rivals db.jobs ≡ true
    → is_unique rivals (trigger_refresh now is_ready devices new_id db).1.jobs ≡ true
unfolding trigger_refresh
trigger_refresh-single now false devices new_id db single = single
trigger_refresh-single now true none new_id db single = single
trigger_refresh-single now true (some found) new_id db single =
    queue_targets-single now found new_id (refresh_due_targets now (refresh_after_days db) db) 0 0
      db single
