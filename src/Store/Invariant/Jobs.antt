-- ===== src/Store/Invariant/Jobs.antt =====
-- The statements on `jobs` keep the invariant.
use i_phone_loadly.Common.{
  ok, ok-injective, guarded-eq-ok, ◌≡◌, refl, subst, true, Option, some, List, [], ◌∷◌, ◌++◌, All,
  All-append, All-update, All-map, All-map₂, any, first, first_sound, first-any, update, Text, ℕ,
  arith, Bool-cases, Option-cases, inl, inr,
}
use i_phone_loadly.Store.{Uuid, Timestamp, Phase, constraint, AppRow, JobRow, Database}
use i_phone_loadly.Store.Apps.{is_live_with_id}
use i_phone_loadly.Store.Jobs.{
  has_id, is_finished, queued_job, insert_job, with_status, update_job_status, set_job_failure,
  set_job_installed_bundle_id,
}
use i_phone_loadly.Store.Invariant.{IsConsistent, HasLiveApp, IsStamped, IsUnfinished}

-- Only the rows of `jobs` change.
with_jobs :
    (db : Database) (rows : List JobRow)
    → IsConsistent db
    → All (HasLiveApp db.apps) rows
    → All IsStamped rows
    → IsConsistent (record db { jobs = rows })
with_jobs db rows c live stamped = record {
  acknowledged = c.acknowledged;
  live = live;
  stamped = stamped;
}

queued_job-HasLiveApp :
    (now : Timestamp) (id app_id device_id : Uuid) (device_label : Text) (apps : List AppRow)
    (a : AppRow)
    → first (is_live_with_id app_id) apps ≡ some a
    → HasLiveApp apps (queued_job now id device_id device_label a)
queued_job-HasLiveApp now id app_id device_id device_label apps a e active =
    let found = first-any (is_live_with_id app_id) apps a e in
    let live = first_sound (is_live_with_id app_id) apps a e in
    let same : a.id ≡ app_id = ground arith in rw same found

pub insert_job-IsConsistent :
    (now : Timestamp) (id app_id device_id : Uuid) (device_label : Text) (db : Database)
    {db' : Database}
    → IsConsistent db
    → insert_job now id app_id device_id device_label db ≡ ok db'
    → IsConsistent db'
unfolding insert_job is_finished
insert_job-IsConsistent now id app_id device_id device_label db c e =
    elim (Option-cases (first (is_live_with_id app_id) db.apps)) [
      | inl missing ↦ subst IsConsistent (ok-injective (rw (missing, insert_job) at e)) c
      | inr (a, found) ↦
          let row = queued_job now id device_id device_label a in
          let live = queued_job-HasLiveApp now id app_id device_id device_label db.apps a found in
          subst IsConsistent
            (ok-injective
              (guarded-eq-ok (any (has_id id) db.jobs) constraint _ (rw (found, insert_job) at e)))
            (with_jobs db (db.jobs ++ row ∷ []) c
              (All-append (HasLiveApp db.apps) db.jobs (row ∷ []) c.live (live, tt))
              (All-append IsStamped db.jobs (row ∷ []) c.stamped ((λ h. absurd (cc h)), tt)))
    ]

-- A live app whatever the phase: what an unfinished job has.
abbrev HasApp : List AppRow → Uuid → JobRow → Type 0
HasApp apps id j =
    HasLiveApp apps j × (has_id id j ≡ true → any (is_live_with_id j.app_id) apps ≡ true)

with_status-HasApp :
    (now : Timestamp) (id : Uuid) (phase : Phase) (progress_percent : Option ℕ) (apps : List AppRow)
    (j : JobRow)
    → has_id id j ≡ true
    → HasApp apps id j
    → HasApp apps id (with_status now phase progress_percent j)
with_status-HasApp now id phase progress_percent apps j this h =
    elim (Bool-cases (is_finished phase)) [
      | inl e ↦ rw e ((λ _. h.1 this), h.1)
      | inr e ↦ rw e ((λ _. h.1 this), h.1)
    ]

with_status-IsStamped :
    (now : Timestamp) (phase : Phase) (progress_percent : Option ℕ) (j : JobRow)
    → IsStamped (with_status now phase progress_percent j)
with_status-IsStamped now phase progress_percent j = elim (Bool-cases (is_finished phase)) [
  | inl e ↦ rw e (λ _. refl)
  | inr e ↦ rw e (λ h. absurd (cc (e, h)))
]

-- A job that is not finished may take any phase.
pub update_job_status-IsConsistent :
    (now : Timestamp) (id : Uuid) (phase : Phase) (progress_percent : Option ℕ) (db : Database)
    → IsConsistent db
    → All (IsUnfinished id) db.jobs
    → IsConsistent (update_job_status now id phase progress_percent db)
unfolding update_job_status
update_job_status-IsConsistent now id phase progress_percent db c unfinished =
    with_jobs db (update (has_id id) (with_status now phase progress_percent) db.jobs) c
      (All-map (update (has_id id) (with_status now phase progress_percent) db.jobs) (λ j h. h.0)
        (All-update (HasApp db.apps id) (has_id id) (with_status now phase progress_percent) db.jobs
          (λ j. with_status-HasApp now id phase progress_percent db.apps j)
          (All-map₂ db.jobs (λ j live open_job. (live, λ this. live (open_job this))) c.live
            unfinished)))
      (All-update IsStamped (has_id id) (with_status now phase progress_percent) db.jobs
        (λ j _ h. with_status-IsStamped now phase progress_percent j) c.stamped)

pub set_job_failure-IsConsistent :
    (id : Uuid) (failure_code : Text) (db : Database)
    → IsConsistent db
    → IsConsistent (set_job_failure id failure_code db)
unfolding set_job_failure
set_job_failure-IsConsistent id failure_code db c =
    with_jobs db (update (has_id id) (λ j. record j { failure_code = some failure_code }) db.jobs) c
      (All-update (HasLiveApp db.apps) (has_id id) _ db.jobs (λ j _ h. h) c.live)
      (All-update IsStamped (has_id id) _ db.jobs (λ j _ h. h) c.stamped)

pub set_job_installed_bundle_id-IsConsistent :
    (id : Uuid) (bundle_id : Text) (db : Database)
    → IsConsistent db
    → IsConsistent (set_job_installed_bundle_id id bundle_id db)
unfolding set_job_installed_bundle_id
set_job_installed_bundle_id-IsConsistent id bundle_id db c =
    with_jobs db
      (update (has_id id) (λ j. record j { installed_bundle_id = some bundle_id }) db.jobs) c
      (All-update (HasLiveApp db.apps) (has_id id) _ db.jobs (λ j _ h. h) c.live)
      (All-update IsStamped (has_id id) _ db.jobs (λ j _ h. h) c.stamped)
