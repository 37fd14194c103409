-- ===== src/Store/Refresh/Laws.antt =====
-- Which installations a refresh takes, against a description over the rows.
use mathlib.Core.Bool.{and-eq-true_iff}
use i_phone_loadly.Common.{
  ℕ, ◌+◌, ◌*◌, ◌≤◌, ◌≡◌, ◌↔◌, refl, Bool, true, false, Option, none, some, ◌&&◌, Text, select, In,
  In-map, In-map_sound, In-select_sound, In-select_complete, Option-cases, inl, inr, arith,
}
use i_phone_loadly.Store.{Uuid, Timestamp, AppRow, JobRow, Database, is_succeeded, is_none}
use i_phone_loadly.Store.Jobs.{is_for}
use i_phone_loadly.Store.Managed.{
  join_apps, is_unmanaged, is_latest, is_current, times_equal, max_completed,
}
use i_phone_loadly.Store.Refresh.{has_age, refresh_due_targets}
use i_phone_loadly.Store.Refresh.Latest.{
  max_completed_upper, max_completed_attained, max_completed-some, In-join_sound, In-join_complete,
}

-- The jobs of a pair that succeeded.
abbrev pub is_success_of : Uuid → Uuid → JobRow → Bool
is_success_of app_id device_id l = is_for app_id device_id l && is_succeeded l.phase

-- The job stands for its app on its device: it succeeded at `completed`, and no other did later.
pub record IsNewest (db : Database) (job : JobRow) (completed : Timestamp) : Type 0 where
  pub listed : In job db.jobs
  pub success : is_succeeded job.phase ≡ true
  pub stamped : job.completed_at ≡ some completed
  pub newest :
      (l : JobRow) (u : Timestamp)
      → In l db.jobs
      → is_success_of job.app_id job.device_id l ≡ true
      → l.completed_at ≡ some u
      → u ≤ completed

-- A target of a refresh after `after_days` days.
pub record IsDue (now : Timestamp) (after_days : ℕ) (db : Database) (target : Uuid × Uuid × Text)
    : Type 0 where
  pub job : JobRow
  pub app : AppRow
  pub completed : Timestamp
  pub is_newest : IsNewest db job completed
  pub app_listed : In app db.apps
  pub joined : app.id ≡ job.app_id
  pub kept : is_none app.deleted_at ≡ true
  pub managed : is_unmanaged db job.app_id job.device_id ≡ false
  pub old : completed + after_days * 86400 ≤ now
  pub named : target ≡ (job.app_id, job.device_id, app.storage_path)

is_latest_sound :
    (db : Database) (j : JobRow)
    → is_latest db j ≡ true
    → (t : Timestamp) × (j.completed_at ≡ some t)
      × (max_completed (select (is_success_of j.app_id j.device_id) db.jobs) ≡ some t)
unfolding is_latest
is_latest_sound db j h =
    times_equal_sound j.completed_at
      (max_completed (select (is_success_of j.app_id j.device_id) db.jobs)) h
  where
    times_equal_sound :
        (a b : Option Timestamp)
        → times_equal a b ≡ true
        → (t : Timestamp) × (a ≡ some t) × (b ≡ some t)
    times_equal_sound none b e = absurd (cc e)
    times_equal_sound (some t) none e = absurd (cc e)
    times_equal_sound (some t) (some u) e = (t, refl, ground arith)

is_latest-IsNewest :
    (db : Database) (j : JobRow)
    → In j db.jobs
    → is_succeeded j.phase ≡ true
    → is_latest db j ≡ true
    → (t : Timestamp) × IsNewest db j t
is_latest-IsNewest db j i s h =
    let (t, e, m) = is_latest_sound db j h in
    (
      t,
      record {
        listed = i;
        success = s;
        stamped = e;
        newest = λ l u k p c.
            max_completed_upper l u t (In-select_complete (is_success_of j.app_id j.device_id) k p)
              c m;
      },
    )

times_equal_complete :
    (t m : Timestamp) (a b : Option Timestamp)
    → a ≡ some t
    → b ≡ some m
    → t ≡ m
    → times_equal a b ≡ true
times_equal_complete t m none b h k e = absurd (cc h)
times_equal_complete t m (some x) none h k e = absurd (cc k)
times_equal_complete t m (some x) (some y) h k e = ground arith

IsNewest-is_latest :
    (db : Database) (j : JobRow) (t : Timestamp) → IsNewest db j t → is_latest db j ≡ true
unfolding is_latest
IsNewest-is_latest db j t n =
    let own : is_success_of j.app_id j.device_id j ≡ true = ground (arith, n.success) in
    let mine = In-select_complete (is_success_of j.app_id j.device_id) n.listed own in
    elim (Option-cases (max_completed (select (is_success_of j.app_id j.device_id) db.jobs))) [
      | inl e ↦ absurd (max_completed-some j t mine n.stamped e)
      | inr (m, e) ↦
          let (l, i, c) = max_completed_attained m _ e in
          let (k, p) = In-select_sound (is_success_of j.app_id j.device_id) db.jobs i in
          let below = n.newest l m k p c in
          let above = max_completed_upper j t m mine n.stamped e in
          times_equal_complete t m j.completed_at _ n.stamped e (omega arith)
    ]

-- The tests of the query, one by one.
current_parts :
    (db : Database) (r : JobRow × AppRow)
    → is_current db r ≡ true
    → (is_succeeded r.0.phase ≡ true)
      × (is_none r.1.deleted_at ≡ true)
      × (is_unmanaged db r.0.app_id r.0.device_id ≡ false)
      × (is_latest db r.0 ≡ true)
unfolding is_current
current_parts db (j, a) h = ground arith

current_of_parts :
    (db : Database) (r : JobRow × AppRow)
    → is_succeeded r.0.phase ≡ true
    → is_none r.1.deleted_at ≡ true
    → is_unmanaged db r.0.app_id r.0.device_id ≡ false
    → is_latest db r.0 ≡ true
    → is_current db r ≡ true
unfolding is_current
current_of_parts db (j, a) p q r s = rw (p, q, r, s)

has_age_iff :
    (now t seconds : ℕ) (j : JobRow)
    → j.completed_at ≡ some t
    → (has_age now seconds j ≡ true) ↔ (t + seconds ≤ now)
has_age_iff now t seconds j e = ground arith

IsDue-sound :
    (now : Timestamp) (after_days : ℕ) (db : Database) (target : Uuid × Uuid × Text)
    → In target (refresh_due_targets now after_days db)
    → IsDue now after_days db target
unfolding refresh_due_targets
IsDue-sound now after_days db target m =
    let (r, i, named) =
      In-map_sound
        (λ (r : JobRow × AppRow).
          let t : Uuid × Uuid × Text = (r.0.app_id, r.0.device_id, r.1.storage_path) in t)
        _ m in
    let (joined, passed) = In-select_sound _ (join_apps db.apps db.jobs) i in
    let (current, aged) = (and-eq-true_iff _ _).0 passed in
    let (job_in, app_in, same) = In-join_sound db.apps db.jobs r joined in
    let (s, k, u, latest) = current_parts db r current in
    let (t, newest) = is_latest-IsNewest db r.0 job_in s latest in
    record {
      job = r.0;
      app = r.1;
      completed = t;
      is_newest = newest;
      app_listed = app_in;
      joined = same;
      kept = k;
      managed = u;
      old = (has_age_iff now t (after_days * 86400) r.0 newest.stamped).0 aged;
      named = named;
    }

IsDue-complete :
    (now : Timestamp) (after_days : ℕ) (db : Database) (target : Uuid × Uuid × Text)
    → IsDue now after_days db target
    → In target (refresh_due_targets now after_days db)
unfolding refresh_due_targets
IsDue-complete now after_days db target d =
    let r : JobRow × AppRow = (d.job, d.app) in
    let latest = IsNewest-is_latest db d.job d.completed d.is_newest in
    let current = current_of_parts db r d.is_newest.success d.kept d.managed latest in
    let aged =
      (has_age_iff now d.completed (after_days * 86400) d.job d.is_newest.stamped).1 d.old in
    rw d.named (
      In-map
        (λ (r : JobRow × AppRow).
          let t : Uuid × Uuid × Text = (r.0.app_id, r.0.device_id, r.1.storage_path) in t)
        (In-select_complete
          (λ (r : JobRow × AppRow). is_current db r && has_age now (after_days * 86400) r.0)
          (In-join_complete db.apps d.job d.app d.is_newest.listed d.app_listed d.joined)
          ((and-eq-true_iff _ _).1 (current, aged))))

-- A target is returned exactly when it is due: the newest successful job of its app and device,
-- whose app is not deleted and which is still managed, completed at least that many days ago.
pub refresh_due_targets_iff :
    (now : Timestamp) (after_days : ℕ) (db : Database) (target : Uuid × Uuid × Text)
    → In target (refresh_due_targets now after_days db) ↔ IsDue now after_days db target
unfolding refresh_due_targets
refresh_due_targets_iff now after_days db target =
    (IsDue-sound now after_days db target, IsDue-complete now after_days db target)
