-- ===== src/Store/Managed/Forgetting.antt =====
-- Taking an installation out of management and back.
use i_phone_loadly.Common.{
  ◌*◌, ◌≡◌, refl, sym, ◌∙◌, ap, Bool, true, false, List, [], ◌∷◌, ◌&&◌, ◌||◌, not, ◌==◌, ℕ, Text,
  map, any, any-append, select, update, delete, Bool-cases, inl, inr, arith,
}
use i_phone_loadly.Store.{Uuid, Timestamp, JobRow, AppRow, UnmanagedRow, Database}
use i_phone_loadly.Store.Jobs.{active_job_exists}
use i_phone_loadly.Store.Managed.{
  is_unmanaged, is_current, is_latest, join_apps, forget_managed_installation,
  restore_managed_installation,
}
use i_phone_loadly.Store.Refresh.{refresh_due_targets, has_age}

-- the test of a tombstone, and of a pair that a query returns
abbrev is_pair : Uuid → Uuid → UnmanagedRow → Bool
is_pair app_id device_id u = u.app_id == app_id && u.device_id == device_id

any-update_pair :
    (now : Timestamp) (app_id device_id a d : Uuid) (rows : List UnmanagedRow)
    → any
        (is_pair a d)
        (update (is_pair app_id device_id) (λ u. record u { removed_at = now }) rows)
      ≡ any (is_pair a d) rows
unfolding update
any-update_pair now app_id device_id a d [] = refl
any-update_pair now app_id device_id a d (u ∷ us) =
    ground (arith, any-update_pair now app_id device_id a d us)

any-delete_pair :
    (app_id device_id a d : Uuid) (rows : List UnmanagedRow)
    → any (is_pair a d) (delete (is_pair app_id device_id) rows)
      ≡ any (is_pair a d) rows && not (a == app_id && d == device_id)
unfolding delete
any-delete_pair app_id device_id a d [] = refl
any-delete_pair app_id device_id a d (u ∷ us) =
    ground (arith, any-delete_pair app_id device_id a d us)

any_pair :
    (app_id device_id a d : Uuid) (rows : List UnmanagedRow)
    → any (is_pair app_id device_id) rows ≡ true
    → any (is_pair a d) rows ≡ any (is_pair a d) rows || a == app_id && d == device_id
any_pair app_id device_id a d [] h = cc
any_pair app_id device_id a d (u ∷ us) h = ground (arith, any_pair app_id device_id a d us)

-- The pair is unmanaged afterwards, and every other pair is as it was.
pub is_unmanaged-forget :
    (now : Timestamp) (app_id device_id a d : Uuid) (db : Database)
    → active_job_exists db app_id device_id ≡ false
    → is_unmanaged (forget_managed_installation now app_id device_id db).1 a d
      ≡ is_unmanaged db a d || a == app_id && d == device_id
unfolding is_unmanaged forget_managed_installation
is_unmanaged-forget now app_id device_id a d db idle =
    elim (Bool-cases (any (is_pair app_id device_id) db.unmanaged)) [
      | inl old ↦
          rw (idle, forget_managed_installation)
            (rw old (
              any-update_pair now app_id device_id a d db.unmanaged
              ∙ any_pair app_id device_id a d db.unmanaged old))
      | inr new ↦
          rw (idle, forget_managed_installation)
            (rw new (any-append (is_pair a d) db.unmanaged _ ∙ ground arith))
    ]

pub is_unmanaged-restore :
    (app_id device_id a d : Uuid) (db : Database)
    → is_unmanaged (restore_managed_installation app_id device_id db) a d
      ≡ is_unmanaged db a d && not (a == app_id && d == device_id)
unfolding is_unmanaged restore_managed_installation
is_unmanaged-restore app_id device_id a d db = any-delete_pair app_id device_id a d db.unmanaged

-- A selection by a stronger test is a selection of the rows that the weaker one returns.
map-select_and {ℓ κ} :
    {A : Type ℓ} {B : Type κ} (f : A → B) (p' p : A → Bool) (q : B → Bool)
    → ((r : A) → p' r ≡ p r && q (f r))
    → (rows : List A) → map f (select p' rows) ≡ select q (map f (select p rows))
unfolding select
map-select_and f p' p q h [] = refl
map-select_and f p' p q h (r ∷ rs) = elim (Bool-cases (p r)) [
  | inl e ↦ elim (Bool-cases (q (f r))) [
    | inl k ↦ rw (h r, e, k) (ap (λ l. f r ∷ l) (map-select_and f p' p q h rs))
    | inr k ↦ rw (h r, e, k) (map-select_and f p' p q h rs)
  ]
  | inr e ↦ rw (h r, e) (map-select_and f p' p q h rs)
]

is_latest-unmanaged :
    (db : Database) (rows : List UnmanagedRow) (j : JobRow)
    → is_latest (record db { unmanaged = rows }) j ≡ is_latest db j
unfolding is_latest
is_latest-unmanaged db rows j = refl

is_current_unmanaged :
    (now : Timestamp) (after_days : ℕ) (db : Database) (rows : List UnmanagedRow)
    (q : Uuid → Uuid → Bool) (r : JobRow × AppRow)
    → is_unmanaged (record db { unmanaged = rows }) r.0.app_id r.0.device_id
      ≡ is_unmanaged db r.0.app_id r.0.device_id || q r.0.app_id r.0.device_id
    → is_current (record db { unmanaged = rows }) r && has_age now (after_days * 86400) r.0
      ≡ (is_current db r && has_age now (after_days * 86400) r.0)
        && not (q r.0.app_id r.0.device_id)
unfolding is_current
is_current_unmanaged now after_days db rows q (j, a) h =
    ground (arith, is_latest-unmanaged db rows j)

-- Tombstones for the pairs of `q` take those pairs, and no others, out of the targets.
refresh_due_targets-unmanaged :
    (now : Timestamp) (after_days : ℕ) (db : Database) (rows : List UnmanagedRow)
    (q : Uuid → Uuid → Bool)
    → ((a d : Uuid)
        → is_unmanaged (record db { unmanaged = rows }) a d ≡ is_unmanaged db a d || q a d)
    → refresh_due_targets now after_days (record db { unmanaged = rows })
      ≡ select (λ (t : Uuid × Uuid × Text). not (q t.0 t.1)) (refresh_due_targets now after_days db)
unfolding refresh_due_targets
refresh_due_targets-unmanaged now after_days db rows q h =
    map-select_and (λ (r : JobRow × AppRow). (r.0.app_id, r.0.device_id, r.1.storage_path)) _ _
      (λ (t : Uuid × Uuid × Text). not (q t.0 t.1))
      (λ r. is_current_unmanaged now after_days db rows q r (h r.0.app_id r.0.device_id))
      (join_apps db.apps db.jobs)

abbrev pub target_is : Uuid → Uuid → Uuid × Uuid × Text → Bool
target_is app_id device_id t = t.0 == app_id && t.1 == device_id

-- Only the tombstones change.
forget-eq :
    (now : Timestamp) (app_id device_id : Uuid) (db : Database)
    → (forget_managed_installation now app_id device_id db).1
      ≡ record db { unmanaged = (forget_managed_installation now app_id device_id db).1.unmanaged }
unfolding forget_managed_installation
forget-eq now app_id device_id db = elim (Bool-cases (active_job_exists db app_id device_id)) [
  | inl e ↦ rw (e, forget_managed_installation)
  | inr e ↦ rw (e, forget_managed_installation)
]

-- After an installation without an active job is forgotten, the targets of a refresh are those of
-- before, less its own.
pub refresh_due_targets-forget :
    (now later : Timestamp) (after_days : ℕ) (app_id device_id : Uuid) (db : Database)
    → active_job_exists db app_id device_id ≡ false
    → refresh_due_targets later after_days (forget_managed_installation now app_id device_id db).1
      ≡ select (λ t. not (target_is app_id device_id t)) (refresh_due_targets later after_days db)
refresh_due_targets-forget now later after_days app_id device_id db idle =
    rw (forget-eq now app_id device_id db) (
      refresh_due_targets-unmanaged later after_days db
        (forget_managed_installation now app_id device_id db).1.unmanaged
        (λ a d. a == app_id && d == device_id)
        (λ a d.
          ap (λ (x : Database). is_unmanaged x a d) (sym (forget-eq now app_id device_id db))
          ∙ is_unmanaged-forget now app_id device_id a d db idle))
