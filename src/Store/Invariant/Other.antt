-- ===== src/Store/Invariant/Other.antt =====
-- The statements on the other tables keep the invariant.
use i_phone_loadly.Common.{ok, checked-eq-ok, ◌≡◌, subst, ℕ, Bool-cases, inl, inr}
use i_phone_loadly.Store.{Uuid, Timestamp, invalid_query, Database}
use i_phone_loadly.Store.Jobs.{active_job_exists}
use i_phone_loadly.Store.Managed.{forget_managed_installation, restore_managed_installation}
use i_phone_loadly.Store.Settings.{in_range, set_refresh_after_days}
use i_phone_loadly.Store.Invariant.{IsConsistent}

pub forget_managed_installation-IsConsistent :
    (now : Timestamp) (app_id device_id : Uuid) (db : Database)
    → IsConsistent db
    → IsConsistent (forget_managed_installation now app_id device_id db).1
unfolding forget_managed_installation
forget_managed_installation-IsConsistent now app_id device_id db c =
    elim (Bool-cases (active_job_exists db app_id device_id)) [
      | inl e ↦ rw (e, forget_managed_installation) c
      | inr e ↦
          rw (e, forget_managed_installation)
            (record { acknowledged = c.acknowledged; live = c.live; stamped = c.stamped })
    ]

pub restore_managed_installation-IsConsistent :
    (app_id device_id : Uuid) (db : Database)
    → IsConsistent db
    → IsConsistent (restore_managed_installation app_id device_id db)
unfolding restore_managed_installation
restore_managed_installation-IsConsistent app_id device_id db c = record {
  acknowledged = c.acknowledged;
  live = c.live;
  stamped = c.stamped;
}

pub set_refresh_after_days-IsConsistent :
    (after_days : ℕ) (db : Database) {db' : Database}
    → IsConsistent db
    → set_refresh_after_days after_days db ≡ ok db'
    → IsConsistent db'
unfolding set_refresh_after_days
set_refresh_after_days-IsConsistent after_days db c e =
    subst IsConsistent (checked-eq-ok (in_range after_days) invalid_query _ e)
      (record { acknowledged = c.acknowledged; live = c.live; stamped = c.stamped })
