-- ===== src/Store/Refresh.antt =====
-- The queries of store.rs over the age of an installation: which ones are due for a refresh, which
-- deserve attention, and for how many days a signature is still valid.
mod Latest
pub mod Laws
use mathlib.Core.Option
use i_phone_loadly.Common.{
  ℕ, ◌+◌, ◌-◌, ◌*◌, ◌/◌, Text, Bool, true, false, Option, none, some, List, [], ◌∷◌, ◌++◌, not,
  ◌&&◌, ◌||◌, ◌==◌, any, leb, ltb, map, select, order_by, if◌then◌else◌,
}
use i_phone_loadly.Store.{Uuid, Timestamp, AppRow, JobRow, Database, is_failed}
use i_phone_loadly.Store.Jobs.{is_for}
use i_phone_loadly.Store.Managed.{join_apps, is_current}

-- (julianday('now') - julianday(completed_at)) * 86400 >= seconds
abbrev pub has_age : Timestamp → ℕ → JobRow → Bool
has_age now seconds j = elim j.completed_at [ none ↦ false | some t ↦ leb (t + seconds) now ]

unfoldable pub refresh_due_targets : Timestamp → ℕ → Database → List (Uuid × Uuid × Text)
unfolding join_apps is_current
refresh_due_targets now after_days db =
    map (λ (r : JobRow × AppRow). (r.0.app_id, r.0.device_id, r.1.storage_path))
      (select (λ r. is_current db r && has_age now (after_days * 86400) r.0)
        (join_apps db.apps db.jobs))

pub record RefreshAttention : Type 0 where
  pub app_id : Uuid
  pub device_label : Text
  pub age_hours : ℕ
  pub retry_failed : Bool

abbrev age : Timestamp → JobRow → ℕ
age now j = elim j.completed_at [ none ↦ 0 | some t ↦ now - t ]

abbrev failed_since : JobRow → JobRow → Bool
failed_since j f = elim j.completed_at [ none ↦ false | some t ↦ ltb t f.created_at ]

unfoldable pub refresh_attention : Timestamp → ℕ → Database → List RefreshAttention
unfolding join_apps is_current is_failed
refresh_attention now after_days db =
    map
      (λ (r : JobRow × AppRow). record {
        app_id = r.0.app_id;
        device_label = r.0.device_label;
        age_hours = age now r.0 / 3600;
        retry_failed =
            any (λ f. is_for r.0.app_id r.0.device_id f && is_failed f.phase && failed_since r.0 f)
              db.jobs;
      })
      (select (λ r. is_current db r && has_age now ((after_days - 1) * 24 * 3600) r.0)
        (join_apps db.apps db.jobs))

pub record InstallationValidity : Type 0 where
  pub app_id : Uuid
  pub device_label : Text
  pub remaining_days : ℕ
  pub completed_at : Timestamp

-- MAX(0, CAST((168 - age in hours + 23) / 24 AS INTEGER)), where the age may be negative
unfoldable pub remaining_days : Timestamp → Timestamp → ℕ
remaining_days now completed_at = (191 * 3600 + completed_at - now) / 86400

unfoldable pub validity_of : Timestamp → JobRow → InstallationValidity
unfolding remaining_days
validity_of now j =
    let completed_at : Timestamp = Option.get_or j.completed_at 0 in
    record {
      app_id = j.app_id;
      device_label = j.device_label;
      remaining_days = remaining_days now completed_at;
      completed_at = completed_at;
    }

unfoldable pub installation_validity : Timestamp → Database → List InstallationValidity
unfolding join_apps is_current validity_of
installation_validity now db =
    order_by (λ v w. leb w.completed_at v.completed_at)
      (map (λ (r : JobRow × AppRow). validity_of now r.0)
        (select (is_current db) (join_apps db.apps db.jobs)))
