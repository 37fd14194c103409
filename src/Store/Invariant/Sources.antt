-- ===== src/Store/Invariant/Sources.antt =====
-- The statements on `github_sources` keep the invariant.
use mathlib.Core.Bool.{false≢true}
use i_phone_loadly.Common.{
  ok, ok-injective, guarded-eq-ok, checked-eq-ok, >>=-eq-ok, ◌≡◌, subst, Bool, true, false, Option,
  some, List, [], ◌∷◌, All, All-append, All-update, All-delete, update, count, ◌==◌, Text, ℕ, arith,
}
use i_phone_loadly.Store.{Uuid, Timestamp, constraint, SourceRow, Database}
use i_phone_loadly.Store.Sources.{
  has_id, new_source, insert_github_source, update_github_source, delete_github_source,
  link_github_source_app, record_source_check, set_source_automation, update_checked, reconfigured,
  checked, automated,
}
use i_phone_loadly.Store.Invariant.{IsConsistent, IsAcknowledged}

-- Only the rows of `sources` change.
pub with_sources :
    (db : Database) (rows : List SourceRow)
    → IsConsistent db
    → All IsAcknowledged rows
    → IsConsistent (record db { sources = rows })
with_sources db rows c h = record { acknowledged = h; live = c.live; stamped = c.stamped }

module _ (test : SourceRow → Bool) (change : SourceRow → SourceRow)
    (keep : (s : SourceRow) → IsAcknowledged s → IsAcknowledged (change s)) where
  pub update_sources :
      (db : Database)
      → IsConsistent db
      → IsConsistent (record db { sources = update test change db.sources })
  update_sources db c =
      with_sources db _ c
        (All-update IsAcknowledged test change db.sources (λ s _. keep s) c.acknowledged)

  update_checked-IsConsistent :
      (db : Database) {db' : Database}
      → IsConsistent db
      → update_checked test change db ≡ ok db'
      → IsConsistent db'
  update_checked-IsConsistent db c e =
      subst IsConsistent (checked-eq-ok _ constraint _ e) (update_sources db c)

pub set_source_automation-IsConsistent :
    (now : Timestamp) (id : Uuid) (enabled acknowledged : Bool) (db : Database)
    → IsConsistent db
    → IsConsistent (set_source_automation now id enabled acknowledged db).1
unfolding set_source_automation
set_source_automation-IsConsistent now id true false db c = c
set_source_automation-IsConsistent now id true true db c =
    update_sources (has_id id) (automated now true) (λ s h. ground arith) db c
set_source_automation-IsConsistent now id false a db c =
    update_sources (has_id id) (automated now false) (λ s h. ground arith) db c

pub record_source_check-IsConsistent :
    (now : Timestamp) (id : Uuid) (release_id : Option ℕ) (release_tag : Option Text)
    (asset_id : Option ℕ) (asset_name sha256 : Option Text) (status : Text)
    (error_code : Option Text) (db : Database)
    → IsConsistent db
    → IsConsistent (
        record_source_check now id release_id release_tag asset_id asset_name sha256 status
          error_code db)
unfolding record_source_check
record_source_check-IsConsistent now id release_id release_tag asset_id asset_name sha256 status
      error_code db c =
    update_sources (has_id id)
      (checked now release_id release_tag asset_id asset_name sha256 status error_code) (λ s h. h)
      db c

pub delete_github_source-IsConsistent :
    (id : Uuid) (db : Database) → IsConsistent db → IsConsistent (delete_github_source id db).1
unfolding delete_github_source
delete_github_source-IsConsistent id db c =
    with_sources db _ c (All-delete IsAcknowledged (has_id id) db.sources c.acknowledged)

pub link_github_source_app-IsConsistent :
    (now : Timestamp) (source_id app_id : Uuid) (db : Database) {db' : Database}
    → IsConsistent db
    → link_github_source_app now source_id app_id db ≡ ok db'
    → IsConsistent db'
unfolding link_github_source_app
link_github_source_app-IsConsistent now source_id app_id db c e =
    update_checked-IsConsistent (has_id source_id)
      (λ s. record s { app_id = some app_id; updated_at = now }) (λ s h. h) db c
      (guarded-eq-ok _ constraint _ e)

pub insert_github_source-IsConsistent :
    (now : Timestamp) (id : Uuid) (app_id : Option Uuid) (owner repo asset_pattern : Text)
    (include_prereleases : Bool) (db : Database) {db' : Database}
    → IsConsistent db
    → insert_github_source now id app_id owner repo asset_pattern include_prereleases db ≡ ok db'
    → IsConsistent db'
unfolding insert_github_source
insert_github_source-IsConsistent now id app_id owner repo asset_pattern include_prereleases db c
      e =
    let row = new_source now id app_id owner repo asset_pattern include_prereleases in
    let off : IsAcknowledged row = λ h. absurd (cc h) in
    subst IsConsistent (ok-injective (guarded-eq-ok _ constraint _ e)) (
      with_sources db _ c
        (All-append IsAcknowledged db.sources (row ∷ []) c.acknowledged (off, tt)))

pub update_github_source-IsConsistent :
    (now : Timestamp) (id : Uuid) (app_id : Option Uuid) (owner repo asset_pattern : Text)
    (include_prereleases : Bool) (db : Database) {result : Bool × Database}
    → IsConsistent db
    → update_github_source now id app_id owner repo asset_pattern include_prereleases db ≡ ok result
    → IsConsistent result.1
unfolding update_github_source
update_github_source-IsConsistent now id app_id owner repo asset_pattern include_prereleases db c
      e =
    let change = reconfigured now app_id owner repo asset_pattern include_prereleases in
    let (db', updated, same) =
      >>=-eq-ok (update_checked (has_id id) change db)
        (λ (d : Database). ok (count (has_id id) db.sources == 1, d))
        (guarded-eq-ok _ constraint _ e) in
    let kept =
      update_checked-IsConsistent (has_id id) change (λ s h off. absurd (false≢true off)) db c
        updated in
    subst (λ (r : Bool × Database). IsConsistent r.1) (ok-injective same) kept
