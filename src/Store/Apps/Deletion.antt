-- ===== src/Store/Apps/Deletion.antt =====
-- What a removal of an app does, and what it takes back.
use mathlib.Core.Option
use i_phone_loadly.Common.{
  ◌≡◌, ◌≢◌, refl, ap, ◌∙◌, true, false, none, some, List, [], ◌∷◌, not, ◌&&◌, Text, All, any, first,
  update, is_unique, Bool-cases, Option-cases, inl, inr, arith, ◌⊎◌,
}
use i_phone_loadly.Store.{Uuid, Timestamp, AppRow, SourceRow, Database, is_none}
use i_phone_loadly.Store.Apps.{
  has_id, is_live_with_id, is_linked_to, clashes, active_job_exists_for_app, app_path, AppDeletion,
  ready, active_job, not_found, drop_automation, stamp_deleted, delete_app_rows, mark_app_deleted,
  restore_app,
}

-- The three outcomes and when each comes about.
pub data Removal (now : Timestamp) (id : Uuid) (db : Database)
    : AppDeletion → Database → Type 0 where
  missing : app_path db id ≡ none → Removal now id db not_found db
  busy :
      (path : Text)
      → app_path db id ≡ some path
      → active_job_exists_for_app db id ≡ true
      → Removal now id db active_job db
  removed :
      (path : Text)
      → app_path db id ≡ some path
      → active_job_exists_for_app db id ≡ false
      → Removal now id db (ready path) (delete_app_rows now id db)

mark_app_deleted-Removal :
    (now : Timestamp) (id : Uuid) (db : Database)
    → Removal now id db (mark_app_deleted now id db).0 (mark_app_deleted now id db).1
unfolding mark_app_deleted
mark_app_deleted-Removal now id db = elim (Option-cases (app_path db id)) [
  | inl e ↦ rw (e, mark_app_deleted) (missing e)
  | inr (path, e) ↦ elim (Bool-cases (active_job_exists_for_app db id)) [
    | inl b ↦ rw (e, mark_app_deleted) (rw b (busy path e b))
    | inr q ↦ rw (e, mark_app_deleted) (rw q (removed path e q))
  ]
]

-- No source linked to the app downloads automatically.
abbrev pub IsDetached : Uuid → SourceRow → Type 0
IsDetached id s = (is_linked_to id s && s.auto_download) ≡ false

update-IsDetached :
    (now : Timestamp) (id : Uuid) (rows : List SourceRow)
    → All (IsDetached id) (update (is_linked_to id) (drop_automation now) rows)
unfolding update
update-IsDetached now id [] = tt
update-IsDetached now id (s ∷ ss) = (ground arith, update-IsDetached now id ss)

first_live_stamped :
    (now : Timestamp) (id : Uuid) (rows : List AppRow)
    → first (is_live_with_id id) (update (is_live_with_id id) (stamp_deleted now) rows) ≡ none
unfolding first update
first_live_stamped now id [] = refl
first_live_stamped now id (a ∷ rest) = ground (arith, first_live_stamped now id rest)

-- What a removal leaves behind.
pub record IsRemoved (id : Uuid) (path : Text) (before after : Database) : Type 0 where
  pub stored : app_path before id ≡ some path
  pub idle : active_job_exists_for_app before id ≡ false
  pub gone : app_path after id ≡ none
  pub detached : All (IsDetached id) after.sources
  pub others : (other : Uuid) → other ≢ id → app_path after other ≡ app_path before other
  pub jobs : after.jobs ≡ before.jobs

first_live_other :
    (now : Timestamp) (id other : Uuid) (rows : List AppRow)
    → other ≢ id
    → first (is_live_with_id other) (update (is_live_with_id id) (stamp_deleted now) rows)
      ≡ first (is_live_with_id other) rows
unfolding first update
first_live_other now id other [] ne = refl
first_live_other now id other (a ∷ rest) ne = ground (arith, first_live_other now id other rest ne)

delete_app_rows-IsRemoved :
    (now : Timestamp) (id : Uuid) (path : Text) (db : Database)
    → app_path db id ≡ some path
    → active_job_exists_for_app db id ≡ false
    → IsRemoved id path db (delete_app_rows now id db)
unfolding app_path
delete_app_rows-IsRemoved now id path db e q = record {
  stored = e;
  idle = q;
  gone = rw (first_live_stamped now id db.apps);
  detached = update-IsDetached now id db.sources;
  others = λ other ne. rw (first_live_other now id other db.apps ne);
  jobs = refl;
}

-- A removal that reports a path had that app and no active job of it; afterwards the app is gone,
-- the sources linked to it no longer download automatically, and jobs and other apps are as before.
pub mark_app_deleted-ready :
    (now : Timestamp) (id : Uuid) (path : Text) (db : Database)
    → (mark_app_deleted now id db).0 ≡ ready path
    → IsRemoved id path db (mark_app_deleted now id db).1
mark_app_deleted-ready now id path db h = go (mark_app_deleted-Removal now id db) h
  where
    go :
        {o : AppDeletion} {after : Database}
        → Removal now id db o after
        → o ≡ ready path
        → IsRemoved id path db after
    go (missing e) h = absurd (cc h)
    go (busy p e b) h = absurd (cc h)
    go (removed p e q) h =
        let same : p ≡ path = cc h in delete_app_rows-IsRemoved now id path db (e ∙ ap some same) q

-- A refused removal changes nothing, and says whether the app is missing or has an active job.
pub mark_app_deleted_refused :
    (now : Timestamp) (id : Uuid) (db : Database)
    → ((path : Text) → (mark_app_deleted now id db).0 ≢ ready path)
    → ((mark_app_deleted now id db).1 ≡ db)
      × (((mark_app_deleted now id db).0 ≡ not_found) × (app_path db id ≡ none)
          ⊎ ((mark_app_deleted now id db).0 ≡ active_job)
            × (active_job_exists_for_app db id ≡ true))
mark_app_deleted_refused now id db h = go (mark_app_deleted-Removal now id db) h
  where
    go :
        {o : AppDeletion} {after : Database}
        → Removal now id db o after
        → ((path : Text) → o ≢ ready path)
        → (after ≡ db)
          × ((o ≡ not_found) × (app_path db id ≡ none)
              ⊎ (o ≡ active_job) × (active_job_exists_for_app db id ≡ true))
    go (missing e) h = (refl, inl (refl, e))
    go (busy p e b) h = (refl, inr (refl, b))
    go (removed p e q) h = absurd (h p refl)

-- No row of the id but live ones: what unique identifiers and one live row give.
abbrev IsLiveIfNamed : Uuid → AppRow → Type 0
IsLiveIfNamed id a = (has_id id a && not (is_none a.deleted_at)) ≡ false

no_namesake :
    (id : Uuid) (a : AppRow) (rows : List AppRow)
    → a.id ≡ id
    → any (clashes a) rows ≡ false
    → All (IsLiveIfNamed id) rows
no_namesake id a [] e h = tt
no_namesake id a (b ∷ rest) e h = (ground arith, no_namesake id a rest e (ground arith))

first_live-clash :
    (id : Uuid) (path : Text) (a : AppRow) (rows : List AppRow)
    → a.id ≡ id
    → any (clashes a) rows ≡ false
    → Option.map (λ r. r.storage_path) (first (is_live_with_id id) rows) ≢ some path
unfolding first
first_live-clash id path a [] e h k = cc
first_live-clash id path a (b ∷ rest) e h k =
    first_live-clash id path a rest e (ground arith) (ground arith)

All-live :
    (id : Uuid) (path : Text) (rows : List AppRow)
    → is_unique clashes rows ≡ true
    → Option.map (λ r. r.storage_path) (first (is_live_with_id id) rows) ≡ some path
    → All (IsLiveIfNamed id) rows
unfolding first is_unique
All-live id path [] u e = tt
All-live id path (a ∷ rest) u e = elim (Bool-cases (has_id id a)) [
  | inl h ↦ elim (Bool-cases (is_none a.deleted_at)) [
    | inl k ↦ (ground arith, no_namesake id a rest (ground arith) (ground arith))
    | inr k ↦ absurd (first_live-clash id path a rest (ground arith) (ground arith) (ground arith))
  ]
  | inr h ↦ (ground arith, All-live id path rest (ground arith) (ground arith))
]

restore-stamped :
    (now : Timestamp) (id : Uuid) (rows : List AppRow)
    → All (IsLiveIfNamed id) rows
    → update
        (has_id id)
        (λ a. record a { deleted_at = none })
        (update (is_live_with_id id) (stamp_deleted now) rows)
      ≡ rows
unfolding update
restore-stamped now id [] h = refl
restore-stamped now id (a ∷ rest) h = ground (arith, restore-stamped now id rest h.1)

-- An app that was removed while the ids, digests and paths of the apps are unique is restored as it
-- was: the table of apps is then as before the removal.
pub restore_app-mark_app_deleted :
    (now : Timestamp) (id : Uuid) (path : Text) (db : Database)
    → is_unique clashes db.apps ≡ true
    → (mark_app_deleted now id db).0 ≡ ready path
    → (restore_app id (mark_app_deleted now id db).1).apps ≡ db.apps
unfolding restore_app app_path
restore_app-mark_app_deleted now id path db u h = go (mark_app_deleted-Removal now id db) h
  where
    go :
        {o : AppDeletion} {after : Database}
        → Removal now id db o after
        → o ≡ ready path
        → (restore_app id after).apps ≡ db.apps
    go (missing e) h = absurd (cc h)
    go (busy p e b) h = absurd (cc h)
    go (removed p e q) h = restore-stamped now id db.apps (All-live id p db.apps u e)
