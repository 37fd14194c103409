-- ===== src/AppHandlers/Removal.antt =====
-- The removal of an app with its file.
use i_phone_loadly.Common.{◌≡◌, ◌≢◌, ◌⊎◌, refl, sym, ◌∙◌, inl, inr, true, Text, All, is_unique}
use i_phone_loadly.Store.{Uuid, Timestamp, Database}
use i_phone_loadly.Store.Apps.{
  AppDeletion, ready, active_job, not_found, mark_app_deleted, restore_app, clashes,
}
use i_phone_loadly.Store.Apps.Deletion.{
  IsRemoved, IsDetached, mark_app_deleted-ready, mark_app_deleted_refused,
  restore_app-mark_app_deleted,
}
use i_phone_loadly.AppHandlers.{
  FileRemoval, removed, already_missing, not_removed, Response, after_removal, after_deletion,
  delete_ipa,
}

-- What the answer to a removal says of the database.
pub data IsDeleted (id : Uuid) (remove : Text → FileRemoval) (before after : Database)
    : Response → Type 0 where
  deleted :
      (response : Response) (path : Text)
      → response.code ≡ 204
      → remove path ≢ not_removed
      → IsRemoved id path before after
      → IsDeleted id remove before after response
  kept :
      (response : Response) (path : Text)
      → response.code ≡ 500
      → remove path ≡ not_removed
      → after.apps ≡ before.apps
      → All (IsDetached id) after.sources
      → IsDeleted id remove before after response
  refused :
      (response : Response)
      → (response.code ≡ 404) ⊎ (response.code ≡ 409)
      → after ≡ before
      → IsDeleted id remove before after response

module _ (now : Timestamp) (id : Uuid) (remove : Text → FileRemoval) (db : Database) where
  abbrev Deleted : Response × Database → Type 0
  Deleted r = IsDeleted id remove db r.1 r.0

  restored :
      (path : Text)
      → (mark_app_deleted now id db).0 ≡ ready path
      → All (IsDetached id) (restore_app id (mark_app_deleted now id db).1).sources
  unfolding restore_app
  restored path e = (mark_app_deleted-ready now id path db e).detached

  after_removal-Deleted :
      (path : Text) (removal : FileRemoval)
      → is_unique clashes db.apps ≡ true
      → (mark_app_deleted now id db).0 ≡ ready path
      → remove path ≡ removal
      → Deleted (after_removal id removal (mark_app_deleted now id db).1)
  after_removal-Deleted path removed u e r =
      deleted _ path refl (λ h. taken (sym r ∙ h)) (mark_app_deleted-ready now id path db e)
    where
      taken : removed ≢ not_removed
      taken h = cc
  after_removal-Deleted path already_missing u e r =
      deleted _ path refl (λ h. gone (sym r ∙ h)) (mark_app_deleted-ready now id path db e)
    where
      gone : already_missing ≢ not_removed
      gone h = cc
  after_removal-Deleted path not_removed u e r =
      kept _ path refl r (restore_app-mark_app_deleted now id path db u e) (restored path e)

  -- While the ids, digests and paths of the apps are unique, a removal that answers 204 has taken the
  -- app away, and its file is gone. Where the file cannot be removed, the answer is 500 and the table
  -- of apps is as before, but the sources linked to the app do not download automatically any more.
  -- Any other answer is 404 or 409 and changes nothing.
  pub delete_ipa-IsDeleted :
      is_unique clashes db.apps ≡ true
      → IsDeleted id remove db (delete_ipa now id remove db).1 (delete_ipa now id remove db).0
  unfolding delete_ipa
  delete_ipa-IsDeleted u = go (mark_app_deleted now id db).0 refl
    where
      go :
          (o : AppDeletion)
          → (mark_app_deleted now id db).0 ≡ o
          → Deleted (after_deletion id remove (o, (mark_app_deleted now id db).1))
      go (ready path) e = after_removal-Deleted path (remove path) u e refl
      go active_job e =
          refused _ (inr refl)
            (mark_app_deleted_refused now id db (λ path h. absurd (cc (sym e ∙ h)))).0
      go not_found e =
          refused _ (inl refl)
            (mark_app_deleted_refused now id db (λ path h. absurd (cc (sym e ∙ h)))).0
