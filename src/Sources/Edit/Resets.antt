-- ===== src/Sources/Edit/Resets.antt =====
-- What `update` of sources.rs leaves of the automation of a source.
use i_phone_loadly.Common.{
  ◌≡◌, ◌≢◌, refl, sym, ap, ◌∙◌, Bool, true, false, List, [], ◌∷◌, Text, arith, All, Result, ok, err,
  ok-injective, >>=-eq-ok, ◌>>=◌, guarded-eq-ok, Bool-cases, inl, inr, update, is_unique, any, not,
  ◌&&◌, count, ◌==◌,
}
use i_phone_loadly.Store.{Uuid, Timestamp, Database, Error, SourceRow, constraint}
use i_phone_loadly.Store.Sources.{
  update_github_source, update_checked, reconfigured, has_id, refers, clashes,
}
use i_phone_loadly.Github.{GithubError, RepositoryRef}
use i_phone_loadly.Github.Repository.{parse_public_repository}
use i_phone_loadly.Github.Assets.{validate_asset_pattern}
use i_phone_loadly.Sources.{SourceConfig, HeaderMap, action_allowed, error_response}
use i_phone_loadly.Sources.Edit
use i_phone_loadly.Sources.Edit.{is_link_broken, update_reply}
use i_phone_loadly.Sources.Edit.Guards.{error_response-status}

-- A source with the settings of the request, its repository as the request spells it, that is not
-- automatic.
pub record IsReset (request : SourceConfig) (s : SourceRow) : Type 0 where
  pub repository : RepositoryRef
  pub parsed : parse_public_repository request.repository ≡ ok repository
  pub owner : s.owner ≡ repository.owner
  pub repo : s.repo ≡ repository.repo
  pub manual : s.auto_download ≡ false
  pub app_id : s.app_id ≡ request.app_id
  pub asset_pattern : s.asset_pattern ≡ request.asset_pattern
  pub include_prereleases : s.include_prereleases ≡ request.include_prereleases

-- The settings of the request in a row.
abbrev configured : Timestamp → SourceConfig → RepositoryRef → SourceRow → SourceRow
configured now request r =
    reconfigured now request.app_id r.owner r.repo request.asset_pattern request.include_prereleases

All-configured :
    (now : Timestamp) (id : Uuid) (request : SourceConfig) (r : RepositoryRef)
    (rows : List SourceRow)
    → parse_public_repository request.repository ≡ ok r
    → All
        (λ s. has_id id s ≡ true → IsReset request s)
        (update (has_id id) (configured now request r) rows)
unfolding update
All-configured now id request r [] p = tt
All-configured now id request r (s ∷ rows) p = elim (Bool-cases (has_id id s)) [
  | inl e ↦ rw e (
    λ _. record {
      repository = r;
      parsed = p;
      owner = refl;
      repo = refl;
      manual = refl;
      app_id = refl;
      asset_pattern = refl;
      include_prereleases = refl;
    },
    All-configured now id request r rows p,
  )
  | inr e ↦ rw e (λ h. absurd (cc (sym e ∙ h)), All-configured now id request r rows p)
]

-- the statement that `update` makes
abbrev updating :
    Timestamp → Uuid → SourceConfig → RepositoryRef → Database → Result Error (Bool × Database)
updating now id request r db =
    update_github_source now id request.app_id r.owner r.repo request.asset_pattern
      request.include_prereleases db

updating-sources :
    (now : Timestamp) (id : Uuid) (request : SourceConfig) (r : RepositoryRef) (db : Database)
    (one : Bool) (after : Database)
    → updating now id request r db ≡ ok (one, after)
    → after.sources ≡ update (has_id id) (configured now request r) db.sources
unfolding update_github_source
updating-sources now id request r db one after h =
    let rows = update (has_id id) (configured now request r) db.sources in
    let changed_one = count (has_id id) db.sources == 1 in
    let step : Database → Result Error (Bool × Database) = λ d. ok (changed_one, d) in
    let checked = update_checked (has_id id) (configured now request r) db in
    let statement =
      guarded-eq-ok (any (has_id id) db.sources && not (refers db request.app_id)) constraint
        (checked >>= step) h in
    let (db', k, l) = >>=-eq-ok checked step statement in
    let pair : ◌≡◌ {A = Bool × Database} (changed_one, db') (one, after) = ok-injective l in
    let same : db' ≡ after = ap (λ p. p.1) pair in
    elim (Bool-cases (is_unique clashes rows)) [
      | inl e ↦ sym (ap (λ d. d.sources) (ok-injective (rw e at k) ∙ same))
      | inr e ↦ absurd (cc (rw e at k))
    ]

update_reply-eq-ok :
    (uuid_text : Uuid → Text) (db : Database) (m : Result Error (Bool × Database))
    → (update_reply uuid_text db m).0.status ≡ 204
    → m ≡ ok (true, (update_reply uuid_text db m).1)
update_reply-eq-ok uuid_text db (ok (true, after)) h = refl
update_reply-eq-ok uuid_text db (ok (false, after)) h = absurd (omega (arith, h))
update_reply-eq-ok uuid_text db (err _) h = absurd (omega (arith, h))

not_changed : (e : GithubError) → (error_response e).status ≢ 204
not_changed e = error_response-status e 204 (λ k. omega arith) (λ k. omega arith)

-- After a response 204 of `update` every source of the id has the repository that the request names
-- and the other settings of the request, and downloads nothing by itself until its automation is switched on again.
pub update-IsReset :
    (uuid_text : Uuid → Text) (now : Timestamp) (id : Uuid) (headers : HeaderMap)
    (request : SourceConfig) (db : Database)
    → (Edit.update uuid_text now id headers request db).0.status ≡ 204
    → All
        (λ s. has_id id s ≡ true → IsReset request s)
        (Edit.update uuid_text now id headers request db).1.sources
unfolding Edit.update
update-IsReset uuid_text now id headers request db h =
    go (action_allowed headers) (parse_public_repository request.repository)
      (validate_asset_pattern request.asset_pattern) (is_link_broken uuid_text db request.app_id)
      refl refl refl refl
  where
    go :
        (a : Bool) (r : Result GithubError RepositoryRef) (v : Result GithubError Unit) (l : Bool)
        → action_allowed headers ≡ a
        → parse_public_repository request.repository ≡ r
        → validate_asset_pattern request.asset_pattern ≡ v
        → is_link_broken uuid_text db request.app_id ≡ l
        → All
            (λ s. has_id id s ≡ true → IsReset request s)
            (Edit.update uuid_text now id headers request db).1.sources
    go false r v l ea er ev el = absurd (omega (arith, rw (ea, Edit.update) at h))
    go true r v true ea er ev el = absurd (omega (arith, rw (ea, el, Edit.update) at h))
    go true (err e) v false ea er ev el = absurd (not_changed e (rw (ea, el, er, Edit.update) at h))
    go true (ok r) (err e) false ea er ev el =
        absurd (not_changed e (rw (ea, el, er, ev, Edit.update) at h))
    go true (ok r) (ok u) false ea er ev el =
        let done =
          update_reply-eq-ok uuid_text db (updating now id request r db)
            (rw (ea, el, er, ev, Edit.update) at h) in
        rw (ea, el, er, ev, Edit.update)
          (rw (updating-sources now id request r db true _ done)
            (All-configured now id request r db.sources er))
