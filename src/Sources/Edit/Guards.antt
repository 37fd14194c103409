-- ===== src/Sources/Edit/Guards.antt =====
-- What `create`, `update` and `automation` of sources.rs let through.
use i_phone_loadly.Common.{
  ℕ, ◌≡◌, ◌≢◌, codes, text_eq, ◌||◌, refl, sym, ap, ◌∙◌, Bool, true, false, Text, arith, Result, ok,
  err, Bool-cases, inl, inr, if◌then◌else◌,
}
use i_phone_loadly.Store.{Uuid, Timestamp, Database, Error}
use i_phone_loadly.Store.Sources.{insert_github_source}
use i_phone_loadly.Github.{GithubError, RepositoryRef}
use i_phone_loadly.Github.Repository.{parse_public_repository}
use i_phone_loadly.Github.Repository.Laws.{IsCanonical, parse_public_repository-IsCanonical}
use i_phone_loadly.Github.Assets.{validate_asset_pattern}
use i_phone_loadly.Sources.{
  SourceConfig, HeaderMap, action_allowed, error_response, github_error_code,
}
use i_phone_loadly.Sources.Edit.{create, is_link_broken, insert_reply}

pub error_response-status :
    (error : GithubError) (n : ℕ) → n ≢ 400 → n ≢ 502 → (error_response error).status ≢ n
unfolding error_response
error_response-status error n h k e = elim (Bool-cases is_bad) [
  | inl b ↦ absurd (h (sym e ∙ ap status_if b))
  | inr b ↦ absurd (k (sym e ∙ ap status_if b))
]
  where
    is_bad : Bool
    is_bad =
        text_eq (github_error_code error) (codes "invalid_repository")
        || text_eq (github_error_code error) (codes "invalid_asset_pattern")

    status_if : Bool → ℕ
    status_if b = if b then 400 else 502

-- What a request has passed when the source was created.
pub record IsCreated (uuid_text : Uuid → Text) (now : Timestamp) (id : Uuid) (headers : HeaderMap)
    (request : SourceConfig) (db after : Database) : Type 0 where
  pub repository : RepositoryRef
  pub allowed : action_allowed headers ≡ true
  pub parsed : parse_public_repository request.repository ≡ ok repository
  pub canonical : IsCanonical repository
  pub pattern : validate_asset_pattern request.asset_pattern ≡ ok tt
  pub linked : is_link_broken uuid_text db request.app_id ≡ false
  pub inserted :
      insert_github_source now id request.app_id repository.owner repository.repo
        request.asset_pattern request.include_prereleases db
      ≡ ok after

error_response-not_created : (error : GithubError) → (error_response error).status ≢ 201
error_response-not_created error =
    error_response-status error 201 (λ e. omega arith) (λ e. omega arith)

insert_reply-eq-ok :
    (uuid_text : Uuid → Text) (id : Uuid) (db : Database) (m : Result Error Database)
    → (insert_reply uuid_text id db m).0.status ≡ 201
    → m ≡ ok (insert_reply uuid_text id db m).1
insert_reply-eq-ok uuid_text id db (ok after) h = refl
insert_reply-eq-ok uuid_text id db (err _) h = absurd (omega (arith, h))

-- the statement that `create` makes
abbrev inserting :
    Timestamp → Uuid → SourceConfig → RepositoryRef → Database → Result Error Database
inserting now id request repository db =
    insert_github_source now id request.app_id repository.owner repository.repo
      request.asset_pattern request.include_prereleases db

-- A response 201 of `create` means that the request was allowed and its repository, pattern and
-- linked app were in order, and that the row was inserted.
pub create-IsCreated :
    (uuid_text : Uuid → Text) (now : Timestamp) (id : Uuid) (headers : HeaderMap)
    (request : SourceConfig) (db : Database)
    → (create uuid_text now id headers request db).0.status ≡ 201
    → IsCreated uuid_text now id headers request db (create uuid_text now id headers request db).1
unfolding create
create-IsCreated uuid_text now id headers request db h =
    go (action_allowed headers) (parse_public_repository request.repository)
      (validate_asset_pattern request.asset_pattern) (is_link_broken uuid_text db request.app_id)
      refl refl refl refl
  where
    go :
        (a : Bool) (r : Result GithubError RepositoryRef) (v : Result GithubError Unit) (l : Bool)
        → action_allowed headers ≡ a
        → parse_public_repository request.repository ≡ r
        → validate_asset_pattern request.asset_pattern ≡ v
        → is_link_broken uuid_text db request.app_id ≡ l
        → IsCreated uuid_text now id headers request db
            (create uuid_text now id headers request db).1
    go false r v l ea er ev el = absurd (omega (arith, rw (ea, create) at h))
    go true (err e) v l ea er ev el =
        absurd (error_response-not_created e (rw (ea, er, create) at h))
    go true (ok r) (err e) l ea er ev el =
        absurd (error_response-not_created e (rw (ea, er, ev, create) at h))
    go true (ok r) (ok u) true ea er ev el =
        absurd (omega (arith, rw (ea, er, ev, el, create) at h))
    go true (ok r) (ok u) false ea er ev el =
        rw (ea, er, ev, el, create)
          (record {
            repository = r;
            allowed = ea;
            parsed = er;
            canonical = parse_public_repository-IsCanonical request.repository r er;
            pattern = ev;
            linked = el;
            inserted =
                insert_reply-eq-ok uuid_text id db (inserting now id request r db)
                  (rw (ea, er, ev, el, create) at h);
          })
