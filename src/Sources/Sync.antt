-- ===== src/Sources/Sync.antt =====
-- The handler `sync` of sources.rs: a download of each source that is automatic.
use i_phone_loadly.Common.{
  ℕ, ◌+◌, Text, Bool, List, [], ◌∷◌, not, ◌&&◌, ◌==◌, codes, leb, select, map, if◌then◌else◌,
}
use i_phone_loadly.Store.{Uuid}
use i_phone_loadly.Store.Sources.{list_github_sources}
use i_phone_loadly.Ipa.{Plist}
use i_phone_loadly.Sources.{
  HeaderMap, Response, reply, message, synced, action_allowed, action_required,
}
use i_phone_loadly.Sources.Download.{World, Outside, download}

-- The counters `updated`, `unchanged` and `failed`.
pub record Counts : Type 0 where
  pub updated : ℕ
  pub unchanged : ℕ
  pub failed : ℕ

-- StatusCode::is_success
abbrev is_success : ℕ → Bool
is_success status = leb 200 status && leb status 299

unfoldable pub counted : ℕ → Counts → Counts
counted status c =
    if status == 208
    then record c { unchanged = c.unchanged + 1 }
    else if is_success status
    then record c { updated = c.updated + 1 }
    else record c { failed = c.failed + 1 }

abbrev pub zeros : Counts
zeros = record { updated = 0; unchanged = 0; failed = 0 }

module _ (P : Plist) (apps_dir : Text) (uuid_text : Uuid → Text) where
  -- the loop; each download has an outside of its own
  unfoldable pub sync_all :
      (Uuid → Outside) → HeaderMap → List Uuid → Counts → World → Counts × World
  unfolding counted
  sync_all o headers [] c w = (c, w)
  sync_all o headers (id ∷ ids) c w =
      let (response, after) = download P apps_dir uuid_text (o id) id headers w in
      sync_all o headers ids (counted response.status c) after

  -- The first flag tells whether another synchronization holds the lock.
  unfoldable pub sync : Bool → (Uuid → Outside) → HeaderMap → World → Response × World
  unfolding action_allowed sync_all
  sync is_running o headers w =
      if not (action_allowed headers)
      then (action_required, w)
      else if is_running
      then (reply 409 (message (codes "Source synchronization is already running.")), w)
      else let ids = map (λ s. s.id) (select (λ s. s.auto_download) (list_github_sources w.db)) in
        let (c, after) = sync_all o headers ids zeros w in
        (reply 200 (synced c.updated c.failed c.unchanged), after)
