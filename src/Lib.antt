-- ===== src/Lib.antt =====
-- The verification library of iPhoneLoadly: the server crates/iphoneloadly-api, which keeps IPA
-- archives, installs them on devices and refreshes the installations before their signatures expire.
--
-- The parts that are modelled, and where:
--   * Store (crates/iphoneloadly-api/src/store.rs): the SQLite database. `Database` holds each table
--     as a list of its rows in the order of insertion; every public function of store.rs is a function on it
--     with the same name, in Store/Apps, Store/Jobs, Store/Sources, Store/Managed, Store/Refresh and
--     Store/Settings. SELECT, UPDATE and DELETE are `select`, `first`, `update` and `delete` of
--     Common/Tables, UNIQUE clauses are `clashes`, and a statement that fails returns the error of
--     `Result`. Store/Invariant lists the statements as the steps of a relation.
--   * Github (crates/iphoneloadly-api/src/github.rs): Github/Repository reads the names of
--     repositories, Github/Assets the patterns of assets, Github/Releases picks a release.
--   * Ipa (crates/iphoneloadly-api/src/ipa.rs): Ipa/Paths, Ipa/Platform and Ipa/Inspect are the
--     inspection of an uploaded or downloaded archive.
--   * Sources (crates/iphoneloadly-api/src/sources.rs): the handlers for GitHub sources, which use the
--     other three. A handler takes the request and the state and returns the response and the state.
--   * Registration (crates/iphoneloadly-api/src/registration_diagnostic.rs): the counts of device
--     identifiers that match, for the log.
--   * Install (crates/iphoneloadly-api/src/wireless_pairing.rs): the installation over a remote pairing.
--     Install/Identity identifies the device, Install/Plan plans the upload of the signed bundle and
--     Install/Upload copies it, Install/Execute is `execute_rsd_first_install`, Install/Outcome the
--     functions around it, and Install/Pipeline `install_remote_pairing_app` with both of its
--     sessions. What the device, the file system and the signing answer are arguments, and an upload
--     may be cut off after any of its calls; the calls of the device are a list.
--   * Jobs (crates/iphoneloadly-api/src/main.rs): `trigger_refresh`, which queues the due refreshes,
--     Jobs/Create `create_install_job`, Jobs/Run `run_install_job` and Jobs/Devices the devices.
--     The devices that are found, the state of the signing, the new UUIDs, what the transport reports
--     and what other requests do to the database meanwhile are arguments.
--   * AppHandlers (crates/iphoneloadly-api/src/main.rs): `delete_ipa` and `rename_app`.
--   * AppleTv (crates/iphoneloadly-api/src/apple_tv.rs): the session of a PIN pairing and its requests;
--     AppleTv/Steps adds the task of the session as a relation, AppleTv/Handlers the HTTP handlers.
--   * Wireless (crates/iphoneloadly-api/src/wireless_pairing.rs): the session of a wireless pairing;
--     Wireless/Steps adds its task as a relation, in which a start spawns the task before it stores the
--     session, and a task that was told to stop may go on before it ends.
--   * Common: text, lists, tables, results and their lemmas.
--
-- How the code corresponds:
--   * A UUID and an id of GitHub are natural numbers; the text of a UUID is the parameter `uuid_text`.
--     The time of a statement is the argument `now`, in seconds, and differences of `julianday` are
--     computed exactly on seconds.
--   * A `str` is the list of its code points; the offsets of `wildcard_match` count the bytes of their
--     UTF-8. `u64::saturating_add` and the slices that can panic are
--     written out; the sizes of an archive are natural numbers held to the limits of ipa.rs.
--   * A row that is deleted stays where the source keeps it. Foreign keys are enforced, as the bundled
--     SQLite does. Failures of a statement other than a broken constraint or an invalid argument, a
--     poisoned lock and the migration of an old database are not modelled.
--   * What the zip, plist and sha2 crates return is data of `UploadFile` and the record `Plist`; what
--     GitHub answers, what `download_asset` writes, whether a rename succeeds and what other requests
--     do meanwhile are fields of `Outside`. The files of the application directory are the list of
--     their paths.
--   * An instant of an installation and the time of a pairing are whole seconds. A task and the
--     requests that run beside it are the steps of a relation, one for each part under a lock.
--   * A loop is a recursion on its list. The queue of directories of an upload plan is read with fuel
--     for one directory more than the 20000 entries that a plan may have, since each directory but the
--     root is put off together with its entry.
--
-- Not modelled: the rest of main.rs (the routes, uploads, the dashboard) and jobs.rs; the pairing by
-- a PIN below apple_tv.rs, the storage of a pairing and the protocol of wireless_pairing.rs; the account
-- and the signing of signing.rs; update.rs of crates/iphoneloadly-api/src; the HTTP requests of
-- github.rs and `official_version`; `list` and `source_json` of sources.rs, which only print rows.
pub mod Common
pub mod Store
pub mod Github
pub mod Ipa
pub mod Sources
pub mod Registration
pub mod Install
pub mod AppleTv
pub mod Wireless
pub mod AppHandlers
pub mod Jobs
