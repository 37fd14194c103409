-- ===== src/Wireless/Steps.antt =====
-- `run_pairing` and `finalize_new_pairing` of wireless_pairing.rs, the task of a session, as steps between
-- those of the requests: the task looks up its session, accepts a device, shakes hands with it, and
-- commits the pairing. A start spawns the task before it stores the session. A task that a request has
-- told to stop may go on before it ends. The advertisement of a session is dropped in the step that
-- writes its phase.
use i_phone_loadly.Common.{
  Text, Bool, true, false, ◌||◌, Option, none, some, ◌==◌, ◌≡◌, codes, Result, ok, err,
  if◌then◌else◌,
}
use i_phone_loadly.Store.{Uuid, Timestamp}
use i_phone_loadly.Wireless.{
  PairingError, PairingSessionStatus, SessionRuntime, WirelessPairingService,
  TransportVerificationResult, Commitment, awaiting_code_entry, failed, expired, start_wireless,
  store_session, status, cancel, record_transport_result, set_phase, finish, set_setup_code,
  finalize, is_saved_by,
}

-- Where the task of an identifier is.
pub data Point : Type 0 where
  absent spawned accepting handshaking committing ended : Point

-- The session, the tasks, and the status of a start whose task is spawned and that has not stored the
-- session yet.
pub record World : Type 0 where
  pub service : WirelessPairingService
  pub points : Uuid → Point
  pub starting : Option PairingSessionStatus

abbrev pub moved : Uuid → Point → (Uuid → Point) → Uuid → Point
moved id point points other = if other == id then point else points other

abbrev pub spawn : Uuid → Result PairingError PairingSessionStatus → (Uuid → Point) → Uuid → Point
spawn id (ok _) points = moved id spawned points
spawn id (err _) points = points

abbrev pub started : Result PairingError PairingSessionStatus → Option PairingSessionStatus
started (ok status) = some status
started (err _) = none

-- after a start of the session `id` with this reply
abbrev pub begun :
    Uuid → Result PairingError PairingSessionStatus × WirelessPairingService → World → World
begun id reply v = record {
  service = reply.1;
  points = spawn id reply.0 v.points;
  starting = started reply.0;
}

-- after a request that starts no task
abbrev pub requested : WirelessPairingService → World → World
requested after v = record v { service = after }

abbrev pub altered :
    (SessionRuntime → SessionRuntime) → Option SessionRuntime → Option SessionRuntime
altered change none = none
altered change (some r) = some (change r)

-- A change of the session `id` only.
abbrev pub on_own : Uuid → (SessionRuntime → SessionRuntime) → SessionRuntime → SessionRuntime
on_own id change r = if r.status.id == id then change r else r

-- A task goes on only where its session is there.
abbrev pub if_found : Uuid → Point → Option SessionRuntime → Point
if_found id point none = ended
if_found id point (some r) = if r.status.id == id then point else ended

-- A write of the task of the session `id`.
abbrev pub written : Uuid → (SessionRuntime → SessionRuntime) → Point → World → World
written id change point v = record v {
  service = record v.service { session = altered (on_own id change) v.service.session };
  points = moved id point v.points;
}

abbrev pub saved_in : Uuid → Commitment → Option SessionRuntime → Bool
saved_in id commitment none = false
saved_in id commitment (some r) = if r.status.id == id then is_saved_by commitment r else false

-- The end of the task, which may save the pairing.
abbrev pub finalized : Uuid → Commitment → World → World
finalized id commitment v =
    let w = written id (finalize commitment) ended v in
    record w {
      service = record w.service {
        is_saved = v.service.is_saved || saved_in id commitment v.service.session;
      };
    }

abbrev pub gone : Text
gone = codes "The wireless pairing session expired."

-- The identifier of a new session is new, and a lock keeps a start out while another one is under way.
-- A start whose request is dropped does not store its session.
pub data Step (v : World) : World → Type 0 where
  begins :
      (is_enabled : Bool) (checked_at now : Timestamp) (id : Uuid) (failure : Option PairingError)
      → v.starting ≡ none
      → v.points id ≡ absent
      → Step v (begun id (start_wireless is_enabled checked_at now id failure v.service) v)
  stores :
      (given : PairingSessionStatus)
      → v.starting ≡ some given
      → Step v (record v { service = store_session given v.service; starting = none })
  drops : Step v (record v { starting = none })
  asks : (now : Timestamp) (id : Uuid) → Step v (requested (status now id v.service).1 v)
  cancels : (id : Uuid) → Step v (requested (cancel id v.service).1 v)
  records :
      (id : Uuid) (result : TransportVerificationResult)
      → Step v (requested (record_transport_result id result v.service).1 v)
  looks :
      (now : Timestamp) (id : Uuid)
      → v.points id ≡ spawned
      → Step v (record (requested (status now id v.service).1 v) {
        points = moved id (if_found id accepting v.service.session) v.points;
      })
  misses : (id : Uuid) → v.points id ≡ accepting → Step v (written id (finish expired gone) ended v)
  accepts :
      (id : Uuid)
      → v.points id ≡ accepting
      → Step v (
          written id
            (set_phase awaiting_code_entry
              (codes "The iPhone or iPad is completing wireless pairing.")
              none)
            (if_found id handshaking v.service.session)
            v)
  shows_code :
      (id : Uuid) (code : Text)
      → v.points id ≡ handshaking
      → Step v (written id (set_setup_code code) handshaking v)
  is_refused :
      (id : Uuid)
      → v.points id ≡ handshaking
      → Step v (
          written id
            (finish failed (codes "The iPhone or iPad rejected wireless pairing."))
            ended
            v)
  runs_out :
      (id : Uuid) → v.points id ≡ handshaking → Step v (written id (finish expired gone) ended v)
  pairs : (id : Uuid) → v.points id ≡ handshaking → Step v (written id (λ r. r) committing v)
  finalizes :
      (id : Uuid) (commitment : Commitment)
      → v.points id ≡ committing
      → Step v (finalized id commitment v)
  -- an aborted task ends, at any point after the abort
  halts :
      (r : SessionRuntime)
      → v.service.session ≡ some r
      → r.is_aborted ≡ true
      → Step v (record v { points = moved r.status.id ended v.points })

abbrev pub initial_world : World
initial_world = record {
  service = record { session = none; is_saved = false };
  points = λ _. absent;
  starting = none;
}

pub data Reach : World → Type 0 where
  initial : Reach initial_world
  step : {v w : World} → Reach v → Step v w → Reach w
