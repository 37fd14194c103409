-- ===== src/Wireless.antt =====
-- The sessions of a wireless pairing (crates/iphoneloadly-api/src/wireless_pairing.rs): the requests,
-- and what the task of a session writes. The clock, the listener, the handshake with the device and
-- what the store of the pairing answers are arguments.
pub mod Steps
pub mod Phases
pub mod Sound
pub mod Starts
pub mod Reached
pub mod Tests
use i_phone_loadly.Common.{
  ℕ, ◌+◌, Text, Bool, true, false, not, ◌&&◌, Option, none, some, List, codes, leb, ◌==◌, Result,
  ok, err, if◌then◌else◌,
}
use i_phone_loadly.Store.{Uuid, Timestamp}

abbrev pub session_lifetime : ℕ
session_lifetime = 300

pub data PairingError : Type 0 where
  disabled busy not_found terminal configuration storage corrupted_state : PairingError
  listener advertisement : PairingError

pub data PairingPhase : Type 0 where
  awaiting_device awaiting_code_entry verifying_transport : PairingPhase
  ready failed cancelled expired : PairingPhase

unfoldable pub is_terminal : PairingPhase → Bool
is_terminal awaiting_device = false
is_terminal awaiting_code_entry = false
is_terminal verifying_transport = false
is_terminal _ = true

pub record PairingSessionStatus : Type 0 where
  pub id : Uuid
  pub phase : PairingPhase
  pub expires_at : Timestamp
  pub public_message : Text
  pub setup_code : Option Text

-- `is_aborted` tells that the task was told to stop, `is_advertised` that the advertisement is still
-- held.
pub record SessionRuntime : Type 0 where
  pub status : PairingSessionStatus
  pub is_aborted : Bool
  pub is_advertised : Bool

pub data TransportKind : Type 0 where
  lockdown rsd_core_device : TransportKind

pub data TransportVerificationResult : Type 0 where
  verified : TransportKind → TransportVerificationResult
  rejected : TransportVerificationResult

-- The session, and whether a pairing has been saved.
pub record WirelessPairingService : Type 0 where
  pub session : Option SessionRuntime
  pub is_saved : Bool

-- a phase with its message and the setup code that is shown
abbrev pub shown : PairingPhase → Text → Option Text → SessionRuntime → SessionRuntime
shown phase message code r = record r {
  status = record r.status { phase = phase; public_message = message; setup_code = code };
}

abbrev pub stopped : PairingPhase → Text → SessionRuntime → SessionRuntime
stopped phase message r = record (shown phase message none r) {
  is_aborted = true;
  is_advertised = false;
}

unfoldable pub session_expired : PairingSessionStatus → Timestamp → Bool
session_expired status now = leb status.expires_at now

abbrev pub is_due : Timestamp → SessionRuntime → Bool
is_due now r = not (is_terminal r.status.phase) && session_expired r.status now

unfoldable pub expire_if_due : Timestamp → SessionRuntime → SessionRuntime
unfolding is_terminal session_expired
expire_if_due now r =
    if is_due now r then stopped expired (codes "The wireless pairing session expired.") r else r

-- the reply of an operation on the session `id`
abbrev pub on_session {ℓ} :
    {A : Type ℓ}
    → Uuid
    → (SessionRuntime → Result PairingError A × SessionRuntime)
    → WirelessPairingService
    → Result PairingError A × WirelessPairingService
on_session id operation w = elim w.session [
  | none ↦ (err not_found, w)
  | some r ↦
      if r.status.id == id
      then (let (reply, after) = operation r in (reply, record w { session = some after }))
      else (err not_found, w)
]

abbrev pub status_of :
    Timestamp → SessionRuntime → Result PairingError PairingSessionStatus × SessionRuntime
status_of now r = let after = expire_if_due now r in (ok after.status, after)

unfoldable pub status :
    Timestamp
    → Uuid
    → WirelessPairingService
    → Result PairingError PairingSessionStatus × WirelessPairingService
unfolding expire_if_due
status now id w = on_session id (status_of now) w

abbrev pub cancel_runtime : SessionRuntime → Result PairingError (Unit {0}) × SessionRuntime
cancel_runtime r =
    if is_terminal r.status.phase
    then (err terminal, r)
    else (ok tt, stopped cancelled (codes "The wireless pairing session was cancelled.") r)

unfoldable pub cancel :
    Uuid → WirelessPairingService → Result PairingError (Unit {0}) × WirelessPairingService
unfolding is_terminal
cancel id w = on_session id cancel_runtime w

abbrev pub verified_as : TransportVerificationResult → SessionRuntime → SessionRuntime
verified_as (verified lockdown) r =
    shown ready (codes "RemotePairing completed and Lockdown transport was verified.") none r
verified_as (verified rsd_core_device) r =
    shown ready (codes "RemotePairing completed and RSD/CoreDevice transport was verified.") none r
verified_as rejected r =
    shown failed (codes "RemotePairing completed but trusted transport could not be verified.") none
      r

abbrev pub is_verifying : PairingPhase → Bool
is_verifying verifying_transport = true
is_verifying _ = false

abbrev pub transport_of :
    TransportVerificationResult
    → SessionRuntime
    → Result PairingError PairingSessionStatus × SessionRuntime
transport_of result r =
    if is_verifying r.status.phase
    then (let after = verified_as result r in (ok after.status, after))
    else (err terminal, r)

unfoldable pub record_transport_result :
    Uuid
    → TransportVerificationResult
    → WirelessPairingService
    → Result PairingError PairingSessionStatus × WirelessPairingService
record_transport_result id result w = on_session id (transport_of result) w

abbrev pub new_status : Timestamp → Uuid → PairingSessionStatus
new_status now id = record {
  id = id;
  phase = awaiting_device;
  expires_at = now + session_lifetime;
  public_message = codes "Open pairing on the iPhone or iPad.";
  setup_code = none;
}

-- The part of a start from the store on: `failure` is the error of the store, the addresses, the
-- listeners or the advertisement.
abbrev pub open_session :
    Timestamp → Uuid → Option PairingError → Result PairingError PairingSessionStatus
open_session now id (some failure) = err failure
open_session now id none = ok (new_status now id)

-- A start up to the point where its task is spawned: a lock keeps other starts out, and the session that is
-- there has ended. The two times are those of the check and of the new session.
unfoldable pub start_wireless :
    Bool
    → Timestamp
    → Timestamp
    → Uuid
    → Option PairingError
    → WirelessPairingService
    → Result PairingError PairingSessionStatus × WirelessPairingService
unfolding expire_if_due
start_wireless is_enabled checked_at now id failure w =
    if not is_enabled then (err disabled, w) else elim w.session [
      | none ↦ (open_session now id failure, w)
      | some r ↦
          let after = expire_if_due checked_at r in
          if is_terminal after.status.phase
          then (open_session now id failure, record w { session = some after })
          else (err busy, w)
    ]

-- The session of a status that a start has given, which is not told to stop.
abbrev pub new_runtime : PairingSessionStatus → SessionRuntime
new_runtime status = record { status = status; is_aborted = false; is_advertised = true }

-- The end of a start, after its task is spawned.
abbrev pub store_session : PairingSessionStatus → WirelessPairingService → WirelessPairingService
store_session status w = record w { session = some (new_runtime status) }

-- `set_phase`, which does not look at the phase that is there
abbrev pub set_phase : PairingPhase → Text → Option Text → SessionRuntime → SessionRuntime
set_phase phase message code r = shown phase message code r

-- `finish`
abbrev pub finish : PairingPhase → Text → SessionRuntime → SessionRuntime
finish phase message r = record (set_phase phase message none r) { is_advertised = false }

-- `set_setup_code`, which leaves the phase as it is
abbrev pub set_setup_code : Text → SessionRuntime → SessionRuntime
set_setup_code code r =
    shown r.status.phase
      (codes "Enter the one-time pairing code shown for this session on the iPhone or iPad.")
      (some code) r

-- `finish_if_active`
abbrev pub finish_if_active : PairingPhase → Text → SessionRuntime → SessionRuntime
finish_if_active phase message r = if is_terminal r.status.phase then r else finish phase message r

-- What the task finds once the device has been paired.
pub data Commitment : Type 0 where
  not_committed : Commitment
  too_late : Commitment
  committed : (is_stored : Bool) → Commitment

-- `finalize_new_pairing`, on the session of the task
unfoldable pub finalize : Commitment → SessionRuntime → SessionRuntime
unfolding is_terminal
finalize not_committed r =
    finish_if_active failed (codes "Wireless pairing could not be completed.") r
finalize too_late r = finish_if_active failed (codes "Wireless pairing could not be completed.") r
finalize (committed true) r =
    finish_if_active verifying_transport
      (codes "RemotePairing completed. Verifying trusted device transport.") r
finalize (committed false) r =
    finish_if_active failed (codes "Wireless pairing completed but its state could not be saved.") r

abbrev stores : Commitment → Bool
stores (committed is_stored) = is_stored
stores _ = false

-- Whether the pairing is saved: only for a session of the task that has not ended.
unfoldable pub is_saved_by : Commitment → SessionRuntime → Bool
unfolding is_terminal
is_saved_by commitment r = not (is_terminal r.status.phase) && stores commitment
