-- ===== src/Wireless/Phases.antt =====
-- The phase and the setup code of a session against its task.
use i_phone_loadly.Common.{
  ◌≡◌, refl, sym, ◌∙◌, Bool, true, false, ==_refl, Text, Option, none, some, if-intro, Result,
  codes, arith,
}
use i_phone_loadly.Store.{Uuid, Timestamp}
use i_phone_loadly.Wireless.{
  PairingError, PairingPhase, awaiting_device, awaiting_code_entry, verifying_transport, cancelled,
  expired, failed, PairingSessionStatus, SessionRuntime, WirelessPairingService, Commitment,
  not_committed, too_late, committed, TransportVerificationResult, is_terminal, is_due, stopped,
  expire_if_due, on_session, cancel_runtime, transport_of, is_verifying, verified_as, verified,
  rejected, lockdown, rsd_core_device, set_phase, finish, set_setup_code, finish_if_active,
  finalize,
}
use i_phone_loadly.Wireless.Steps.{
  Point, absent, spawned, accepting, handshaking, committing, ended, moved, altered, on_own, gone,
}

abbrev pub is_resting : PairingPhase → Bool
is_resting awaiting_device = false
is_resting awaiting_code_entry = false
is_resting _ = true

-- A task that has not heard of a device.
abbrev pub is_waiting : Point → Bool
is_waiting spawned = true
is_waiting accepting = true
is_waiting ended = true
is_waiting _ = false

-- A task that has.
abbrev pub is_pairing : Point → Bool
is_pairing handshaking = true
is_pairing committing = true
is_pairing _ = false

abbrev pub is_absent : Point → Bool
is_absent absent = true
is_absent _ = false

-- A status that says what its task does; the setup code is shown only while a device is to enter it.
pub data Fits : Point → PairingSessionStatus → Type 0 where
  waits :
      {p : Point} {status : PairingSessionStatus}
      → is_waiting p ≡ true
      → status.phase ≡ awaiting_device
      → status.setup_code ≡ none
      → Fits p status
  enters :
      {p : Point} {status : PairingSessionStatus}
      → is_pairing p ≡ true
      → status.phase ≡ awaiting_code_entry
      → Fits p status
  rests :
      {p : Point} {status : PairingSessionStatus}
      → p ≡ ended
      → is_resting status.phase ≡ true
      → status.setup_code ≡ none
      → Fits p status

-- A session and its task: the status fits unless the task was told to stop, and a task that was told to
-- stop has no advertisement.
pub record IsFitAt (p : Point) (r : SessionRuntime) : Type 0 where
  pub fits : r.is_aborted ≡ false → Fits p r.status
  pub quiet : r.is_aborted ≡ true → r.is_advertised ≡ false
  pub known : is_absent p ≡ false

abbrev pub IsFit : (Uuid → Point) → SessionRuntime → Type 0
IsFit points r = IsFitAt (points r.status.id) r

-- What a change has to keep where the task goes from one point to another.
abbrev pub Writes : Point → Point → (SessionRuntime → SessionRuntime) → Type 0
Writes p q change =
    (r : SessionRuntime) → IsFitAt p r → ((change r).status.id ≡ r.status.id) × IsFitAt q (change r)

pub moved-at : (id : Uuid) (p : Point) (points : Uuid → Point) → moved id p points id ≡ p
moved-at id p points = rw (==_refl id)

-- A session that a request stops.
stopped-Writes :
    (p : Point) (phase : PairingPhase) (message : Text) → Writes p p (stopped phase message)
stopped-Writes p phase message r k =
    (refl, record { fits = λ e. absurd (cc e); quiet = λ _. refl; known = k.known })

pub expire_if_due-Writes : (p : Point) (now : Timestamp) → Writes p p (expire_if_due now)
unfolding expire_if_due
expire_if_due-Writes p now r k =
    if-intro (λ s. (s.status.id ≡ r.status.id) × IsFitAt p s) (is_due now r)
      (λ _. stopped-Writes p expired gone r k) (λ _. (refl, k))

pub cancel_runtime-Writes : (p : Point) → Writes p p (λ r. (cancel_runtime r).1)
cancel_runtime-Writes p r k =
    if-intro {A = Result PairingError (Unit {0}) × SessionRuntime}
      (λ s. (s.1.status.id ≡ r.status.id) × IsFitAt p s.1) (is_terminal r.status.phase)
      (λ _. (refl, k))
      (λ _. stopped-Writes p cancelled (codes "The wireless pairing session was cancelled.") r k)

verifying-ended :
    {p : Point} {status : PairingSessionStatus}
    → is_verifying status.phase ≡ true
    → Fits p status
    → p ≡ ended
verifying-ended h (waits _ e _) = absurd (cc (rw e at h))
verifying-ended h (enters _ e) = absurd (cc (rw e at h))
verifying-ended h (rests e _ _) = e

-- The phases that a transport ends in.
verified_as-Writes :
    (p : Point) (result : TransportVerificationResult) (r : SessionRuntime)
    → is_verifying r.status.phase ≡ true
    → IsFitAt p r
    → ((verified_as result r).status.id ≡ r.status.id) × IsFitAt p (verified_as result r)
verified_as-Writes p (verified lockdown) r h k = (
  refl,
  record {
    fits = λ e. rests (verifying-ended h (k.fits e)) refl refl;
    quiet = k.quiet;
    known = k.known;
  },
)
verified_as-Writes p (verified rsd_core_device) r h k = (
  refl,
  record {
    fits = λ e. rests (verifying-ended h (k.fits e)) refl refl;
    quiet = k.quiet;
    known = k.known;
  },
)
verified_as-Writes p rejected r h k = (
  refl,
  record {
    fits = λ e. rests (verifying-ended h (k.fits e)) refl refl;
    quiet = k.quiet;
    known = k.known;
  },
)

pub transport_of-Writes :
    (p : Point) (result : TransportVerificationResult) → Writes p p (λ r. (transport_of result r).1)
transport_of-Writes p result r k =
    if-intro {A = Result PairingError PairingSessionStatus × SessionRuntime}
      (λ s. (s.1.status.id ≡ r.status.id) × IsFitAt p s.1) (is_verifying r.status.phase)
      (λ h. verified_as-Writes p result r h k) (λ _. (refl, k))

-- The end of a task, whatever its session was.
pub finish-Writes :
    (p : Point) (phase : PairingPhase) (message : Text)
    → is_resting phase ≡ true
    → Writes p ended (finish phase message)
finish-Writes p phase message h r k =
    (refl, record { fits = λ _. rests refl h refl; quiet = λ _. refl; known = refl })

pub set_phase-Writes :
    (message : Text) → Writes accepting handshaking (set_phase awaiting_code_entry message none)
set_phase-Writes message r k =
    (refl, record { fits = λ _. enters refl refl; quiet = k.quiet; known = refl })

-- The phase of a session whose device shakes hands.
pairing-entry :
    {p : Point} {status : PairingSessionStatus}
    → is_waiting p ≡ false
    → Fits p status
    → is_absent p ≡ false
    → status.phase ≡ awaiting_code_entry
pairing-entry h (waits e _ _) _ = absurd (cc (sym h ∙ e))
pairing-entry h (enters _ e) _ = e
pairing-entry h (rests e _ _) _ = absurd (cc (rw e at h))

pub set_setup_code-Writes : (code : Text) → Writes handshaking handshaking (set_setup_code code)
set_setup_code-Writes code r k = (
  refl,
  record {
    fits = λ e. enters refl (pairing-entry refl (k.fits e) refl);
    quiet = k.quiet;
    known = refl;
  },
)

-- The handshake is over, and the phase stays.
pub paired-Writes : Writes handshaking committing (λ r. r)
paired-Writes r k = (
  refl,
  record {
    fits = λ e. enters refl (pairing-entry refl (k.fits e) refl);
    quiet = k.quiet;
    known = refl;
  },
)

-- The task has found its session.
pub looked-Writes : (now : Timestamp) → Writes spawned accepting (expire_if_due now)
looked-Writes now r k =
    let (same, after) = expire_if_due-Writes spawned now r k in
    (same, record { fits = λ e. still (after.fits e); quiet = after.quiet; known = refl })
  where
    still : {status : PairingSessionStatus} → Fits spawned status → Fits accepting status
    still (waits _ e f) = waits refl e f
    still (enters e _) = absurd (cc e)
    still (rests e _ _) = absurd (cc e)

entry-active : (phase : PairingPhase) → phase ≡ awaiting_code_entry → is_terminal phase ≡ false
unfolding is_terminal
entry-active phase e = rw e refl

-- The end of a task whose session may have ended meanwhile, which only an abort can do.
finish_if_active-Writes :
    (phase : PairingPhase) (message : Text)
    → is_resting phase ≡ true
    → Writes committing ended (finish_if_active phase message)
finish_if_active-Writes phase message h r k =
    if-intro (λ s. (s.status.id ≡ r.status.id) × IsFitAt ended s) (is_terminal r.status.phase)
      (λ t. (
        refl,
        record {
          fits = λ e.
              absurd
                (cc (sym t ∙ entry-active r.status.phase (pairing-entry refl (k.fits e) refl)));
          quiet = k.quiet;
          known = refl;
        },
      ))
      (λ _. finish-Writes committing phase message h r k)

pub finalize-Writes : (commitment : Commitment) → Writes committing ended (finalize commitment)
unfolding finalize
finalize-Writes not_committed =
    finish_if_active-Writes failed (codes "Wireless pairing could not be completed.") refl
finalize-Writes too_late =
    finish_if_active-Writes failed (codes "Wireless pairing could not be completed.") refl
finalize-Writes (committed true) =
    finish_if_active-Writes verifying_transport
      (codes "RemotePairing completed. Verifying trusted device transport.") refl
finalize-Writes (committed false) =
    finish_if_active-Writes failed
      (codes "Wireless pairing completed but its state could not be saved.") refl

-- A request on one session changes that session.
pub on_session-session :
    {A : Type 0} (id : Uuid) (operation : SessionRuntime → Result PairingError A × SessionRuntime)
    (w : WirelessPairingService)
    → (on_session id operation w).1.session ≡ altered (on_own id (λ r. (operation r).1)) w.session
on_session-session {A = A} id operation w = go w.session
  where
    go :
        (o : Option SessionRuntime)
        → (on_session id operation (record w { session = o })).1.session
          ≡ altered (on_own id (λ r. (operation r).1)) o
    go none = refl
    go (some r) = ground arith
