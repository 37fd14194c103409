-- ===== src/Wireless/Reached.antt =====
-- The sessions of every world that the server reaches.
use i_phone_loadly.Common.{
  ◌≡◌, refl, sym, subst, Option, some, none, codes, Result, true, false, ◌==◌,
}
use i_phone_loadly.Store.{Uuid}
use i_phone_loadly.Wireless.{
  PairingError, PairingSessionStatus, SessionRuntime, awaiting_code_entry, new_runtime, failed,
  expired, status, status_of, cancel, cancel_runtime, record_transport_result, transport_of,
  on_session, set_phase, finalize,
}
use i_phone_loadly.Wireless.Steps.{
  Point, accepting, handshaking, committing, ended, World, moved, written, if_found, gone, Step,
  begins, stores, drops, asks, cancels, records, looks, misses, accepts, shows_code, is_refused,
  runs_out, pairs, finalizes, halts, Reach, initial, step,
}
use i_phone_loadly.Wireless.Phases.{
  IsFit, Writes, expire_if_due-Writes, cancel_runtime-Writes, transport_of-Writes, finish-Writes,
  set_phase-Writes, set_setup_code-Writes, paired-Writes, finalize-Writes, on_session-session,
}
use i_phone_loadly.Wireless.Sound.{
  HasFits, HasOpening, IsSound, is_early, task-IsSound, asked-IsSound,
}
use i_phone_loadly.Wireless.Starts.{
  looks-IsSound, start_wireless-Begun, stored-IsFit, halted-IsSound,
}

abbrev Sound : World → Type 0
Sound v = IsSound v.points v.starting v.service.session

-- A request on the session `id`.
requested-IsSound :
    {A : Type 0} (v : World) (id : Uuid)
    (operation : SessionRuntime → Result PairingError A × SessionRuntime)
    → ((p : Point) → Writes p p (λ r. (operation r).1))
    → Sound v
    → IsSound v.points v.starting (on_session id operation v.service).1.session
requested-IsSound v id operation writes k =
    subst (IsSound v.points v.starting) (sym (on_session-session id operation v.service))
      (asked-IsSound v.points id (λ r. (operation r).1) v.service.session v.starting writes k)

-- A step of a task that goes from one point to the next.
written-IsSound :
    (v : World) (id : Uuid) (p q : Point) (change : SessionRuntime → SessionRuntime)
    → v.points id ≡ p
    → is_early p ≡ false
    → Writes p q change
    → Sound v
    → Sound (written id change q v)
written-IsSound v id p q change at late writes k =
    task-IsSound v.points id p q q change v.service.session v.starting at late (λ r e m. refl)
      writes k

stores-IsSound :
    (v : World) (given : PairingSessionStatus)
    → v.starting ≡ some given
    → Sound v
    → IsSound v.points none (some (new_runtime given))
stores-IsSound v given e k = record {
  held =
      stored-IsFit v.points v.service.session given
        (subst (HasOpening v.points v.service.session) e k.opening);
  opening = tt;
}

found-at :
    (id : Uuid) (p : Point) (o : Option SessionRuntime) (r : SessionRuntime)
    → o ≡ some r
    → r.status.id == id ≡ true
    → if_found id p o ≡ p
found-at id p o r e m = rw e (rw m refl)

halts-IsSound :
    (v : World) (r : SessionRuntime)
    → v.service.session ≡ some r
    → r.is_aborted ≡ true
    → Sound v
    → IsSound (moved r.status.id ended v.points) v.starting v.service.session
halts-IsSound v r e aborted k =
    subst (IsSound (moved r.status.id ended v.points) v.starting) (sym e)
      (halted-IsSound v.points r v.starting aborted (subst (IsSound v.points v.starting) e k))

Step-IsSound : {v w : World} → Step v w → Sound v → Sound w
unfolding status cancel record_transport_result
Step-IsSound {v} (begins is_enabled checked_at now id failure _ fresh) k =
    start_wireless-Begun v.points is_enabled checked_at now id failure v.service fresh k.held
Step-IsSound {v} (stores given e) k = stores-IsSound v given e k
Step-IsSound {v} drops k = record { held = k.held; opening = tt }
Step-IsSound {v} (asks now id) k =
    requested-IsSound v id (status_of now) (λ p. expire_if_due-Writes p now) k
Step-IsSound {v} (cancels id) k = requested-IsSound v id cancel_runtime cancel_runtime-Writes k
Step-IsSound {v} (records id result) k =
    requested-IsSound v id (transport_of result) (λ p. transport_of-Writes p result) k
Step-IsSound {v} (looks now id at) k =
    subst (IsSound (moved id (if_found id accepting v.service.session) v.points) v.starting)
      (sym (on_session-session id (status_of now) v.service))
      (looks-IsSound v.points now id v.service.session v.starting at k)
Step-IsSound {v} (misses id at) k =
    written-IsSound v id accepting ended _ at refl (finish-Writes accepting expired gone refl) k
Step-IsSound {v} (accepts id at) k =
    let message = codes "The iPhone or iPad is completing wireless pairing." in
    task-IsSound v.points id accepting handshaking (if_found id handshaking v.service.session)
      (set_phase awaiting_code_entry message none) v.service.session v.starting at refl
      (found-at id handshaking v.service.session) (set_phase-Writes message) k
Step-IsSound {v} (shows_code id code at) k =
    written-IsSound v id handshaking handshaking _ at refl (set_setup_code-Writes code) k
Step-IsSound {v} (is_refused id at) k =
    written-IsSound v id handshaking ended _ at refl
      (finish-Writes handshaking failed (codes "The iPhone or iPad rejected wireless pairing.")
        refl)
      k
Step-IsSound {v} (runs_out id at) k =
    written-IsSound v id handshaking ended _ at refl (finish-Writes handshaking expired gone refl) k
Step-IsSound {v} (pairs id at) k =
    written-IsSound v id handshaking committing (λ r. r) at refl paired-Writes k
Step-IsSound {v} (finalizes id commitment at) k =
    written-IsSound v id committing ended (finalize commitment) at refl (finalize-Writes commitment)
      k
Step-IsSound {v} (halts r e aborted) k = halts-IsSound v r e aborted k

Reach-IsSound : {w : World} → Reach w → Sound w
Reach-IsSound initial = record { held = tt; opening = tt }
Reach-IsSound (step reach last) = Step-IsSound last (Reach-IsSound reach)

-- Whatever requests and tasks do in whatever order, the session of a reached world says what its task
-- does, unless a request has told the task to stop: it awaits a device and its task has heard of none
-- or has ended, or it awaits the code and the task pairs, or it is in another phase and the task has
-- ended; and a setup code is shown only while the code is awaited. A session whose task was told to
-- stop is no longer advertised.
pub Reach-IsFit :
    {w : World} (r : SessionRuntime) → Reach w → w.service.session ≡ some r → IsFit w.points r
Reach-IsFit {w} r reach e = subst (HasFits w.points) e (Reach-IsSound reach).held
