-- ===== src/Wireless/Starts.antt =====
-- A start, from its check to the first turn of its task, and the end of an aborted task.
use i_phone_loadly.Common.{
  ◌≡◌, refl, sym, ap, subst, ◌∙◌, Bool, true, false, not, ◌==◌, ==_iff, Option, none, some,
  if-intro, Bool-cases, inl, inr, Result,
}
use i_phone_loadly.Store.{Uuid, Timestamp}
use i_phone_loadly.Wireless.{
  PairingError, PairingSessionStatus, SessionRuntime, WirelessPairingService, is_terminal,
  expire_if_due, start_wireless, open_session, new_runtime,
}
use i_phone_loadly.Wireless.Steps.{
  Point, absent, spawned, accepting, ended, moved, spawn, started, altered, on_own, if_found,
}
use i_phone_loadly.Wireless.Phases.{
  waits, IsFitAt, IsFit, is_absent, moved-at, expire_if_due-Writes, looked-Writes,
}
use i_phone_loadly.Wireless.Sound.{
  HasFits, HasOpening, IsOpening, IsSound, is_early, is_apart, early-waiting, moved-other,
  own-HasFits, own-HasOpening,
}

-- The first turn of a task, which ends where its session is not stored yet.
pub looks-IsSound :
    (points : Uuid → Point) (now : Timestamp) (id : Uuid) (o : Option SessionRuntime)
    (starting : Option PairingSessionStatus)
    → points id ≡ spawned
    → IsSound points starting o
    → IsSound
        (moved id (if_found id accepting o) points)
        starting
        (altered (on_own id (expire_if_due now)) o)
looks-IsSound points now id o starting at_p k = record {
  held =
      own-HasFits points id spawned accepting (if_found id accepting o) (expire_if_due now) o at_p
        (found o) (looked-Writes now) k.held;
  opening =
      own-HasOpening points id spawned accepting (if_found id accepting o) (expire_if_due now) o
        starting at_p (looked-Writes now) k.held
        (λ given h e. apart-early o (subst (λ i. is_apart i o ≡ true) e h.apart)) k.opening;
}
  where
    found :
        (o' : Option SessionRuntime) (r : SessionRuntime)
        → o' ≡ some r
        → r.status.id == id ≡ true
        → if_found id accepting o' ≡ accepting
    found o' r e m = rw e (rw m refl)

    apart-early :
        (o' : Option SessionRuntime)
        → is_apart id o' ≡ true
        → is_early (if_found id accepting o') ≡ true
    apart-early none e = refl
    apart-early (some r) e = elim (Bool-cases (r.status.id == id)) [
      | inl m ↦ absurd (cc (rw m at e))
      | inr m ↦ rw m refl
    ]

-- The reply of a start whose identifier no task has.
opens-IsSound :
    (points : Uuid → Point) (now : Timestamp) (id : Uuid) (failure : Option PairingError)
    (o : Option SessionRuntime)
    → points id ≡ absent
    → HasFits points o
    → IsSound
        (spawn id (open_session now id failure) points)
        (started (open_session now id failure))
        o
opens-IsSound points now id (some failure) o fresh k = record { held = k; opening = tt }
opens-IsSound points now id none o fresh k = record {
  held = fit o k;
  opening = record {
    early = ap is_early (moved-at id spawned points);
    awaits = refl;
    no_code = refl;
    apart = other o k;
  };
}
  where
    differs : (r : SessionRuntime) → IsFit points r → r.status.id == id ≡ false
    differs r h = elim (Bool-cases (r.status.id == id)) [
      | inl m ↦
          let own = ap points ((==_iff r.status.id id).0 m) ∙ fresh in
          absurd (cc (sym (ap is_absent own) ∙ h.known))
      | inr m ↦ m
    ]

    fit : (o' : Option SessionRuntime) → HasFits points o' → HasFits (moved id spawned points) o'
    fit none h = tt
    fit (some r) h =
        subst (λ x. IsFitAt x r) (sym (moved-other r.status.id id spawned points (differs r h))) h

    other : (o' : Option SessionRuntime) → HasFits points o' → is_apart id o' ≡ true
    other none h = refl
    other (some r) h = ap not (differs r h)

abbrev pub Begun :
    (Uuid → Point)
    → Uuid
    → Result PairingError PairingSessionStatus × WirelessPairingService
    → Type 0
Begun points id reply = IsSound (spawn id reply.0 points) (started reply.0) reply.1.session

pub start_wireless-Begun :
    (points : Uuid → Point) (is_enabled : Bool) (checked_at now : Timestamp) (id : Uuid)
    (failure : Option PairingError) (w : WirelessPairingService)
    → points id ≡ absent
    → HasFits points w.session
    → Begun points id (start_wireless is_enabled checked_at now id failure w)
unfolding start_wireless
start_wireless-Begun points is_enabled checked_at now id failure w fresh = go w.session
  where
    go :
        (o : Option SessionRuntime)
        → HasFits points o
        → Begun points id
            (start_wireless is_enabled checked_at now id failure (record w { session = o }))
    go none k =
        if-intro (Begun points id) (not is_enabled) (λ _. record { held = tt; opening = tt })
          (λ _. opens-IsSound points now id failure none fresh tt)
    go (some r) k =
        if-intro (Begun points id) (not is_enabled) (λ _. record { held = k; opening = tt })
          (λ _.
            if-intro {A = Result PairingError PairingSessionStatus × WirelessPairingService}
              (Begun points id) (is_terminal (expire_if_due checked_at r).status.phase)
              (λ _.
                let (same, after) = expire_if_due-Writes (points r.status.id) checked_at r k in
                opens-IsSound points now id failure (some (expire_if_due checked_at r)) fresh
                  (subst (λ i. IsFitAt (points i) (expire_if_due checked_at r)) (sym same) after))
              (λ _. record { held = k; opening = tt }))

-- The session of a start, as it is stored.
pub stored-IsFit :
    (points : Uuid → Point) (o : Option SessionRuntime) (given : PairingSessionStatus)
    → IsOpening points o given
    → IsFit points (new_runtime given)
stored-IsFit points o given h =
    let (waiting, known) = early-waiting (points given.id) h.early in
    record {
      fits = λ _. waits waiting h.awaits h.no_code;
      quiet = λ e. absurd (cc e);
      known = known;
    }

-- The end of an aborted task.
pub halted-IsSound :
    (points : Uuid → Point) (r : SessionRuntime) (starting : Option PairingSessionStatus)
    → r.is_aborted ≡ true
    → IsSound points starting (some r)
    → IsSound (moved r.status.id ended points) starting (some r)
halted-IsSound points r starting aborted k = record {
  held =
      subst (λ x. IsFitAt x r) (sym (moved-at r.status.id ended points))
        (record { fits = λ e. absurd (cc (sym aborted ∙ e)); quiet = k.held.quiet; known = refl });
  opening = kept_open starting k.opening;
}
  where
    kept_open :
        (s : Option PairingSessionStatus)
        → HasOpening points (some r) s
        → HasOpening (moved r.status.id ended points) (some r) s
    kept_open none h = tt
    kept_open (some given) h = record {
      early =
          if-intro (λ p. is_early p ≡ true) (given.id == r.status.id) (λ _. refl) (λ _. h.early);
      awaits = h.awaits;
      no_code = h.no_code;
      apart = h.apart;
    }
