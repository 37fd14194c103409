-- ===== src/AppleTv/Order/Writes.antt =====
-- What each operation does to the phase of a session.
use i_phone_loadly.Common.{
  ◌≡◌, ◌≢◌, ◌≤◌, refl, ap, ◌∙◌, Bool, true, false, not, leb, ==_iff, Text, Option, none, some,
  Bool-cases, if-intro, not-eq-false, inl, inr, arith, Result,
}
use i_phone_loadly.Store.{Uuid, Timestamp}
use i_phone_loadly.AppleTv.{
  PairingPhase, connecting, awaiting_pin, verifying, ready, failed, cancelled, expired, is_terminal,
  Session, is_awaiting_pin, stopped, with_phase, expire_if_due, submit, cancel_session, set_phase,
  set_ready, if_active, send_pin, PairingStatus, PairingError,
}
use i_phone_loadly.AppleTv.Steps.{Point, absent, pairing, identifying}
use i_phone_loadly.AppleTv.Order.{rank, IsForward}

pub IsForward-refl : (s : Session) → IsForward s s
IsForward-refl s = record {
  same_id = refl;
  same_expiry = refl;
  higher = omega arith;
  ended = λ _. refl;
}

pub IsForward-trans : {s t u : Session} → IsForward s t → IsForward t u → IsForward s u
IsForward-trans {s} {t} {u} f g = record {
  same_id = g.same_id ∙ f.same_id;
  same_expiry = g.same_expiry ∙ f.same_expiry;
  higher = omega arith;
  ended = λ h. let e = f.ended h in g.ended (ap (λ x. is_terminal x.status.phase) e ∙ h) ∙ e;
}

abbrev is_verifying : PairingPhase → Bool
is_verifying verifying = true
is_verifying _ = false

-- A session has a task; and while that task pairs, verifying means that the PIN was taken.
pub record IsKept (point : Point) (s : Session) : Type 0 where
  pub spawned : point ≢ absent
  pub taken : is_verifying s.status.phase ≡ true → point ≡ pairing → s.has_pin ≡ false

rank_le : (phase : PairingPhase) → rank phase ≤ 3
rank_le connecting = omega arith
rank_le awaiting_pin = omega arith
rank_le verifying = omega arith
rank_le ready = omega arith
rank_le failed = omega arith
rank_le cancelled = omega arith
rank_le expired = omega arith

-- What an operation has to show: the session goes forward and is kept at the new point of its task.
abbrev pub Advance : Point → Point → Session → Session → Type 0
Advance p q s t = IsKept p s → IsForward s t × IsKept q t

active_le : (phase : PairingPhase) → is_terminal phase ≡ false → rank phase ≤ 2
unfolding is_terminal
active_le connecting h = omega arith
active_le awaiting_pin h = omega arith
active_le verifying h = omega arith
active_le ready h = cc
active_le failed h = cc
active_le cancelled h = cc
active_le expired h = cc

early_le :
    (phase : PairingPhase) → is_terminal phase ≡ false → is_verifying phase ≡ false → rank phase ≤ 1
unfolding is_terminal
early_le connecting h v = omega arith
early_le awaiting_pin h v = omega arith
early_le verifying h v = cc
early_le ready h v = cc
early_le failed h v = cc
early_le cancelled h v = cc
early_le expired h v = cc

awaiting-active : (phase : PairingPhase) → is_awaiting_pin phase ≡ true → is_terminal phase ≡ false
unfolding is_terminal
awaiting-active connecting h = refl
awaiting-active awaiting_pin h = refl
awaiting-active verifying h = refl
awaiting-active ready h = cc
awaiting-active failed h = cc
awaiting-active cancelled h = cc
awaiting-active expired h = cc

awaiting-verifying :
    (phase : PairingPhase) → is_awaiting_pin phase ≡ true → is_verifying phase ≡ false
awaiting-verifying connecting h = refl
awaiting-verifying awaiting_pin h = refl
awaiting-verifying verifying h = cc
awaiting-verifying ready h = refl
awaiting-verifying failed h = refl
awaiting-verifying cancelled h = refl
awaiting-verifying expired h = refl

-- A session that has not ended goes on to any higher phase.
active-IsForward :
    (s t : Session)
    → is_terminal s.status.phase ≡ false
    → t.status.id ≡ s.status.id
    → t.status.expires_at ≡ s.status.expires_at
    → rank s.status.phase ≤ rank t.status.phase
    → IsForward s t
active-IsForward s t active i x r = record {
  same_id = i;
  same_expiry = x;
  higher = r;
  ended = λ h. absurd (cc (rw active at h));
}

stopped-Advance :
    (p : Point) (phase : PairingPhase) (s : Session)
    → is_terminal s.status.phase ≡ false
    → rank phase ≡ 3
    → is_verifying phase ≡ false
    → Advance p p s (stopped phase s)
stopped-Advance p phase s active top v k = (
  active-IsForward s (stopped phase s) active refl refl (rw top (rank_le s.status.phase)),
  record { spawned = k.spawned; taken = λ h. absurd (cc (rw v at h)) },
)

pub expire_if_due-Advance :
    (p : Point) (now : Timestamp) (s : Session) → Advance p p s (expire_if_due now s)
unfolding expire_if_due
expire_if_due-Advance p now s k = elim (Bool-cases (is_terminal s.status.phase)) [
  | inl e ↦ rw (e, expire_if_due) (IsForward-refl s, k)
  | inr e ↦ elim (Bool-cases (leb s.status.expires_at now)) [
    | inl d ↦ rw (e, d, expire_if_due) (stopped-Advance p expired s e refl refl k)
    | inr d ↦ rw (e, d, expire_if_due) (IsForward-refl s, k)
  ]
]

pub expire_if_due-IsForward : (now : Timestamp) (s : Session) → IsForward s (expire_if_due now s)
expire_if_due-IsForward now s =
    (expire_if_due-Advance identifying now s
      (record { spawned = λ e. cc; taken = λ h e. absurd (cc e) })).0

send_pin-Advance :
    (p : Point) (is_open : Bool) (s : Session)
    → is_awaiting_pin s.status.phase ≡ true
    → Advance p p s (send_pin is_open s).1
send_pin-Advance p is_open s w k =
    if-intro Shown (not s.has_pin) (λ e. (IsForward-refl s, k))
      λ e.
        if-intro Shown is_open
          (λ o. (
            active-IsForward s (with_phase verifying (record s { has_pin = false })) active refl
                refl (active_le s.status.phase active),
            record { spawned = k.spawned; taken = λ h j. refl },
          ))
          (λ o. (
            active-IsForward s (record s { has_pin = false }) active refl refl (omega arith),
            record { spawned = k.spawned; taken = λ h j. refl },
          ))
  where
    active : is_terminal s.status.phase ≡ false
    active = awaiting-active s.status.phase w

    Shown : Result PairingError PairingStatus × Session → Type 0
    Shown r = IsForward s r.1 × IsKept p r.1

pub submit-Advance :
    (p : Point) (now : Timestamp) (is_open : Bool) (s : Session)
    → Advance p p s (submit now is_open s).1
submit-Advance p now is_open s k =
    let (f, kept) = expire_if_due-Advance p now s k in
    elim (Bool-cases (is_awaiting_pin (expire_if_due now s).status.phase)) [
      | inl e ↦
          let (g, sent) = send_pin-Advance p is_open (expire_if_due now s) e kept in
          rw e (IsForward-trans f g, sent)
      | inr e ↦ rw e (f, kept)
    ]

pub cancel-Advance : (p : Point) (s : Session) → Advance p p s (cancel_session s).1
cancel-Advance p s k = elim (Bool-cases (is_terminal s.status.phase)) [
  | inl e ↦ rw e (IsForward-refl s, k)
  | inr e ↦ rw e (stopped-Advance p cancelled s e refl refl k)
]

-- What a write of the task has to show.
abbrev pub Active : Point → Point → (Session → Session) → Type 0
Active p q change = (s : Session) → is_terminal s.status.phase ≡ false → Advance p q s (change s)

verifying-active : (phase : PairingPhase) → is_terminal phase ≡ true → is_verifying phase ≡ false
unfolding is_terminal
verifying-active connecting h = refl
verifying-active awaiting_pin h = refl
verifying-active verifying h = cc
verifying-active ready h = refl
verifying-active failed h = refl
verifying-active cancelled h = refl
verifying-active expired h = refl

pub if_active-Advance :
    (p q : Point) (id : Uuid) (change : Session → Session) (s : Session)
    → q ≢ absent
    → s.status.id ≡ id
    → Active p q change
    → Advance p q s (if_active id change s)
if_active-Advance p q id change s b same active k = elim (Bool-cases (is_terminal s.status.phase)) [
  | inl e ↦
      rw ((==_iff s.status.id id).1 same, e)
        (
          IsForward-refl s,
          record {
            spawned = b;
            taken = λ h. absurd (cc (rw (verifying-active s.status.phase e) at h));
          },
        )
  | inr e ↦ rw ((==_iff s.status.id id).1 same, e) (active s e k)
]

pub set_phase-Active_prompt : Active pairing pairing (set_phase awaiting_pin none)
unfolding set_phase
set_phase-Active_prompt s active k =
    if-intro Shown (not s.has_pin) (λ e. (IsForward-refl s, k))
      λ e. (
        active-IsForward s _ active refl refl
            (early_le s.status.phase active (free (not-eq-false s.has_pin e))),
        record { spawned = k.spawned; taken = λ h j. absurd (cc h) },
      )
  where
    Shown : Session → Type 0
    Shown t = IsForward s t × IsKept pairing t

    free : s.has_pin ≡ true → is_verifying s.status.phase ≡ false
    free e = elim (Bool-cases (is_verifying s.status.phase)) [
      | inr v ↦ v
      | inl v ↦ absurd (cc (k.taken v refl))
    ]

pub set_phase-Active_failed :
    (q : Point) (failure : Text) → q ≢ absent → Active pairing q (set_phase failed (some failure))
unfolding set_phase
set_phase-Active_failed q failure b s active k = (
  active-IsForward s _ active refl refl (rank_le s.status.phase),
  record { spawned = b; taken = λ h. absurd (cc h) },
)

pub set_phase-Active_paired : Active pairing identifying (set_phase verifying none)
unfolding set_phase
set_phase-Active_paired s active k = (
  active-IsForward s _ active refl refl (active_le s.status.phase active),
  record { spawned = λ e. cc; taken = λ h e. absurd (cc e) },
)

pub set_ready-Active :
    (p q : Point) (identity : Option Text) → q ≢ absent → Active p q (set_ready identity)
unfolding set_ready
set_ready-Active p q none b s active k = (
  active-IsForward s (set_ready none s) active refl refl (rank_le s.status.phase),
  record { spawned = b; taken = λ h. absurd (cc h) },
)
set_ready-Active p q (some name) b s active k = (
  active-IsForward s (set_ready (some name) s) active refl refl (rank_le s.status.phase),
  record { spawned = b; taken = λ h. absurd (cc h) },
)
