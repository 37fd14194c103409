-- ===== src/AppleTv/Order/Once.antt =====
-- The PIN of a session is taken at most once.
use i_phone_loadly.Common.{
  ◌≡◌, ◌≢◌, ◌≤◌, refl, sym, subst, ◌∙◌, Bool, true, ◌==◌, ==_iff, Option, none, some, not, if-intro,
  arith, Result, ok,
}
use i_phone_loadly.Store.{Uuid, Timestamp}
use i_phone_loadly.AppleTv.{
  PairingError, PairingPhase, connecting, awaiting_pin, verifying, ready, failed, cancelled,
  expired, PairingStatus, Session, AppleTv, is_awaiting_pin, submit_pin, submit, send_pin,
  expire_if_due,
}
use i_phone_loadly.AppleTv.Steps.{World, Steps, step, submits}
use i_phone_loadly.AppleTv.Order.{rank}
use i_phone_loadly.AppleTv.Order.Writes.{expire_if_due-IsForward}
use i_phone_loadly.AppleTv.Order.Run.{Reach, Later, same, replaced, Steps-IsForward}

awaiting-rank : (phase : PairingPhase) → is_awaiting_pin phase ≡ true → rank phase ≡ 1
awaiting-rank connecting h = cc
awaiting-rank awaiting_pin h = refl
awaiting-rank verifying h = cc
awaiting-rank ready h = cc
awaiting-rank failed h = cc
awaiting-rank cancelled h = cc
awaiting-rank expired h = cc

-- What a session was before and is after a PIN was accepted.
abbrev Taken : Session → Session → Type 0
Taken s t = (rank s.status.phase ≤ 1) × (t.status.id ≡ s.status.id) × (rank t.status.phase ≡ 2)

send_pin-ok :
    (is_open : Bool) (s : Session) {st : PairingStatus}
    → is_awaiting_pin s.status.phase ≡ true
    → (send_pin is_open s).0 ≡ ok st
    → Taken s (send_pin is_open s).1
send_pin-ok is_open s {st} w =
    if-intro Told (not s.has_pin) (λ _ h. absurd (cc h))
      λ _.
        if-intro Told is_open
          (λ _ _. (rw (awaiting-rank s.status.phase w) (omega arith), refl, refl))
          (λ _ h. absurd (cc h))
  where
    Told : Result PairingError PairingStatus × Session → Type 0
    Told r = r.0 ≡ ok st → Taken s r.1

submit-ok :
    (now : Timestamp) (is_open : Bool) (s : Session) {st : PairingStatus}
    → (submit now is_open s).0 ≡ ok st
    → Taken s (submit now is_open s).1
submit-ok now is_open s {st} =
    let f = expire_if_due-IsForward now s in
    if-intro {A = Result PairingError PairingStatus × Session} (λ r. r.0 ≡ ok st → Taken s r.1)
      (is_awaiting_pin (expire_if_due now s).status.phase)
      (λ w h.
        let (low, own, top) = send_pin-ok is_open (expire_if_due now s) w h in
        (omega (arith, f.higher), own ∙ f.same_id, top))
      (λ _ h. absurd (cc h))

-- A request that is accepted finds its session and leaves it with the PIN taken.
pub submit_pin-ok :
    (now : Timestamp) (is_open : Bool) (id : Uuid) (tv : AppleTv) {st : PairingStatus}
    → (submit_pin now is_open id tv).0 ≡ ok st
    → (s t : Session) × (tv.session ≡ some s)
      × ((submit_pin now is_open id tv).1.session ≡ some t)
      × (s.status.id ≡ id)
      × Taken s t
unfolding submit_pin
submit_pin-ok now is_open id tv {st} = go tv.session
  where
    go :
        (o : Option Session)
        → (submit_pin now is_open id (record tv { session = o })).0 ≡ ok st
        → (s t : Session) × (o ≡ some s)
          × ((submit_pin now is_open id (record tv { session = o })).1.session ≡ some t)
          × (s.status.id ≡ id)
          × Taken s t
    go none h = absurd (cc h)
    go (some s) h =
        if-intro {A = Result PairingError PairingStatus × AppleTv}
          (λ r.
            r.0 ≡ ok st
            → (u t : Session) × (◌≡◌ {A = Option Session} (some s) (some u))
              × (r.1.session ≡ some t)
              × (u.status.id ≡ id)
              × Taken u t)
          (s.status.id == id)
          (λ e h. (
            s,
            (submit now is_open s).1,
            refl,
            refl,
            (==_iff s.status.id id).0 e,
            submit-ok now is_open s h,
          ))
          (λ _ h. absurd (cc h)) h

-- After a PIN was accepted for a session of a reached world, no PIN is accepted for it any more,
-- whatever requests and tasks come between.
pub submit_pin-once :
    {v w : World} (now later : Timestamp) (is_open still_open : Bool) (id : Uuid)
    (st : PairingStatus)
    → Reach v
    → (submit_pin now is_open id v.tv).0 ≡ ok st
    → Steps (record v { tv = (submit_pin now is_open id v.tv).1 }) w
    → (next : PairingStatus) → (submit_pin later still_open id w.tv).0 ≢ ok next
submit_pin-once {v} {w} now later is_open still_open id st reach e steps next f =
    let (s, t, _, at, own, (_, kept, top)) = submit_pin-ok now is_open id v.tv e in
    let (u, _, found, _, same_own, (low, _, _)) = submit_pin-ok later still_open id w.tv f in
    refuse s t u top low (kept ∙ own) same_own
      (subst (Later t) found (Steps-IsForward t (step reach (submits now is_open id)) steps at))
  where
    refuse :
        (s t u : Session)
        → rank t.status.phase ≡ 2
        → rank u.status.phase ≤ 1
        → t.status.id ≡ id
        → u.status.id ≡ id
        → Later t (some u)
        → ⊥
    refuse s t u top low p q (same _ g) = omega (arith, g.higher)
    refuse s t u top low p q (replaced _ b) = b (q ∙ sym p)
