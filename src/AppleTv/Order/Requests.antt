-- ===== src/AppleTv/Order/Requests.antt =====
-- What each step of `Steps` does to the session of the world.
use i_phone_loadly.Common.{
  ◌≡◌, ◌≢◌, refl, sym, ap, subst, ◌∙◌, false, ◌==◌, ==_iff, ==_refl, Text, Option, none, some,
  Bool-cases, Option-cases, first, if-intro, inl, inr, Result, err, List,
}
use i_phone_loadly.Store.{Uuid, Timestamp}
use i_phone_loadly.AppleTv.{
  ManualPairingTarget, PairingError, PairingStatus, is_terminal, Session, AppleTv, expire_if_due,
  submit, cancel_session, status_of, on_session, if_active, status, submit_pin, cancel, discover,
  find_target, has_identifier, unknown_target, start, start_target, begin, new_session,
}
use i_phone_loadly.AppleTv.Steps.{
  Point, absent, pairing, identifying, ended, World, moved, spawned, write_to, write, Step, starts,
  discovers, asks, submits, cancels, prompts, fails, pairs, reaches,
}
use i_phone_loadly.AppleTv.Order.{IsForward}
use i_phone_loadly.AppleTv.Order.Writes.{
  IsForward-refl, IsKept, Advance, expire_if_due-Advance, submit-Advance, cancel-Advance,
  if_active-Advance, set_phase-Active_prompt, set_phase-Active_failed, set_phase-Active_paired,
  set_ready-Active, Active,
}

-- The session of a world is kept at the point of its task.
abbrev pub HasKept : (Uuid → Point) → Option Session → Type 0
HasKept points none = Unit
HasKept points (some s) = IsKept (points s.status.id) s

-- What a step does to the session: nothing before it, one that goes on, or a new one.
pub data Turn (points : Uuid → Point) : Option Session → Option Session → Type 0 where
  nothing : Turn points none none
  goes_on : (s t : Session) → IsForward s t → Turn points (some s) (some t)
  begins : (o : Option Session) (t : Session) → points t.status.id ≡ absent → Turn points o (some t)

same : (points : Uuid → Point) (o : Option Session) → Turn points o o
same points none = nothing
same points (some s) = goes_on s s (IsForward-refl s)

-- A step that leaves the tasks where they are.
abbrev Still : (Uuid → Point) → Option Session → Option Session → Type 0
Still points o p = Turn points o p × HasKept points p

on_session-Still :
    {A : Type 0} (points : Uuid → Point) (id : Uuid)
    (operation : Session → Result PairingError A × Session)
    → ((p : Point) (s : Session) → Advance p p s (operation s).1)
    → (tv : AppleTv) → HasKept points tv.session
    → Still points tv.session (on_session id operation tv).1.session
on_session-Still {A = A} points id operation advance tv kept = go tv.session kept
  where
    go :
        (o : Option Session)
        → HasKept points o
        → Still points o (on_session id operation (record tv { session = o })).1.session
    go none k = (nothing, tt)
    go (some s) k =
        let (f, after) = advance (points s.status.id) s k in
        if-intro {A = Result PairingError A × AppleTv} (λ r. Still points (some s) r.1.session)
          (s.status.id == id)
          (λ e.
            (goes_on s _ f, subst (λ i. IsKept (points i) (operation s).1) (sym f.same_id) after))
          (λ e. (goes_on s s (IsForward-refl s), k))

moved-at : (id : Uuid) (p : Point) (points : Uuid → Point) → moved id p points id ≡ p
moved-at id p points = rw (==_refl id)

moved-other :
    (id other : Uuid) (p : Point) (points : Uuid → Point)
    → other == id ≡ false
    → moved id p points other ≡ points other
moved-other id other p points e = rw e

write-Turn :
    (points : Uuid → Point) (id : Uuid) (p q : Point) (change : Session → Session)
    → q ≢ absent
    → points id ≡ p
    → Active p q change
    → (o : Option Session) → HasKept points o
    → Turn points o (write_to (if_active id change) o)
      × HasKept (moved id q points) (write_to (if_active id change) o)
write-Turn points id p q change b at_p active none k = (nothing, tt)
write-Turn points id p q change b at_p active (some s) k = elim (Bool-cases (s.status.id == id)) [
  | inl e ↦
      let own = (==_iff s.status.id id).0 e in
      let (f, after) =
        if_active-Advance p q id change s b own active
          (subst (λ i. IsKept i s) (ap points own ∙ at_p) k) in
      (
        goes_on s (if_active id change s) f,
        subst (λ i. IsKept i (if_active id change s))
            (sym (ap (moved id q points) (f.same_id ∙ own) ∙ moved-at id q points)) after,
      )
  | inr e ↦ rw e (
    goes_on s s (IsForward-refl s),
    subst (λ i. IsKept i s) (sym (moved-other id s.status.id q points e)) k,
  )
]

discover-session :
    (discovered : Option (List ManualPairingTarget)) (tv : AppleTv)
    → (discover discovered tv).1.session ≡ tv.session
unfolding discover
discover-session none tv = refl
discover-session (some targets) tv = refl

find_target-session :
    (identifier : Text) (discovered : Option (List ManualPairingTarget)) (tv : AppleTv)
    → (find_target identifier discovered tv).1.session ≡ tv.session
unfolding find_target
find_target-session identifier discovered tv =
    elim (Option-cases (first (has_identifier identifier) tv.targets)) [
      | inl e ↦ rw (e, find_target) (discover-session discovered tv)
      | inr (target, e) ↦ rw (e, find_target) refl
    ]

-- The start of a session, which spawns a task where it succeeds.
abbrev Started :
    (Uuid → Point) → Uuid → Option Session → Result PairingError PairingStatus × AppleTv → Type 0
Started points id o r = Turn points o r.1.session × HasKept (spawned id r.0 points) r.1.session

begin-Started :
    (points : Uuid → Point) (now : Timestamp) (id : Uuid) (target : ManualPairingTarget)
    (tv : AppleTv) (o : Option Session)
    → points id ≡ absent
    → Started points id o (begin now id target tv)
begin-Started points now id target tv o fresh = (
  begins o (new_session now id target) fresh,
  subst (λ p. IsKept p (new_session now id target)) (sym (moved-at id pairing points))
      (record { spawned = λ e. cc; taken = λ h. absurd (cc h) }),
)

start_target-Started :
    (points : Uuid → Point) (now : Timestamp) (id : Uuid) (target : ManualPairingTarget)
    (tv : AppleTv)
    → points id ≡ absent
    → HasKept points tv.session
    → Started points id tv.session (start_target now id target tv)
unfolding start_target
start_target-Started points now id target tv fresh kept = go tv.session kept
  where
    go :
        (o : Option Session)
        → HasKept points o
        → Started points id o (start_target now id target (record tv { session = o }))
    go none k = begin-Started points now id target tv none fresh
    go (some s) k =
        let (f, due) = expire_if_due-Advance (points s.status.id) now s k in
        if-intro {A = Result PairingError PairingStatus × AppleTv} (Started points id (some s))
          (is_terminal (expire_if_due now s).status.phase)
          (λ e. begin-Started points now id target tv (some s) fresh)
          (λ e. (
            goes_on s (expire_if_due now s) f,
            subst (λ i. IsKept (points i) (expire_if_due now s)) (sym f.same_id) due,
          ))

start-Started :
    (points : Uuid → Point) (now : Timestamp) (id : Uuid) (identifier : Text)
    (discovered : Option (List ManualPairingTarget)) (tv : AppleTv)
    → points id ≡ absent
    → HasKept points tv.session
    → Started points id tv.session (start now id identifier discovered tv)
unfolding start
start-Started points now id identifier discovered tv fresh kept =
    subst (λ o. Started points id o (start now id identifier discovered tv))
      (find_target-session identifier discovered tv)
      (go (find_target identifier discovered tv).0 (find_target identifier discovered tv).1
        (subst (HasKept points) (sym (find_target-session identifier discovered tv)) kept))
  where
    go :
        (found : Option ManualPairingTarget) (after : AppleTv)
        → HasKept points after.session
        → Started points id after.session (elim found [
          | none ↦ (err unknown_target, after)
          | some target ↦ start_target now id target after
        ])
    go none after k = (same points after.session, k)
    go (some target) after k = start_target-Started points now id target after fresh k

pub Step-Turn :
    {v w : World}
    → Step v w
    → HasKept v.points v.tv.session
    → Turn v.points v.tv.session w.tv.session × HasKept w.points w.tv.session
unfolding status submit_pin cancel discover write
Step-Turn {v} (starts now id identifier discovered fresh) k =
    start-Started v.points now id identifier discovered v.tv fresh k
Step-Turn {v} (discovers none) k = (same v.points v.tv.session, k)
Step-Turn {v} (discovers (some targets)) k = (same v.points v.tv.session, k)
Step-Turn {v} (asks now id) k =
    on_session-Still v.points id (status_of now) (λ p s. expire_if_due-Advance p now s) v.tv k
Step-Turn {v} (submits now is_open id) k =
    on_session-Still v.points id (submit now is_open) (λ p s. submit-Advance p now is_open s) v.tv k
Step-Turn {v} (cancels id) k = on_session-Still v.points id cancel_session cancel-Advance v.tv k
Step-Turn {v} (prompts id at) k =
    write-Turn v.points id pairing pairing _ (λ e. cc) at set_phase-Active_prompt v.tv.session k
Step-Turn {v} (fails id failure at) k =
    write-Turn v.points id pairing ended _ (λ e. cc) at
      (set_phase-Active_failed ended failure (λ e. cc)) v.tv.session k
Step-Turn {v} (pairs id at) k =
    write-Turn v.points id pairing identifying _ (λ e. cc) at set_phase-Active_paired v.tv.session k
Step-Turn {v} (reaches id identity at) k =
    write-Turn v.points id identifying ended _ (λ e. cc) at
      (set_ready-Active identifying ended identity (λ e. cc)) v.tv.session k
