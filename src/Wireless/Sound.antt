-- ===== src/Wireless/Sound.antt =====
-- A start that is under way, the session that is there, and what changes of them keep.
use i_phone_loadly.Common.{
  ◌≡◌, refl, sym, ap, subst, ◌∙◌, Bool, true, false, not, ◌==◌, ==_iff, Option, none, some,
  if-intro, Bool-cases, inl, inr,
}
use i_phone_loadly.Store.{Uuid}
use i_phone_loadly.Wireless.{awaiting_device, PairingSessionStatus, SessionRuntime}
use i_phone_loadly.Wireless.Steps.{
  Point, absent, spawned, accepting, handshaking, committing, ended, moved, altered, on_own,
}
use i_phone_loadly.Wireless.Phases.{IsFitAt, IsFit, Writes, is_absent, is_waiting, moved-at}

abbrev pub HasFits : (Uuid → Point) → Option SessionRuntime → Type 0
HasFits points none = Unit
HasFits points (some r) = IsFit points r

-- The task of a start that has not stored its session: it waits for its turn, or found no session.
abbrev pub is_early : Point → Bool
is_early spawned = true
is_early ended = true
is_early _ = false

pub early-waiting : (p : Point) → is_early p ≡ true → (is_waiting p ≡ true) × (is_absent p ≡ false)
early-waiting spawned e = (refl, refl)
early-waiting ended e = (refl, refl)
early-waiting absent e = absurd (cc e)
early-waiting accepting e = absurd (cc e)
early-waiting handshaking e = absurd (cc e)
early-waiting committing e = absurd (cc e)

-- whether the session that is there has another identifier
abbrev pub is_apart : Uuid → Option SessionRuntime → Bool
is_apart id none = true
is_apart id (some r) = not (r.status.id == id)

-- A start that is under way.
pub record IsOpening (points : Uuid → Point) (o : Option SessionRuntime)
    (given : PairingSessionStatus) : Type 0 where
  pub early : is_early (points given.id) ≡ true
  pub awaits : given.phase ≡ awaiting_device
  pub no_code : given.setup_code ≡ none
  pub apart : is_apart given.id o ≡ true

abbrev pub HasOpening :
    (Uuid → Point) → Option SessionRuntime → Option PairingSessionStatus → Type 0
HasOpening points o none = Unit
HasOpening points o (some given) = IsOpening points o given

pub record IsSound (points : Uuid → Point) (starting : Option PairingSessionStatus)
    (o : Option SessionRuntime) : Type 0 where
  pub held : HasFits points o
  pub opening : HasOpening points o starting

pub moved-other :
    (i id : Uuid) (p : Point) (points : Uuid → Point)
    → i == id ≡ false
    → moved id p points i ≡ points i
moved-other i id p points e = rw e

-- A change of one session while the task of `id` moves.
own-IsFit :
    (points : Uuid → Point) (id : Uuid) (p q q' : Point) (change : SessionRuntime → SessionRuntime)
    (r : SessionRuntime)
    → points id ≡ p
    → (r.status.id == id ≡ true → q' ≡ q)
    → Writes p q change
    → IsFit points r
    → ((on_own id change r).status.id ≡ r.status.id)
      × IsFit (moved id q' points) (on_own id change r)
own-IsFit points id p q q' change r at_p goes writes k =
    if-intro (λ s. (s.status.id ≡ r.status.id) × IsFit (moved id q' points) s) (r.status.id == id)
      (λ e.
        let own = (==_iff r.status.id id).0 e in
        let (same, after) = writes r (subst (λ x. IsFitAt x r) (ap points own ∙ at_p) k) in
        let there = ap (moved id q' points) (same ∙ own) ∙ moved-at id q' points ∙ goes e in
        (same, subst (λ x. IsFitAt x (change r)) (sym there) after))
      (λ e. (refl, subst (λ x. IsFitAt x r) (sym (moved-other r.status.id id q' points e)) k))

pub own-HasFits :
    (points : Uuid → Point) (id : Uuid) (p q q' : Point) (change : SessionRuntime → SessionRuntime)
    (o : Option SessionRuntime)
    → points id ≡ p
    → ((r : SessionRuntime) → o ≡ some r → r.status.id == id ≡ true → q' ≡ q)
    → Writes p q change
    → HasFits points o
    → HasFits (moved id q' points) (altered (on_own id change) o)
own-HasFits points id p q q' change none at_p goes writes k = tt
own-HasFits points id p q q' change (some r) at_p goes writes k =
    (own-IsFit points id p q q' change r at_p (goes r refl) writes k).1

-- A start that is under way stays apart from the session that is there.
own-is_apart :
    (points : Uuid → Point) (id other : Uuid) (p q : Point)
    (change : SessionRuntime → SessionRuntime) (o : Option SessionRuntime)
    → points id ≡ p
    → Writes p q change
    → HasFits points o
    → is_apart other o ≡ true
    → is_apart other (altered (on_own id change) o) ≡ true
own-is_apart points id other p q change none at_p writes k e = refl
own-is_apart points id other p q change (some r) at_p writes k e =
    let same = (own-IsFit points id p q q change r at_p (λ _. refl) writes k).0 in
    ap (λ i. not (i == other)) same ∙ e

pub own-HasOpening :
    (points : Uuid → Point) (id : Uuid) (p q q' : Point) (change : SessionRuntime → SessionRuntime)
    (o : Option SessionRuntime) (starting : Option PairingSessionStatus)
    → points id ≡ p
    → Writes p q change
    → HasFits points o
    → ((given : PairingSessionStatus)
        → IsOpening points o given
        → given.id ≡ id
        → is_early q' ≡ true)
    → HasOpening points o starting
    → HasOpening (moved id q' points) (altered (on_own id change) o) starting
own-HasOpening points id p q q' change o none at_p writes k goes h = tt
own-HasOpening points id p q q' change o (some given) at_p writes k goes h = record {
  early = elim (Bool-cases (given.id == id)) [
    | inl e ↦
        let own = (==_iff given.id id).0 e in
        ap is_early (ap (moved id q' points) own ∙ moved-at id q' points) ∙ goes given h own
    | inr e ↦ ap is_early (moved-other given.id id q' points e) ∙ h.early
  ];
  awaits = h.awaits;
  no_code = h.no_code;
  apart = own-is_apart points id given.id p q change o at_p writes k h.apart;
}

-- A step of the task of a session that has been found.
pub task-IsSound :
    (points : Uuid → Point) (id : Uuid) (p q q' : Point) (change : SessionRuntime → SessionRuntime)
    (o : Option SessionRuntime) (starting : Option PairingSessionStatus)
    → points id ≡ p
    → is_early p ≡ false
    → ((r : SessionRuntime) → o ≡ some r → r.status.id == id ≡ true → q' ≡ q)
    → Writes p q change
    → IsSound points starting o
    → IsSound (moved id q' points) starting (altered (on_own id change) o)
task-IsSound points id p q q' change o starting at_p late goes writes k = record {
  held = own-HasFits points id p q q' change o at_p goes writes k.held;
  opening =
      own-HasOpening points id p q q' change o starting at_p writes k.held
        (λ given h e. absurd (cc (sym late ∙ ap is_early (sym at_p ∙ ap points (sym e)) ∙ h.early)))
        k.opening;
}

-- A request, which moves no task.
pub asked-IsSound :
    (points : Uuid → Point) (id : Uuid) (change : SessionRuntime → SessionRuntime)
    (o : Option SessionRuntime) (starting : Option PairingSessionStatus)
    → ((p : Point) → Writes p p change)
    → IsSound points starting o
    → IsSound points starting (altered (on_own id change) o)
asked-IsSound points id change o starting writes k = record {
  held = fit o k.held;
  opening = kept_open starting k.opening;
}
  where
    fit :
        (o' : Option SessionRuntime)
        → HasFits points o'
        → HasFits points (altered (on_own id change) o')
    fit none h = tt
    fit (some r) h =
        if-intro (λ s. IsFit points s) (r.status.id == id)
          (λ _.
            let (same, after) = writes (points r.status.id) r h in
            subst (λ i. IsFitAt (points i) (change r)) (sym same) after)
          (λ _. h)

    kept_open :
        (s : Option PairingSessionStatus)
        → HasOpening points o s
        → HasOpening points (altered (on_own id change) o) s
    kept_open none h = tt
    kept_open (some given) h = record {
      early = h.early;
      awaits = h.awaits;
      no_code = h.no_code;
      apart =
          own-is_apart points id given.id (points id) (points id) change o refl (writes (points id))
            k.held h.apart;
    }
