-- ===== src/AppleTv/Order/Run.antt =====
-- The phases of a session over any sequence of steps.
use i_phone_loadly.Common.{
  ◌≡◌, ◌≢◌, sym, ap, subst, ◌∙◌, ◌==◌, Option, some, if-intro, Result, ok, err,
}
use i_phone_loadly.Store.{Uuid}
use i_phone_loadly.AppleTv.{PairingError, PairingStatus, Session, start}
use i_phone_loadly.AppleTv.Steps.{
  Point, absent, pairing, World, moved, spawned, Step, starts, discovers, asks, submits, cancels,
  prompts, fails, pairs, reaches, Steps, stay, step, initial,
}
use i_phone_loadly.AppleTv.Order.{IsForward}
use i_phone_loadly.AppleTv.Order.Writes.{IsForward-refl, IsForward-trans}
use i_phone_loadly.AppleTv.Order.Requests.{HasKept, Turn, goes_on, begins, Step-Turn}

moved-known :
    (id other : Uuid) (p : Point) (points : Uuid → Point)
    → p ≢ absent
    → points other ≢ absent
    → moved id p points other ≢ absent
moved-known id other p points b k = if-intro (λ q. q ≢ absent) (other == id) (λ _. b) (λ _. k)

spawned-known :
    (id other : Uuid) (r : Result PairingError PairingStatus) (points : Uuid → Point)
    → points other ≢ absent
    → spawned id r points other ≢ absent
spawned-known id other (ok _) points k = moved-known id other pairing points (λ e. cc) k
spawned-known id other (err _) points k = k

-- A task that was spawned stays known.
Step-known :
    {v w : World} → Step v w → (other : Uuid) → v.points other ≢ absent → w.points other ≢ absent
Step-known {v} (starts now id identifier discovered fresh) other k =
    spawned-known id other (start now id identifier discovered v.tv).0 v.points k
Step-known (discovers discovered) other k = k
Step-known (asks now id) other k = k
Step-known (submits now is_open id) other k = k
Step-known (cancels id) other k = k
Step-known {v} (prompts id at) other k = moved-known id other _ v.points (λ e. cc) k
Step-known {v} (fails id failure at) other k = moved-known id other _ v.points (λ e. cc) k
Step-known {v} (pairs id at) other k = moved-known id other _ v.points (λ e. cc) k
Step-known {v} (reaches id identity at) other k = moved-known id other _ v.points (λ e. cc) k

-- What became of a session: it went on, or another one has its place for good.
pub data Later (s : Session) : Option Session → Type 0 where
  same : (t : Session) → IsForward s t → Later s (some t)
  replaced : (t : Session) → t.status.id ≢ s.status.id → Later s (some t)

-- A world that the server reaches.
abbrev pub Reach : World → Type 0
Reach = Steps initial

Reach-HasKept :
    {v w : World} → Steps v w → HasKept v.points v.tv.session → HasKept w.points w.tv.session
Reach-HasKept stay k = k
Reach-HasKept (step steps last) k = (Step-Turn last (Reach-HasKept steps k)).1

Later-Turn :
    (s : Session) (points : Uuid → Point) {o p : Option Session}
    → points s.status.id ≢ absent
    → Later s o
    → Turn points o p
    → Later s p
Later-Turn s points known (same t f) (goes_on _ u g) = same u (IsForward-trans f g)
Later-Turn s points known (same t f) (begins o u fresh) =
    replaced u (λ e. known (ap points (sym e) ∙ fresh))
Later-Turn s points known (replaced t b) (goes_on _ u g) = replaced u (λ e. b (sym g.same_id ∙ e))
Later-Turn s points known (replaced t b) (begins o u fresh) =
    replaced u (λ e. known (ap points (sym e) ∙ fresh))

Steps-known :
    {v w : World} → Steps v w → (other : Uuid) → v.points other ≢ absent → w.points other ≢ absent
Steps-known stay other k = k
Steps-known (step steps last) other k = Step-known last other (Steps-known steps other k)

Steps-from :
    {v w : World} (s : Session)
    → HasKept v.points v.tv.session
    → v.points s.status.id ≢ absent
    → Steps v w
    → Later s v.tv.session
    → Later s w.tv.session
Steps-from s kept known stay l = l
Steps-from {v} s kept known (step {w} steps last) l =
    Later-Turn s w.points (Steps-known steps s.status.id known) (Steps-from s kept known steps l)
      (Step-Turn last (Reach-HasKept steps kept)).0

-- Whatever requests and tasks do in whatever order, after a session of a reached world there is that
-- session in a phase as far or further, unchanged where it had ended, or one of another identifier.
pub Steps-IsForward :
    {v w : World} (s : Session) → Reach v → Steps v w → v.tv.session ≡ some s → Later s w.tv.session
Steps-IsForward {v} s reach steps e =
    let kept = Reach-HasKept reach tt in
    Steps-from s kept (subst (HasKept v.points) e kept).spawned steps
      (subst (Later s) (sym e) (same s (IsForward-refl s)))
