-- ===== src/Store/Refresh/Latest.antt =====
-- The latest completion of a list of jobs, and the join of jobs with apps.
use i_phone_loadly.Common.{
  ◌≡◌, refl, sym, ap, ◌∙◌, Option, none, some, List, [], ◌∷◌, ◌≤◌, ◌⊎◌, ◌≢◌, ◌==◌, ==_iff, map,
  select, In, here, there, In-map, In-map_sound, In-select_sound, In-select_complete,
  In-append_left, In-append_right, In-append_cases, Option-cases, inl, inr, arith,
}
use i_phone_loadly.Store.{Timestamp, AppRow, JobRow}
use i_phone_loadly.Store.Managed.{join_apps, later, max_completed}

-- The later of two completions, where it is known.
later_upper :
    (a b : Option Timestamp) (u m : Timestamp)
    → later a b ≡ some m
    → (a ≡ some u) ⊎ (b ≡ some u)
    → u ≤ m
later_upper none b u m h k = ground arith
later_upper (some t) none u m h k = ground arith
later_upper (some t) (some v) u m h k = ground arith

later_cases : (a b : Option Timestamp) → (later a b ≡ a) ⊎ (later a b ≡ b)
later_cases none b = inr refl
later_cases (some t) none = inl refl
later_cases (some t) (some v) = ground arith

later-some : (t : Timestamp) (b : Option Timestamp) → later (some t) b ≢ none
later-some t none h = cc
later-some t (some v) h = ground arith

later-none : (a b : Option Timestamp) → later a b ≡ none → b ≡ none
later-none none b h = h
later-none (some t) none h = refl
later-none (some t) (some v) h = absurd (ground arith)

later_grows : (a b : Option Timestamp) (m n : Timestamp) → later a b ≡ some m → b ≡ some n → n ≤ m
later_grows a b m n h k = later_upper a b n m h (inr k)

-- Where a job has completed there is a maximum.
pub max_completed-some :
    (l : JobRow) (u : Timestamp) {jobs : List JobRow}
    → In l jobs
    → l.completed_at ≡ some u
    → max_completed jobs ≢ none
unfolding max_completed
max_completed-some l u (here {xs = js}) e h =
    later-some u (max_completed js) (ap (λ c. later c (max_completed js)) (sym e) ∙ h)
max_completed-some l u (there {x = j} {xs = js} i) e h =
    max_completed-some l u i e (later-none j.completed_at (max_completed js) h)

-- No completion passes the maximum.
pub max_completed_upper :
    (l : JobRow) (u m : Timestamp) {jobs : List JobRow}
    → In l jobs
    → l.completed_at ≡ some u
    → max_completed jobs ≡ some m
    → u ≤ m
unfolding max_completed
max_completed_upper l u m (here {xs = js}) e h =
    later_upper l.completed_at (max_completed js) u m h (inl e)
max_completed_upper l u m (there {x = j} {xs = js} i) e h = elim (Option-cases (max_completed js)) [
  | inl k ↦ absurd (max_completed-some l u i e k)
  | inr (n, k) ↦
      let below = max_completed_upper l u n i e k in
      let grows = later_grows j.completed_at (max_completed js) m n h k in omega arith
]

-- The maximum is the completion of one of the jobs.
pub max_completed_attained :
    (m : Timestamp) (jobs : List JobRow)
    → max_completed jobs ≡ some m
    → (l : JobRow) × In l jobs × (l.completed_at ≡ some m)
unfolding max_completed
max_completed_attained m [] h = absurd (cc h)
max_completed_attained m (j ∷ js) h = elim (later_cases j.completed_at (max_completed js)) [
  | inl e ↦ (j, here, sym e ∙ h)
  | inr e ↦ let (l, i, k) = max_completed_attained m js (sym e ∙ h) in (l, there i, k)
]

pub In-join_sound :
    (apps : List AppRow) (jobs : List JobRow) (r : JobRow × AppRow)
    → In r (join_apps apps jobs)
    → In r.0 jobs × In r.1 apps × (r.1.id ≡ r.0.app_id)
unfolding join_apps
In-join_sound apps [] r m = elim m [ ]
In-join_sound apps (j ∷ js) r m =
    elim (In-append_cases (map (λ a. (j, a)) (select (λ a. a.id == j.app_id) apps)) _ m) [
      | inl k ↦
          let (a, i, e) =
            In-map_sound (λ (a : AppRow). let r : JobRow × AppRow = (j, a) in r) _ k in
          let (n, q) = In-select_sound (λ (a : AppRow). a.id == j.app_id) apps i in
          rw e (here, n, (==_iff _ _).0 q)
      | inr k ↦ let (i, n, e) = In-join_sound apps js r k in (there i, n, e)
    ]

pub In-join_complete :
    (apps : List AppRow) (j : JobRow) (a : AppRow) {jobs : List JobRow}
    → In j jobs
    → In a apps
    → a.id ≡ j.app_id
    → In (j, a) (join_apps apps jobs)
unfolding join_apps
In-join_complete apps j a here n e = In-append_left _ (
    In-map (λ (b : AppRow). let r : JobRow × AppRow = (j, b) in r)
      (In-select_complete (λ (b : AppRow). b.id == j.app_id) n ((==_iff _ _).1 e)))
In-join_complete apps j a (there {x} i) n e =
    In-append_right (map (λ b. (x, b)) (select (λ b. b.id == x.app_id) apps))
      (In-join_complete apps j a i n e)
