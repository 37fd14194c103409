-- ===== src/Install/Plan/Total.antt =====
-- The plan of an upload ends, within its limits, whatever the file system answers.
use i_phone_loadly.Common.{
  ℕ, zero, suc, ◌≡◌, ◌≤◌, refl, sym, ap, subst, ◌+◌, ◌^◌, Text, Bool, true, false, not, Option,
  some, List, [], ◌∷◌, ◌++◌, length, length-append, All, All-append, All-order_by, length-order_by,
  order_by, ltb, Result, ok, err, ◌>>=◌, Holds, Holds-bind, if-intro, arith,
}
use i_phone_loadly.Install.Upload.{UploadEntryKind}
use i_phone_loadly.Install.Execute.{
  UploadPlanFailure, timeout, local_io, source_symlink, too_many_bytes,
}
use i_phone_loadly.Install.Plan.{
  rsd_install_file_limit, rsd_install_byte_limit, normal, not_unicode, other, RelativePath,
  is_unsafe, safe_parts, join, joined, safe_remote_relative_path, validate_upload_bounds, Kind,
  symlink, dir, regular, special, Child, Turn, Directory, PlanEntry, Progress, required, some_or,
  in_place, plan_kind, pushed, plan_turn, plan_turns, plan_directory, plan_loop, Root, root_checked,
  start, plan_fuel, after_loop, plan_signed_bundle_until, is_symlink, is_dir, by_path,
}

-- A remote path of safe names, at least one.
pub record IsSafePath (remote : Text) : Type 0 where
  pub head : Text
  pub tail : List Text
  pub joins : remote ≡ join (head ∷ tail)
  pub safe : All (λ name. is_unsafe name ≡ false) (head ∷ tail)

safe_parts-safe :
    (path : RelativePath) → Holds (All (λ name. is_unsafe name ≡ false)) (safe_parts path)
unfolding safe_parts
safe_parts-safe [] = tt
safe_parts-safe (not_unicode ∷ path) = tt
safe_parts-safe (other ∷ path) = tt
safe_parts-safe (normal name ∷ path) =
    if-intro (Holds (All (λ name. is_unsafe name ≡ false))) (is_unsafe name) (λ _. tt)
      λ safe.
        Holds-bind _ (safe_parts path) (λ parts. ok (name ∷ parts))
          λ parts e.
            (safe, subst (Holds (All (λ name. is_unsafe name ≡ false))) e (safe_parts-safe path))

joined-IsSafePath :
    (parts : List Text)
    → All (λ name. is_unsafe name ≡ false) parts
    → Holds IsSafePath (joined parts)
joined-IsSafePath [] h = tt
joined-IsSafePath (part ∷ parts) h = record { head = part; tail = parts; joins = refl; safe = h }

safe_remote_relative_path-IsSafePath :
    (path : RelativePath) → Holds IsSafePath (safe_remote_relative_path path)
unfolding safe_remote_relative_path
safe_remote_relative_path-IsSafePath path =
    Holds-bind IsSafePath (safe_parts path) joined λ parts e.
      joined-IsSafePath parts
        (subst (Holds (All (λ name. is_unsafe name ≡ false))) e (safe_parts-safe path))

-- The bounds of a plan.
pub record IsBounded (p : Progress) : Type 0 where
  pub entries : length p.entries ≤ rsd_install_file_limit
  pub bytes : p.byte_count ≤ rsd_install_byte_limit
  pub safe : All (λ e. IsSafePath e.remote_relative_path) p.entries

-- How the plan goes on: in its bounds, and each directory that is put off has an entry.
record Grows (p q : Progress) : Type 0 where
  bounded : IsBounded p → IsBounded q
  put_off : length q.pending + length p.entries ≤ length p.pending + length q.entries

Grows-refl : (p : Progress) → Grows p p
Grows-refl p = record { bounded = λ b. b; put_off = omega arith }

Grows-trans : {p q r : Progress} → Grows p q → Grows q r → Grows p r
Grows-trans f g = record {
  bounded = λ b. g.bounded (f.bounded b);
  put_off = omega (arith, f.put_off, g.put_off);
}

validate-bounds :
    (entry_count byte_count : ℕ) {u : Unit}
    → validate_upload_bounds entry_count byte_count ≡ ok u
    → (entry_count ≤ rsd_install_file_limit) × (byte_count ≤ rsd_install_byte_limit)
unfolding validate_upload_bounds
validate-bounds entry_count byte_count h = ground arith

-- What a child may do before its entry is there.
record Offers (p q : Progress) : Type 0 where
  entries : q.entries ≡ p.entries
  pending : length q.pending ≤ suc (length p.pending)

plan_kind-Offers :
    (path : RelativePath) (c : Child) (p : Progress) (kind : Kind)
    → Holds (λ r. Offers p r.1) (plan_kind path c p kind)
unfolding plan_kind
plan_kind-Offers path c p symlink = tt
plan_kind-Offers path c p special = tt
plan_kind-Offers path c p dir = Holds-bind _ (required c.hardens local_io) _ λ _ _.
    Holds-bind _ (some_or local_io c.identity) _
      λ _ _. record { entries = refl; pending = omega (arith, length-append p.pending (path ∷ [])) }
plan_kind-Offers path c p regular = Holds-bind _ (required c.hardens local_io) _ λ _ _.
    Holds-bind _ (required (ltb (p.byte_count + c.size) (2 ^ 64)) too_many_bytes) _ λ _ _.
      Holds-bind _ (validate_upload_bounds (length p.entries) (p.byte_count + c.size)) _ λ _ _.
        Holds-bind _ (some_or local_io c.identity) _
          λ _ _. Holds-bind _ c.digest _ λ _ _. record { entries = refl; pending = omega arith }

abbrev entry_of : Text → UploadEntryKind → PlanEntry
entry_of remote kind = record { remote_relative_path = remote; kind = kind }

pushed-Grows :
    (remote : Text) (p : Progress) (r : UploadEntryKind × Progress)
    → IsSafePath remote
    → Offers p r.1
    → Holds (Grows p) (pushed remote r)
pushed-Grows remote p (kind, q) safe offers =
    let entry = entry_of remote kind in
    Holds-bind _ (validate_upload_bounds (length (q.entries ++ entry ∷ [])) q.byte_count) _ λ _ e.
      let (few, small) = validate-bounds (length (q.entries ++ entry ∷ [])) q.byte_count e in
      record {
        bounded = λ b. record {
          entries = few;
          bytes = small;
          safe =
              All-append (λ x. IsSafePath x.remote_relative_path) q.entries (entry ∷ [])
                (subst (All (λ x. IsSafePath x.remote_relative_path)) (sym offers.entries) b.safe)
                (safe, tt);
        };
        put_off =
            omega (
              arith,
              offers.pending,
              length-append q.entries (entry ∷ []),
              ap length offers.entries,
            );
      }

plan_turn-Grows :
    (parent : RelativePath) (turn : Turn) (p : Progress) → Holds (Grows p) (plan_turn parent turn p)
unfolding plan_turn
plan_turn-Grows parent turn p = Holds-bind _ (required (not turn.is_late) timeout) _ λ _ _.
    Holds-bind _ (some_or local_io turn.child) _ λ c _.
      Holds-bind _ (some_or local_io c.kind) _ λ kind _.
        Holds-bind _ (required (not (is_symlink kind)) source_symlink) _ λ _ _.
          Holds-bind _ (in_place c.place) _ λ _ _.
            let path = parent ++ c.name ∷ [] in
            Holds-bind _ (safe_remote_relative_path path) _ λ remote e.
              Holds-bind _ (plan_kind path c p kind) _ λ planned f.
                pushed-Grows remote p planned
                  (subst (Holds IsSafePath) e (safe_remote_relative_path-IsSafePath path))
                  (subst (Holds (λ r. Offers p r.1)) f (plan_kind-Offers path c p kind))

plan_turns-Grows :
    (parent : RelativePath) (turns : List Turn) (p : Progress)
    → Holds (Grows p) (plan_turns parent turns p)
unfolding plan_turns
plan_turns-Grows parent [] p = Grows-refl p
plan_turns-Grows parent (turn ∷ turns) p =
    Holds-bind (Grows p) (plan_turn parent turn p) (plan_turns parent turns) λ q e.
      Holds-map (subst (Holds (Grows p)) e (plan_turn-Grows parent turn p))
        (plan_turns parent turns q) (plan_turns-Grows parent turns q)
  where
    Holds-map :
        {q : Progress}
        → Grows p q
        → (r : Result UploadPlanFailure Progress) → Holds (Grows q) r
        → Holds (Grows p) r
    Holds-map f (err e) g = tt
    Holds-map f (ok q) g = Grows-trans f g

plan_directory-Grows :
    (path : RelativePath) (d : Directory) (p : Progress) → Holds (Grows p) (plan_directory path d p)
unfolding plan_directory
plan_directory-Grows path d p = Holds-bind _ (required (not d.is_late) timeout) _ λ _ _.
    Holds-bind _ (some_or local_io d.kind) _ λ kind _.
      Holds-bind _ (required (is_dir kind) source_symlink) _ λ _ _.
        Holds-bind _ (required d.hardens local_io) _ λ _ _. Holds-bind _ (in_place d.place) _ λ _ _.
          Holds-bind _ (some_or local_io d.children) _ λ turns _. plan_turns-Grows path turns p

-- A loop that is over: with an error, or with a plan in its bounds.
pub data Finishes : Option (Result UploadPlanFailure Progress) → Type 0 where
  refuses : (failure : UploadPlanFailure) → Finishes (some (err failure))
  plans : (p : Progress) → IsBounded p → Finishes (some (ok p))

rested :
    (p : Progress) (pending : List RelativePath)
    → IsBounded p
    → IsBounded (record p { pending = pending })
rested p pending b = record { entries = b.entries; bytes = b.bytes; safe = b.safe }

plan_loop-Finishes :
    (fs : RelativePath → Directory) (fuel : ℕ) (pending : List RelativePath) (p : Progress)
    → IsBounded p
    → length pending + rsd_install_file_limit ≤ fuel + length p.entries
    → Finishes (plan_loop fs fuel (record p { pending = pending }))
unfolding plan_loop
plan_loop-Finishes fs zero [] p b enough = plans _ (rested p [] b)
plan_loop-Finishes fs zero (path ∷ paths) p b enough = absurd (omega (arith, b.entries))
plan_loop-Finishes fs (suc fuel) [] p b enough = plans _ (rested p [] b)
plan_loop-Finishes fs (suc fuel) (path ∷ paths) p b enough =
    next (λ q b enough. plan_loop-Finishes fs fuel q.pending q b enough)
      (plan_directory path (fs path) (record p { pending = paths }))
      (plan_directory-Grows path (fs path) (record p { pending = paths }))
  where
    next :
        ((q : Progress)
          → IsBounded q
          → length q.pending + rsd_install_file_limit ≤ fuel + length q.entries
          → Finishes (plan_loop fs fuel q))
        → (r : Result UploadPlanFailure Progress) → Holds (Grows (record p { pending = paths })) r
        → Finishes (elim r [ err failure ↦ some (err failure) | ok q ↦ plan_loop fs fuel q ])
    next again (err failure) g = refuses failure
    next again (ok q) g = again q (g.bounded (rested p paths b)) (omega (arith, g.put_off))

after_loop-Finishes :
    (r : Root) (o : Option (Result UploadPlanFailure Progress))
    → Finishes o
    → Finishes (after_loop r o)
after_loop-Finishes r _ (refuses failure) = refuses failure
after_loop-Finishes r _ (plans p b) = late (not r.is_late_after)
  where
    late :
        (c : Bool)
        → Finishes (
            some
              (required c timeout >>= λ _. ok (record p { entries = order_by by_path p.entries })))
    late false = refuses timeout
    late true = plans _ (record {
      entries = omega (arith, length-order_by by_path p.entries, b.entries);
      bytes = b.bytes;
      safe = All-order_by (λ e. IsSafePath e.remote_relative_path) by_path p.entries b.safe;
    })

-- Whatever tree, even one without an end, the file system shows, the fuel is enough: the plan of an
-- upload ends, and it is refused or has at most 20000 entries and 2 GiB, each entry with a remote path
-- of names that are not empty, `.` or `..` and have no slash, backslash or NUL.
pub plan_signed_bundle_until-Finishes :
    (root : Root) (fs : RelativePath → Directory) → Finishes (plan_signed_bundle_until root fs)
unfolding plan_signed_bundle_until
plan_signed_bundle_until-Finishes root fs = go (root_checked root)
  where
    empty : IsBounded start
    empty = record { entries = omega arith; bytes = omega arith; safe = tt }

    go :
        (r : Result UploadPlanFailure (Unit {0}))
        → Finishes (elim r [
          | err failure ↦ some (err failure)
          | ok _ ↦ after_loop root (plan_loop fs plan_fuel start)
        ])
    go (err failure) = refuses failure
    go (ok _) =
        after_loop-Finishes root (plan_loop fs plan_fuel start)
          (plan_loop-Finishes fs plan_fuel ([] ∷ []) start empty (omega arith))
