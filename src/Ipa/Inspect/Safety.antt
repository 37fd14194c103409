-- ===== src/Ipa/Inspect/Safety.antt =====
-- What an archive that `inspect_ipa` accepts satisfies.
use mathlib.Core.Option.{get_or, some-injective}
use i_phone_loadly.Common.{
  ℕ, ◌+◌, ◌/◌, ◌≤◌, ◌<◌, ◌≡◌, refl, sym, ap, subst, ◌∙◌, Bool, true, false, Option, none, some,
  List, [], ◌∷◌, Text, arith, ltb, length, All, ok, >>=-eq-ok, ok-injective, Bool-cases,
  Option-cases, inl, inr, text_eq, text_eq_iff,
}
use i_phone_loadly.Ipa.{
  UploadError, expansion_limit, UploadMetadata, Plist, Entry, UploadFile, max_compressed_bytes,
  max_expanded_bytes, max_entries, max_compression_ratio, ratio_check_min_bytes,
}
use i_phone_loadly.Ipa.Paths.{is_unsafe, validate_archive_path, main_bundle_from_entry}
use i_phone_loadly.Ipa.Inspect.{
  Inspection, initial, saturating_add, is_blank, not_blank, check_sizes, next_bundle,
  read_info_plist, inspect_entry, inspect_entries, conclude, check, readable, inspect_ipa,
  with_dictionary, read_dictionary, is_info_plist,
}

-- the sum of the sizes that the entries declare
abbrev pub total_size : List (Option Entry) → ℕ
total_size [] = 0
total_size (none ∷ entries) = total_size entries
total_size (some entry ∷ entries) = entry.size + total_size entries

-- An entry is within the limits and belongs to the bundle, if to any.
pub record IsAccepted (bundle : Text) (entry : Entry) : Type 0 where
  pub safe : is_unsafe entry.name ≡ false
  pub ratio :
      ratio_check_min_bytes ≤ entry.size
      → 0 < entry.compressed_size
      → entry.size / entry.compressed_size ≤ max_compression_ratio
  pub one_bundle : (other : Text) → main_bundle_from_entry entry.name ≡ some other → other ≡ bundle

-- … of an entry that could be read
abbrev pub Accepted : Text → Option Entry → Type 0
Accepted bundle none = ⊥
Accepted bundle (some entry) = IsAccepted bundle entry

validate-eq-ok :
    (name : Text) {u : Unit} → validate_archive_path name ≡ ok u → is_unsafe name ≡ false
unfolding validate_archive_path
validate-eq-ok name h = ground arith

check_sizes-eq-ok :
    (expanded : ℕ) (entry : Entry) {u : Unit}
    → check_sizes expanded entry ≡ ok u
    → (expanded ≤ max_expanded_bytes)
      × (ratio_check_min_bytes ≤ entry.size
          → 0 < entry.compressed_size
          → entry.size / entry.compressed_size ≤ max_compression_ratio)
unfolding check_sizes
check_sizes-eq-ok expanded entry h = (ground arith, λ big some_bytes. ground arith)

-- A saturated sum below the limit is the sum.
saturating_add-eq : (a b : ℕ) → saturating_add a b ≤ max_expanded_bytes → saturating_add a b ≡ a + b
unfolding saturating_add
saturating_add-eq a b h = ground arith

next_bundle-known :
    (bundle : Text) (found b : Option Text)
    → next_bundle (some bundle) found ≡ ok b
    → b ≡ some bundle
unfolding next_bundle
next_bundle-known bundle none b h = sym (ok-injective h)
next_bundle-known bundle (some other) b h = elim (Bool-cases (text_eq bundle other)) [
  | inl e ↦ sym (ok-injective (rw e at h))
  | inr e ↦ absurd (cc (rw e at h))
]

next_bundle-found :
    (known : Option Text) (found : Text) (b : Option Text)
    → next_bundle known (some found) ≡ ok b
    → b ≡ some found
unfolding next_bundle
next_bundle-found none found b h = sym (ok-injective h)
next_bundle-found (some bundle) found b h = elim (Bool-cases (text_eq bundle found)) [
  | inl e ↦ sym (ok-injective (rw e at h)) ∙ ap (λ t. some t) ((text_eq_iff bundle found).0 e)
  | inr e ↦ absurd (cc (rw e at h))
]

-- What one turn of the loop does to the variables that the limits are about.
record IsTurn (s t : Inspection) (entry : Entry) : Type 0 where
  safe : is_unsafe entry.name ≡ false
  ratio :
      ratio_check_min_bytes ≤ entry.size
      → 0 < entry.compressed_size
      → entry.size / entry.compressed_size ≤ max_compression_ratio
  counted : t.expanded_bytes ≡ s.expanded_bytes + entry.size
  within : t.expanded_bytes ≤ max_expanded_bytes
  kept : (bundle : Text) → s.app_bundle ≡ some bundle → t.app_bundle ≡ some bundle
  found :
      (bundle : Text) → main_bundle_from_entry entry.name ≡ some bundle → t.app_bundle ≡ some bundle

not_blank-eq-some :
    (o : Option Text) (value : Text) → not_blank o ≡ some value → is_blank value ≡ false
not_blank-eq-some none value h = absurd (cc h)
not_blank-eq-some (some t) value h = elim (Bool-cases (is_blank t)) [
  | inl e ↦ absurd (cc (rw e at h))
  | inr e ↦ subst (λ x. is_blank x ≡ false) (some-injective t value (rw e at h)) e
]

is_blank-get_or :
    (o : Option Text) (value : Text)
    → is_blank value ≡ false
    → is_blank (get_or (not_blank o) value) ≡ false
is_blank-get_or o value h = elim (Option-cases (not_blank o)) [
  | inl e ↦ rw e h
  | inr (t, e) ↦ rw e (not_blank-eq-some o t e)
]

module _ (P : Plist) where
  read_info_plist-keeps :
      (s t : Inspection) (entry : Entry)
      → read_info_plist P s entry ≡ ok t
      → (t.expanded_bytes ≡ s.expanded_bytes) × (t.app_bundle ≡ s.app_bundle)
  unfolding read_info_plist with_dictionary
  read_info_plist-keeps s t entry h = elim (Bool-cases (is_info_plist s.app_bundle entry.name)) [
    | inl e ↦
        let (d, _, k) = >>=-eq-ok (read_dictionary P entry) _ (rw e at h) in
        let same = sym (ok-injective k) in
        (ap (λ x. x.expanded_bytes) same, ap (λ x. x.app_bundle) same)
    | inr e ↦
        let same = sym (ok-injective (rw e at h)) in
        (ap (λ x. x.expanded_bytes) same, ap (λ x. x.app_bundle) same)
  ]

  inspect_entry-IsTurn :
      (s t : Inspection) (entry : Entry) → inspect_entry P s entry ≡ ok t → IsTurn s t entry
  unfolding inspect_entry
  inspect_entry-IsTurn s t entry h =
      let expanded = saturating_add s.expanded_bytes entry.size in
      let (_, named, after_name) = >>=-eq-ok (validate_archive_path entry.name) _ h in
      let (_, sized, after_sizes) = >>=-eq-ok (check_sizes expanded entry) _ after_name in
      let (b, bundled, last) =
        >>=-eq-ok (next_bundle s.app_bundle (main_bundle_from_entry entry.name)) _ after_sizes in
      let (bytes, bundle) = read_info_plist-keeps _ t entry last in
      let (low, ratio) = check_sizes-eq-ok expanded entry sized in
      let exact = saturating_add-eq s.expanded_bytes entry.size low in
      record {
        safe = validate-eq-ok entry.name named;
        ratio = ratio;
        counted = bytes ∙ exact;
        within = subst (λ n. n ≤ max_expanded_bytes) (sym bytes) low;
        kept = λ known e. bundle ∙ next_bundle-known known _ b (rw e at bundled);
        found = λ other e. bundle ∙ next_bundle-found s.app_bundle other b (rw e at bundled);
      }

  -- The bundle that is known stays the bundle to the end.
  inspect_entries-kept :
      (s t : Inspection) (entries : List (Option Entry)) (bundle : Text)
      → inspect_entries P s entries ≡ ok t
      → s.app_bundle ≡ some bundle
      → t.app_bundle ≡ some bundle
  unfolding inspect_entries
  inspect_entries-kept s t [] bundle h e = ap (λ x. x.app_bundle) (sym (ok-injective h)) ∙ e
  inspect_entries-kept s t (none ∷ entries) bundle h e = absurd (cc h)
  inspect_entries-kept s t (some entry ∷ entries) bundle h e =
      let (u, k, l) = >>=-eq-ok (inspect_entry P s entry) _ h in
      inspect_entries-kept u t entries bundle l
        (IsTurn.kept (inspect_entry-IsTurn s u entry k) bundle e)

  inspect_entries-counted :
      (s t : Inspection) (entries : List (Option Entry))
      → s.expanded_bytes ≤ max_expanded_bytes
      → inspect_entries P s entries ≡ ok t
      → (t.expanded_bytes ≡ s.expanded_bytes + total_size entries)
        × (t.expanded_bytes ≤ max_expanded_bytes)
  unfolding inspect_entries
  inspect_entries-counted s t [] low h =
      let same = sym (ok-injective h) in rw same (omega arith, low)
  inspect_entries-counted s t (none ∷ entries) low h = absurd (cc h)
  inspect_entries-counted s t (some entry ∷ entries) low h =
      let (u, k, l) = >>=-eq-ok (inspect_entry P s entry) _ h in
      let turn = inspect_entry-IsTurn s u entry k in
      let (sum, most) = inspect_entries-counted u t entries turn.within l in
      let one = turn.counted in (omega (arith, sum, one), most)

  inspect_entries-Accepted :
      (s t : Inspection) (entries : List (Option Entry)) (bundle : Text)
      → inspect_entries P s entries ≡ ok t
      → t.app_bundle ≡ some bundle
      → All (Accepted bundle) entries
  unfolding inspect_entries
  inspect_entries-Accepted s t [] bundle h e = tt
  inspect_entries-Accepted s t (none ∷ entries) bundle h e = absurd (cc h)
  inspect_entries-Accepted s t (some entry ∷ entries) bundle h e =
      let (u, k, l) = >>=-eq-ok (inspect_entry P s entry) _ h in
      let turn = inspect_entry-IsTurn s u entry k in
      (
        record {
          safe = turn.safe;
          ratio = turn.ratio;
          one_bundle = λ other found.
              some-injective other bundle
                (sym (inspect_entries-kept u t entries other l (turn.found other found)) ∙ e);
        },
        inspect_entries-Accepted u t entries bundle l e,
      )

  -- What the code after the loop takes from the variables.
  record IsConcluded (len : ℕ) (s : Inspection) (m : UploadMetadata) : Type 0 where
    bundle : s.app_bundle ≡ some m.app_bundle_path
    read : s.info_plist_present ≡ true
    bundle_id : is_blank m.bundle_id ≡ false
    display_name : is_blank m.display_name ≡ false
    size : m.size_bytes ≡ len

  conclude-IsConcluded :
      (digest : Text) (len : ℕ) (s : Inspection) (m : UploadMetadata)
      → conclude P digest len s ≡ ok m
      → IsConcluded len s m
  unfolding conclude
  conclude-IsConcluded digest len s m h = elim (Option-cases s.app_bundle) [
    | inl e ↦ absurd (cc (rw e at h))
    | inr (path, e) ↦ elim (Bool-cases s.info_plist_present) [
      | inl r ↦ elim (Option-cases (not_blank s.bundle_id)) [
        | inl f ↦ absurd (cc (rw (e, r, f) at h))
        | inr (id, f) ↦
            let same = ok-injective (rw (e, r, f) at h) in
            let filled = not_blank-eq-some s.bundle_id id f in
            record {
              bundle = e ∙ ap (λ x. some x.app_bundle_path) same;
              read = r;
              bundle_id = subst (λ x. is_blank x.bundle_id ≡ false) same filled;
              display_name =
                  subst (λ x. is_blank x.display_name ≡ false) same
                    (is_blank-get_or s.display_name id filled);
              size = ap (λ x. x.size_bytes) (sym same);
            }
      ]
      | inr r ↦ absurd (cc (rw (e, r) at h))
    ]
  ]

-- What holds of a file that is accepted, and of what is returned for it.
pub record IsSafe (file : UploadFile) (m : UploadMetadata) : Type 0 where
  pub archive : List (Option Entry)
  pub is_archive : file.archive ≡ some archive
  pub is_len : file.len ≡ some m.size_bytes
  pub compressed : m.size_bytes ≤ max_compressed_bytes
  pub entries : length archive ≤ max_entries
  pub expanded : total_size archive ≤ max_expanded_bytes
  pub accepted : All (Accepted m.app_bundle_path) archive
  pub bundle_id : is_blank m.bundle_id ≡ false
  pub display_name : is_blank m.display_name ≡ false

readable-eq-ok : {A : Type 0} (o : Option A) {a : A} → readable o ≡ ok a → o ≡ some a
readable-eq-ok none h = absurd (cc h)
readable-eq-ok (some x) h = ap (λ a. some a) (ok-injective h)

check-eq-ok : (b : Bool) (e : UploadError) {u : Unit} → check b e ≡ ok u → b ≡ false
check-eq-ok true e h = absurd (cc h)
check-eq-ok false e h = refl

not-ltb : (n m : ℕ) → ltb n m ≡ false → m ≤ n
not-ltb n m h = ground arith

module _ (P : Plist) where
  -- If `inspect_ipa` accepts a file, then the file has at most 2 GiB and 20000 entries, the sizes
  -- of the entries add up to at most 4 GiB without saturation, each entry could be read, has a safe
  -- name, a ratio of at most 200 if it has at least 1 MiB, and belongs to the one bundle that is
  -- returned or to none, and neither the bundle identifier nor the display name is blank.
  pub inspect_ipa-IsSafe :
      (file : UploadFile) (m : UploadMetadata) → inspect_ipa P file ≡ ok m → IsSafe file m
  unfolding inspect_ipa
  inspect_ipa-IsSafe file m h =
      let (len, k0, h0) = >>=-eq-ok (readable file.len) _ h in
      let (_, k1, h1) =
        >>=-eq-ok (check (ltb max_compressed_bytes len) i_phone_loadly.Ipa.too_large) _ h0 in
      let (digest, _, h2) = >>=-eq-ok (readable file.digest) _ h1 in
      let (archive, k3, h3) = >>=-eq-ok (readable file.archive) _ h2 in
      let (_, k4, h4) =
        >>=-eq-ok (check (ltb max_entries (length archive)) i_phone_loadly.Ipa.too_many_entries) _
          h3 in
      let (s, k5, h5) = >>=-eq-ok (inspect_entries P initial archive) _ h4 in
      let end = conclude-IsConcluded P digest len s m h5 in
      let (sum, most) = inspect_entries-counted P initial s archive (omega arith) k5 in
      let low = not-ltb max_compressed_bytes len (check-eq-ok _ _ k1) in
      record {
        archive = archive;
        is_archive = readable-eq-ok file.archive k3;
        is_len = readable-eq-ok file.len k0 ∙ ap (λ n. some n) (sym end.size);
        compressed = subst (λ n. n ≤ max_compressed_bytes) (sym end.size) low;
        entries = not-ltb max_entries (length archive) (check-eq-ok _ _ k4);
        expanded = omega (arith, sum, most);
        accepted = inspect_entries-Accepted P initial s archive m.app_bundle_path k5 end.bundle;
        bundle_id = end.bundle_id;
        display_name = end.display_name;
      }
