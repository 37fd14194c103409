-- ===== src/Github/Assets/Wildcard.antt =====
-- `wildcard_match` against the meaning of a pattern: its parts, one after the other.
use mathlib.Core.List.{append_assoc}
use i_phone_loadly.Common.{
  ℕ, zero, suc, ◌-◌, ◌==◌, leb, take, ◌+◌, ◌≤◌, ◌≡◌, ◌≢◌, refl, sym, ap, subst, ◌∙◌, true, false,
  none, some, List, [], ◌∷◌, ◌++◌, Text, arith, length, length-append, drop, Bool-cases,
  Option-cases, inl, inr, text_eq_iff, starts_with, ends_with, find, split, to_ascii_lowercase,
  starts_with_append, starts_with_sound, ends_with_append, drop-append, drop-length-append,
  drop-drop, find_least, find_sound, split-single,
}
use i_phone_loadly.Github.Assets.{
  utf8_len, byte_length, slice_from, match_parts, split_last, match_split, wildcard_match,
}

-- The parts of a pattern cover the text in order: the first at its start, the last at its end, and
-- between two of them anything.
abbrev pub Fits : List Text → Text → Type 0
Fits [] v = ⊥
Fits (head ∷ []) v = v ≡ head
Fits (head ∷ part ∷ parts) v =
    (gap : Text) × (u : Text) × (v ≡ head ++ (gap ++ u)) × Fits (part ∷ parts) u

-- The parts occur in the text, one after the other.
abbrev pub Occur : List Text → Text → Type 0
Occur [] v = Unit
Occur (p ∷ ps) v = (gap : Text) × (u : Text) × (v ≡ gap ++ (p ++ u)) × Occur ps u

Occur-prefix : (ps : List Text) (x v : Text) → Occur ps v → Occur ps (x ++ v)
Occur-prefix [] x v o = tt
Occur-prefix (p ∷ ps) x v (gap, u, e, o) =
    (x ++ gap, u, ap (λ t. x ++ t) e ∙ sym (append_assoc x gap (p ++ u)), o)

-- The leftmost occurrence leaves room for the rest.
Occur-drop :
    (p : Text) (ps : List Text) (v : Text)
    → Occur (p ∷ ps) v
    → (i : ℕ) × (find v p ≡ some i) × Occur ps (drop (i + length p) v)
Occur-drop p ps v (gap, u, e, o) =
    let there : starts_with (drop (length gap) v) p ≡ true =
      ap (λ t. starts_with (drop (length gap) t) p) e
      ∙ ap (λ t. starts_with t p) (drop-length-append gap (p ++ u))
      ∙ starts_with_append p u in
    let long = ap length e ∙ length-append gap (p ++ u) in
    let (i, f, below) = find_least (length gap) v p (omega (arith, long)) there in
    let fits : i + length p ≤ length (gap ++ p) = omega (arith, length-append gap p) in
    let left : drop (i + length p) v ≡ drop (i + length p) (gap ++ p) ++ u =
      ap (drop (i + length p)) (e ∙ sym (append_assoc gap p u))
      ∙ drop-append (i + length p) (gap ++ p) u fits in
    (i, f, subst (Occur ps) (sym left) (Occur-prefix ps _ u o))

utf8_len-positive : (c : ℕ) → 1 ≤ utf8_len c
utf8_len-positive c = ground arith

byte_length-append : (a b : Text) → byte_length (a ++ b) ≡ byte_length a + byte_length b
byte_length-append [] b = omega arith
byte_length-append (c ∷ a) b = omega (arith, byte_length-append a b)

slice_from-zero : (t : Text) → slice_from t 0 ≡ some t
unfolding slice_from
slice_from-zero [] = refl
slice_from-zero (c ∷ t) = refl

-- The slice after a start of the text is what follows it: the offset is the boundary of a character.
slice_from-append : (a b : Text) → slice_from (a ++ b) (byte_length a) ≡ some b
unfolding slice_from
slice_from-append [] b = slice_from-zero b
slice_from-append (c ∷ a) b =
    let n = utf8_len c in
    let one : n + byte_length a == 0 ≡ false = positive n (byte_length a) (utf8_len-positive c) in
    let within : leb n (n + byte_length a) ≡ true = leb-add n (byte_length a) in
    let rest : n + byte_length a - n ≡ byte_length a = omega arith in
    rw (one, within, rest) (slice_from-append a b)
  where
    positive : (n m : ℕ) → 1 ≤ n → n + m == 0 ≡ false
    positive n m h = ground arith

    leb-add : (n m : ℕ) → leb n (n + m) ≡ true
    leb-add n m = ground arith

take-drop : (i : ℕ) (t : Text) → t ≡ take i t ++ drop i t
take-drop zero t = refl
take-drop (suc i) [] = refl
take-drop (suc i) (c ∷ t) = ap (λ u. c ∷ u) (take-drop i t)

-- What the loop has passed after the part `p` was found at `i` of `rest`.
abbrev passed : Text → Text → ℕ → Text → Text
passed p before i rest = before ++ (take i rest ++ p)

passed-rest :
    (p before : Text) (i : ℕ) (rest : Text)
    → find rest p ≡ some i
    → before ++ rest ≡ passed p before i rest ++ drop (i + length p) rest
passed-rest p before i rest f =
    let (u, e) = starts_with_sound _ p (find_sound i rest p f).1 in
    let left : drop (i + length p) rest ≡ u =
      sym (drop-drop i (length p) rest) ∙ ap (drop (length p)) e ∙ drop-length-append p u in
    let whole : rest ≡ take i rest ++ (p ++ u) = take-drop i rest ∙ ap (λ t. take i rest ++ t) e in
    let together : before ++ (take i rest ++ (p ++ u)) ≡ passed p before i rest ++ u =
      simp append_assoc in
    ap (λ t. before ++ t) whole ∙ together ∙ ap (λ t. passed p before i rest ++ t) (sym left)

-- One round of the loop.
match_parts_turn :
    (p : Text) (ps : List Text) (v rest : Text) (offset i : ℕ)
    → slice_from v offset ≡ some rest
    → find rest p ≡ some i
    → match_parts (p ∷ ps) v offset
      ≡ match_parts ps v (offset + (byte_length (take i rest) + byte_length p))
unfolding match_parts
match_parts_turn p ps v rest offset i e f = ground arith

match_parts_stop :
    (p : Text) (ps : List Text) (v rest : Text) (offset : ℕ)
    → slice_from v offset ≡ some rest
    → find rest p ≡ none
    → match_parts (p ∷ ps) v offset ≡ some false
unfolding match_parts
match_parts_stop p ps v rest offset e f = ground arith

match_parts_found :
    (p : Text) (ps : List Text) (before rest : Text) (i : ℕ)
    → find rest p ≡ some i
    → match_parts (p ∷ ps) (before ++ rest) (byte_length before)
      ≡ match_parts ps
          (passed p before i rest ++ drop (i + length p) rest)
          (byte_length (passed p before i rest))
match_parts_found p ps before rest i f =
    let bytes : byte_length before + (byte_length (take i rest) + byte_length p)
        ≡ byte_length (passed p before i rest) =
      ap (λ n. byte_length before + n) (sym (byte_length-append (take i rest) p))
      ∙ sym (byte_length-append before (take i rest ++ p)) in
    match_parts_turn p ps (before ++ rest) rest (byte_length before) i
      (slice_from-append before rest) f
    ∙ ap (λ n. match_parts ps (before ++ rest) n) bytes
    ∙ ap (λ t. match_parts ps t (byte_length (passed p before i rest)))
        (passed-rest p before i rest f)

match_parts_complete :
    (ps : List Text) (before rest : Text)
    → Occur ps rest
    → match_parts ps (before ++ rest) (byte_length before) ≡ some true
unfolding match_parts
match_parts_complete [] before rest o = refl
match_parts_complete (p ∷ ps) before rest o =
    let (i, f, o') = Occur-drop p ps rest o in
    match_parts_found p ps before rest i f
    ∙ match_parts_complete ps (passed p before i rest) (drop (i + length p) rest) o'

match_parts_total :
    (ps : List Text) (before rest : Text)
    → match_parts ps (before ++ rest) (byte_length before) ≢ none
unfolding match_parts
match_parts_total [] before rest e = cc e
match_parts_total (p ∷ ps) before rest e = elim (Option-cases (find rest p)) [
  | inl f ↦ cc (
    e,
    match_parts_stop p ps (before ++ rest) rest (byte_length before) (slice_from-append before rest)
        f,
  )
  | inr (i, f) ↦
      match_parts_total ps (passed p before i rest) (drop (i + length p) rest)
        (sym (match_parts_found p ps before rest i f) ∙ e)
]

-- The parts of a text that fits: the last at the end, the others one after the other.
Fits-split_last :
    (p : Text) (ps : List Text) (v : Text)
    → Fits (p ∷ ps) v
    → (rest : Text) × (v ≡ rest ++ (split_last p ps).1) × Occur (split_last p ps).0 v
Fits-split_last p [] v e = ([], e, tt)
Fits-split_last p (q ∷ ps) v (gap, u, e, fits) =
    let (rest, k, o) = Fits-split_last q ps u fits in
    (
      p ++ (gap ++ rest),
      e ∙ ap (λ t. p ++ (gap ++ t)) k ∙ simp append_assoc,
      ([], gap ++ u, e, Occur-prefix (split_last q ps).0 gap u o),
    )

match_split_complete :
    (parts : List Text) (pattern v : Text)
    → ((head : Text) → parts ≡ head ∷ [] → head ≡ pattern)
    → Fits parts v
    → match_split parts pattern v ≡ some true
unfolding match_split
match_split_complete [] pattern v whole fits = absurd fits
match_split_complete (head ∷ []) pattern v whole fits =
    ap some ((text_eq_iff v pattern).1 (fits ∙ whole head refl))
match_split_complete (head ∷ part ∷ parts) pattern v whole (gap, u, e, fits) =
    let last = (split_last part parts).1 in
    let (rest, k, o) = Fits-split_last part parts u fits in
    let starts = ap (λ t. starts_with t head) e ∙ starts_with_append head (gap ++ u) in
    let whole_v : v ≡ (head ++ (gap ++ rest)) ++ last =
      e ∙ ap (λ t. head ++ (gap ++ t)) k ∙ simp append_assoc in
    let ends = ap (λ t. ends_with t last) whole_v ∙ ends_with_append (head ++ (gap ++ rest)) last in
    rw (starts, ends)
      (ap (λ t. match_parts (split_last part parts).0 t (byte_length head)) e
        ∙ match_parts_complete (split_last part parts).0 head (gap ++ u)
            (Occur-prefix (split_last part parts).0 gap u o))

-- A text that the pattern describes is accepted: its parts, split at the stars, in order.
pub wildcard_match_complete :
    (pattern value : Text)
    → Fits (split b'*' (to_ascii_lowercase pattern)) (to_ascii_lowercase value)
    → wildcard_match pattern value ≡ some true
unfolding wildcard_match
wildcard_match_complete pattern value fits =
    match_split_complete (split b'*' (to_ascii_lowercase pattern)) (to_ascii_lowercase pattern)
      (to_ascii_lowercase value) (λ head. split-single b'*' (to_ascii_lowercase pattern) head) fits

match_split_total : (parts : List Text) (pattern v : Text) → match_split parts pattern v ≢ none
unfolding match_split
match_split_total [] pattern v e = cc e
match_split_total (head ∷ []) pattern v e = cc e
match_split_total (head ∷ part ∷ parts) pattern v e = elim (Bool-cases (starts_with v head)) [
  | inl b ↦ elim (Bool-cases (ends_with v (split_last part parts).1)) [
    | inl c ↦
        let (u, k) = starts_with_sound v head b in
        match_parts_total (split_last part parts).0 head u (
          ap (λ t. match_parts (split_last part parts).0 t (byte_length head)) (sym k)
          ∙ (rw (b, c) at e))
    | inr c ↦ cc (rw (b, c) at e)
  ]
  | inr b ↦ cc (rw b at e)
]

-- No slice of `wildcard_match` is out of bounds or begins inside of a character: it never panics.
pub wildcard_match-total : (pattern value : Text) → wildcard_match pattern value ≢ none
unfolding wildcard_match
wildcard_match-total pattern value =
    match_split_total (split b'*' (to_ascii_lowercase pattern)) (to_ascii_lowercase pattern)
      (to_ascii_lowercase value)
