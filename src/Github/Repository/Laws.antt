-- ===== src/Github/Repository/Laws.antt =====
-- What `parse_public_repository` accepts, and that it reads back what names a repository.
use mathlib.Core.Bool.{false≢true}
use i_phone_loadly.Common.{
  ==_iff, ℕ, ◌≤◌, ◌≡◌, ◌≢◌, refl, sym, ap, ◌∙◌, Bool, true, false, none, List, [], ◌∷◌, ◌++◌, not,
  ◌||◌, ◌==◌, Text, ok, arith, any, all, is_empty, contains, starts_with, strip_prefix, split, trim,
  trim_start, trim_end, is_whitespace, is_ascii_alphanumeric, codes, Bool-cases, inl, inr,
}
use i_phone_loadly.Github.{RepositoryRef}
use i_phone_loadly.Github.Repository.{
  is_owner_char, is_repo_char, github_url, repository_path, from_parts, is_refused_input,
  parse_trimmed, parse_public_repository,
}

-- Both names are there and hold only the characters that GitHub allows.
pub record IsCanonical (r : RepositoryRef) : Type 0 where
  pub has_owner : is_empty r.owner ≡ false
  pub has_repo : is_empty r.repo ≡ false
  pub owner_chars : all is_owner_char r.owner ≡ true
  pub repo_chars : all is_repo_char r.repo ≡ true

any-not : (p : ℕ → Bool) (s : Text) → any (λ c. not (p c)) s ≡ false → all p s ≡ true
any-not p [] h = refl
any-not p (c ∷ s) h = ground (arith, any-not p s)

all-not : (p : ℕ → Bool) (s : Text) → all p s ≡ true → any (λ c. not (p c)) s ≡ false
all-not p [] h = refl
all-not p (c ∷ s) h = ground (arith, all-not p s)

from_parts-IsCanonical :
    (parts : List Text) (r : RepositoryRef) → from_parts parts ≡ ok r → IsCanonical r
from_parts-IsCanonical [] r h = absurd (cc h)
from_parts-IsCanonical (a ∷ []) r h = absurd (cc h)
from_parts-IsCanonical (owner ∷ repo ∷ []) r h =
    ground (arith, any-not is_owner_char owner, any-not is_repo_char repo)
from_parts-IsCanonical (a ∷ b ∷ c ∷ rest) r h = absurd (cc h)

parse_trimmed-IsCanonical :
    (input : Text) (r : RepositoryRef) → parse_trimmed input ≡ ok r → IsCanonical r
unfolding parse_trimmed
parse_trimmed-IsCanonical input r h = elim (Bool-cases (is_refused_input input)) [
  | inl e ↦ absurd (cc (rw e at h))
  | inr e ↦ from_parts-IsCanonical (split b'/' (repository_path input)) r (rw e at h)
]

-- Whatever the input, an accepted repository has an owner and a name of the allowed characters
-- only: none is empty and none holds a slash, a space or another separator.
pub parse_public_repository-IsCanonical :
    (input : Text) (r : RepositoryRef) → parse_public_repository input ≡ ok r → IsCanonical r
unfolding parse_public_repository
parse_public_repository-IsCanonical input r h = parse_trimmed-IsCanonical (trim input) r h

-- owner/repo
abbrev pub display : RepositoryRef → Text
display r = r.owner ++ b'/' ∷ r.repo

-- A character of a name, and the characters that a name cannot hold.
owner-repo_char : (c : ℕ) → is_owner_char c ≡ true → is_repo_char c ≡ true
unfolding is_owner_char is_repo_char
owner-repo_char c h = ground arith

-- what may stand in owner/repo
abbrev is_path_char : ℕ → Bool
is_path_char c = is_repo_char c || c == b'/'

path_char_range : (c : ℕ) → is_path_char c ≡ true → (45 ≤ c) × (c ≤ 122) × (c ≢ 58) × (c ≢ 63)
unfolding is_repo_char is_ascii_alphanumeric
path_char_range c h = ground arith

not-is_whitespace : (c : ℕ) → 45 ≤ c → c ≤ 122 → is_whitespace c ≡ false
unfolding is_whitespace
not-is_whitespace c h k = ground arith

trim_start-path : (s : Text) → all is_path_char s ≡ true → trim_start s ≡ s
unfolding trim_start
trim_start-path [] h = refl
trim_start-path (c ∷ s) h =
    let (low, high, _, _) = path_char_range c (ground arith) in
    rw (not-is_whitespace c low high) refl

trim_end-path : (s : Text) → all is_path_char s ≡ true → trim_end s ≡ s
unfolding trim_end
trim_end-path [] h = refl
trim_end-path (c ∷ s) h =
    let (low, high, _, _) = path_char_range c (ground arith) in
    let rest = trim_end-path s (ground arith) in ground (arith, not-is_whitespace c low high)

contains-path :
    (d : ℕ) (s : Text) → all is_path_char s ≡ true → (is_path_char d ≡ false) → contains d s ≡ false
unfolding contains
contains-path d [] h k = refl
contains-path d (c ∷ s) h k = elim (Bool-cases (c == d)) [
  | inl e ↦
      let same = (==_iff c d).0 e in
      let here : is_path_char c ≡ true = ground arith in
      absurd (false≢true (sym k ∙ ap is_path_char (sym same) ∙ here))
  | inr e ↦ rw e (contains-path d s (ground arith) k)
]

-- A colon in the prefix keeps a text without one from having it.
no_colon :
    (p s : Text)
    → contains b':' p ≡ true
    → all is_path_char s ≡ true
    → (starts_with s p ≡ false) × (strip_prefix s p ≡ none)
unfolding contains starts_with strip_prefix
no_colon [] s h k = absurd (false≢true h)
no_colon (p ∷ ps) [] h k = (refl, refl)
no_colon (p ∷ ps) (c ∷ s) h k = elim (Bool-cases (p == b':')) [
  | inl e ↦ let (_, _, plain, _) = path_char_range c (ground arith) in ground arith
  | inr e ↦ let later = no_colon ps s (ground arith) (ground arith) in ground arith
]

split-repo : (t : Text) → all is_repo_char t ≡ true → split b'/' t ≡ t ∷ []
unfolding split is_repo_char is_ascii_alphanumeric
split-repo [] h = refl
split-repo (c ∷ t) h =
    let rest = split-repo t (ground arith) in
    let plain : (c == b'/') ≡ false = ground arith in rw (plain, rest) refl

split-path :
    (s t : Text)
    → all is_owner_char s ≡ true
    → all is_repo_char t ≡ true
    → split b'/' (s ++ b'/' ∷ t) ≡ s ∷ t ∷ []
unfolding split is_owner_char is_ascii_alphanumeric
split-path [] t h k = rw (split-repo t k) refl
split-path (c ∷ s) t h k =
    let rest = split-path s t (ground arith) k in
    let plain : (c == b'/') ≡ false = ground arith in rw (plain, rest) refl

all-append : (p : ℕ → Bool) (s t : Text) → all p s ≡ true → all p t ≡ true → all p (s ++ t) ≡ true
all-append p [] t h k = k
all-append p (c ∷ s) t h k = ground (arith, all-append p s t)

all_owner-path : (s : Text) → all is_owner_char s ≡ true → all is_path_char s ≡ true
all_owner-path [] h = refl
all_owner-path (c ∷ s) h = ground (arith, owner-repo_char c, all_owner-path s)

all_repo-path : (s : Text) → all is_repo_char s ≡ true → all is_path_char s ≡ true
all_repo-path [] h = refl
all_repo-path (c ∷ s) h = ground (arith, all_repo-path s)

display-path : (r : RepositoryRef) → IsCanonical r → all is_path_char (display r) ≡ true
display-path r c =
    all-append is_path_char r.owner (b'/' ∷ r.repo) (all_owner-path r.owner c.owner_chars)
      (ground (arith, all_repo-path r.repo c.repo_chars))

is_empty-append : (s t : Text) → is_empty s ≡ false → is_empty (s ++ t) ≡ false
is_empty-append [] t h = absurd (false≢true (sym h))
is_empty-append (c ∷ s) t h = refl

from_parts_canonical :
    (r : RepositoryRef) → IsCanonical r → from_parts (r.owner ∷ r.repo ∷ []) ≡ ok r
from_parts_canonical r c =
    rw
      (
        c.has_owner,
        c.has_repo,
        all-not is_owner_char r.owner c.owner_chars,
        all-not is_repo_char r.repo c.repo_chars,
      )
      refl

not_path_chars :
    (is_path_char 0 ≡ false) × (is_path_char b'?' ≡ false) × (is_path_char b'#' ≡ false)
unfolding is_repo_char is_ascii_alphanumeric
not_path_chars = (refl, refl, refl)

colons : (contains b':' (codes "http://") ≡ true) × (contains b':' github_url ≡ true)
unfolding contains
colons = (refl, refl)

is_refused_input_canonical :
    (r : RepositoryRef) → IsCanonical r → is_refused_input (display r) ≡ false
unfolding is_refused_input
is_refused_input_canonical r c =
    let plain = display-path r c in
    let (zeroth, question, hash) = not_path_chars in
    rw
      (
        is_empty-append r.owner (b'/' ∷ r.repo) c.has_owner,
        contains-path 0 (display r) plain zeroth,
        (no_colon (codes "http://") (display r) colons.0 plain).0,
        contains-path b'?' (display r) plain question,
        contains-path b'#' (display r) plain hash,
      )
      refl

repository_path_plain :
    (input : Text) → strip_prefix input github_url ≡ none → repository_path input ≡ input
repository_path_plain input h = rw (h, repository_path) refl

parse_trimmed_canonical : (r : RepositoryRef) → IsCanonical r → parse_trimmed (display r) ≡ ok r
unfolding parse_trimmed
parse_trimmed_canonical r c =
    let no_url = (no_colon github_url (display r) colons.1 (display-path r c)).1 in
    rw
      (
        is_refused_input_canonical r c,
        repository_path_plain (display r) no_url,
        split-path r.owner r.repo c.owner_chars c.repo_chars,
      )
      (from_parts_canonical r c)

-- The name owner/repo of a repository is parsed back to it.
pub parse_public_repository-display :
    (r : RepositoryRef) → IsCanonical r → parse_public_repository (display r) ≡ ok r
unfolding parse_public_repository trim
parse_public_repository-display r c =
    let plain = display-path r c in
    rw (trim_start-path (display r) plain, trim_end-path (display r) plain)
      (parse_trimmed_canonical r c)
