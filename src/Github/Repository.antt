-- ===== src/Github/Repository.antt =====
-- `parse_public_repository` of github.rs.
pub mod Laws
use mathlib.Core.Option
use i_phone_loadly.Common.{
  ℕ, Text, Bool, Option, none, some, List, [], ◌∷◌, not, ◌&&◌, ◌||◌, ◌==◌, Result, ok, err, codes,
  any, is_empty, contains, starts_with, strip_prefix, split, trim, is_ascii_alphanumeric,
  if◌then◌else◌,
}
use i_phone_loadly.Github.{RepositoryRef, GithubError, invalid_repository}

-- the characters that may stand in the name of an owner
unfoldable pub is_owner_char : ℕ → Bool
is_owner_char c = is_ascii_alphanumeric c || c == b'-' || c == b'_'

-- … and of a repository
unfoldable pub is_repo_char : ℕ → Bool
is_repo_char c = is_ascii_alphanumeric c || c == b'-' || c == b'_' || c == b'.'

-- value.strip_suffix('/').unwrap_or(value)
unfoldable pub strip_slash : Text → Text
strip_slash [] = []
strip_slash (c ∷ s) = let rest = strip_slash s in if c == b'/' && is_empty s then [] else c ∷ rest

abbrev pub github_url : Text
github_url = codes "https://github.com/"

-- The text after the address of GitHub, or all of it.
abbrev pub repository_path : Text → Text
repository_path input = elim (strip_prefix input github_url) [
  | none ↦ input
  | some value ↦ strip_slash value
]

abbrev from_parts : List Text → Result GithubError RepositoryRef
from_parts (owner ∷ repo ∷ []) =
    if is_empty owner
      || is_empty repo
      || any (λ c. not (is_owner_char c)) owner
      || any (λ c. not (is_repo_char c)) repo
    then err invalid_repository
    else ok (record { owner = owner; repo = repo })
from_parts _ = err invalid_repository

-- the tests on the input as a whole
unfoldable pub is_refused_input : Text → Bool
is_refused_input input =
    is_empty input
    || contains 0 input
    || starts_with input (codes "http://")
    || contains b'?' input
    || contains b'#' input

unfoldable pub parse_trimmed : Text → Result GithubError RepositoryRef
unfolding strip_slash is_owner_char is_repo_char is_refused_input
parse_trimmed input =
    if is_refused_input input
    then err invalid_repository
    else from_parts (split b'/' (repository_path input))

unfoldable pub parse_public_repository : Text → Result GithubError RepositoryRef
unfolding parse_trimmed
parse_public_repository input = parse_trimmed (trim input)
