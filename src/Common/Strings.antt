-- ===== src/Common/Strings.antt =====
-- Text as the list of its code points, and the operations of Rust's `str` that the sources call.
use Prim.Native.Nat.{ℕ, ◌+◌}
use Prim.Native.Char.{code}
use Prim.Native.String.{String}
use mathlib.Core.Path.{◌≡◌, refl}
use mathlib.Core.Logic.{◌↔◌}
use mathlib.Core.Bool.{Bool, true, false, ◌&&◌, ◌||◌}
use mathlib.Core.List.{List, [], ◌∷◌, map}
use mathlib.Core.Option.{Option, none, some}
use native.Mathlib.Omega.{arith}
use i_phone_loadly.Common.Tests.{◌==◌, leb, if◌then◌else◌}

-- A Rust `str`, as its code points.
abbrev pub Text : Type 0
Text = List ℕ

abbrev pub codes : String → Text
codes String.[] = []
codes (String.◌∷◌ c s) = code c ∷ codes s

abbrev pub is_empty : Text → Bool
is_empty [] = true
is_empty (c ∷ s) = false

unfoldable pub text_eq : Text → Text → Bool
text_eq [] [] = true
text_eq (a ∷ s) (b ∷ t) = a == b && text_eq s t
text_eq _ _ = false

pub text_eq_iff : (s t : Text) → (text_eq s t ≡ true) ↔ (s ≡ t)
unfolding text_eq
text_eq_iff [] [] = ground arith
text_eq_iff [] (b ∷ t) = ground arith
text_eq_iff (a ∷ s) [] = ground arith
text_eq_iff (a ∷ s) (b ∷ t) = ground (arith, text_eq_iff s t)

pub text_eq_refl : (s : Text) → text_eq s s ≡ true
text_eq_refl s = (text_eq_iff s s).1 refl

-- `value.strip_prefix(prefix)`
unfoldable pub strip_prefix : Text → Text → Option Text
strip_prefix v [] = some v
strip_prefix [] (p ∷ ps) = none
strip_prefix (c ∷ v) (p ∷ ps) = if c == p then strip_prefix v ps else none

-- `value.starts_with(prefix)`
unfoldable pub starts_with : Text → Text → Bool
starts_with v [] = true
starts_with [] (p ∷ ps) = false
starts_with (c ∷ v) (p ∷ ps) = c == p && starts_with v ps

-- `value.ends_with(suffix)`
unfoldable pub ends_with : Text → Text → Bool
unfolding text_eq
ends_with [] suffix = text_eq [] suffix
ends_with (c ∷ v) suffix = text_eq (c ∷ v) suffix || ends_with v suffix

-- `value.find(needle)`: the offset of the first occurrence
unfoldable pub find : Text → Text → Option ℕ
unfolding starts_with
find [] needle = if starts_with [] needle then some 0 else none
find (c ∷ v) needle =
    let rest = find v needle in
    if starts_with (c ∷ v) needle then some 0 else elim rest [ none ↦ none | some i ↦ some (i + 1) ]

-- `value.contains(char)`
unfoldable pub contains : ℕ → Text → Bool
contains c [] = false
contains c (d ∷ s) = d == c || contains c s

abbrev prepend : ℕ → List Text → List Text
prepend c [] = (c ∷ []) ∷ []
prepend c (p ∷ ps) = (c ∷ p) ∷ ps

-- `value.split(char)`: always at least one part
unfoldable pub split : ℕ → Text → List Text
split sep [] = [] ∷ []
split sep (c ∷ s) = let rest = split sep s in if c == sep then [] ∷ rest else prepend c rest

-- `u8::to_ascii_lowercase`, on each character
unfoldable pub lower : ℕ → ℕ
lower c = if leb b'A' c && leb c b'Z' then c + 32 else c

unfoldable pub to_ascii_lowercase : Text → Text
unfolding lower
to_ascii_lowercase = map lower

-- `char::is_whitespace`, the Unicode property White_Space
unfoldable pub is_whitespace : ℕ → Bool
is_whitespace c =
    leb 9 c && leb c 13
    || c == 32
    || c == 0x85
    || c == 0xa0
    || c == 0x1680
    || leb 0x2000 c && leb c 0x200a
    || c == 0x2028
    || c == 0x2029
    || c == 0x202f
    || c == 0x205f
    || c == 0x3000

unfoldable pub trim_start : Text → Text
unfolding is_whitespace
trim_start [] = []
trim_start (c ∷ s) = let rest = trim_start s in if is_whitespace c then rest else c ∷ s

unfoldable pub trim_end : Text → Text
unfolding is_whitespace
trim_end [] = []
trim_end (c ∷ s) =
    let rest = trim_end s in if is_empty rest && is_whitespace c then [] else c ∷ rest

unfoldable pub trim : Text → Text
unfolding trim_start trim_end
trim s = trim_end (trim_start s)

-- `char::is_control`, the general category Cc
unfoldable pub is_control : ℕ → Bool
is_control c = leb c 31 || leb 127 c && leb c 159

unfoldable pub is_ascii_control : ℕ → Bool
is_ascii_control c = leb c 31 || c == 127

unfoldable pub is_ascii_digit : ℕ → Bool
is_ascii_digit c = leb b'0' c && leb c b'9'

unfoldable pub is_ascii_alphanumeric : ℕ → Bool
unfolding is_ascii_digit
is_ascii_alphanumeric c = is_ascii_digit c || leb b'A' c && leb c b'Z' || leb b'a' c && leb c b'z'

unfoldable pub is_ascii_hexdigit : ℕ → Bool
unfolding is_ascii_digit
is_ascii_hexdigit c = is_ascii_digit c || leb b'A' c && leb c b'F' || leb b'a' c && leb c b'f'

-- The order of `str` is that of its bytes, which is that of the code points.
abbrev pub text_le : Text → Text → Bool
text_le [] _ = true
text_le (c ∷ s) [] = false
text_le (c ∷ s) (d ∷ t) = if c == d then text_le s t else leb c d
