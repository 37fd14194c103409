-- ===== src/Registration/Tests.antt =====
-- The counts of matching identifiers at the inputs of the tests of registration_diagnostic.rs.
use i_phone_loadly.Common.{text_eq, to_ascii_lowercase, trim}
use i_phone_loadly.Common.{codes, List, [], ◌∷◌, Text, ◌≡◌, refl}
use i_phone_loadly.Registration.{registration_matches}
use i_phone_loadly.Registration.Counts.{IsOrdered, registration_matches-IsOrdered}

abbrev numbers : List Text
numbers =
    codes "00008110-ABCD"
    ∷ codes "00008110-abcd"
    ∷ codes " 00008110-abcd "
    ∷ codes "00008110-1111"
    ∷ []

trimmed_three :
    (registration_matches (codes "00008110-ABCD") numbers).trimmed_ascii_case_insensitive ≡ 3
unfolding registration_matches text_eq to_ascii_lowercase trim
trimmed_three = refl

registration_matches-IsOrdered_example :
    IsOrdered (registration_matches (codes "00008110-ABCD") numbers)
registration_matches-IsOrdered_example =
    registration_matches-IsOrdered (codes "00008110-ABCD") numbers
