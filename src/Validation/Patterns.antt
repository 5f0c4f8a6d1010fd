-- ===== src/Validation/Patterns.antt =====
-- validation/patterns.ts: the numbers NIP and PESEL with their check digits. A text is the list of its
-- code points, and the regular expressions of the two are written out as tests.
pub mod Digits
mod Tests
use ksef_client_ts.Base.{
  ℕ, zero, suc, ◌+◌, ◌-◌, ◌*◌, ◌%◌, Bool, true, false, ◌&&◌, not, Option, none, some, List, [], ◌∷◌,
  leb, ◌==◌, all, get_elem?, length, if◌then◌else◌,
}

abbrev pub nip_weights : List ℕ
nip_weights = 6 ∷ 5 ∷ 7 ∷ 2 ∷ 3 ∷ 4 ∷ 5 ∷ 6 ∷ 7 ∷ []

abbrev pub pesel_weights : List ℕ
pesel_weights = 1 ∷ 3 ∷ 7 ∷ 9 ∷ 1 ∷ 3 ∷ 7 ∷ 9 ∷ 1 ∷ 3 ∷ []

abbrev pub is_digit : ℕ → Bool
is_digit c = leb b'0' c && leb c b'9'

-- Number(value[i]) of a digit
abbrev pub digit : ℕ → ℕ
digit c = c - b'0'

-- The loop that adds up Number(value[i]) * weights[i].
unfoldable pub weighted_sum : List ℕ → List ℕ → ℕ
weighted_sum [] value = 0
weighted_sum (w ∷ weights) [] = 0
weighted_sum (w ∷ weights) (c ∷ value) = w * digit c + weighted_sum weights value

-- Whether the character at an index is a digit with this value.
abbrev pub has_digit : ℕ → ℕ → List ℕ → Bool
has_digit i n value = elim (get_elem? value i) [ none ↦ false | some c ↦ n == digit c ]

abbrev starts_nip : List ℕ → Bool
starts_nip (a ∷ b ∷ c ∷ rest) = not (a == b'0') && not (b == b'0' && c == b'0')
starts_nip _ = false

-- /^[1-9]((\d[1-9])|([1-9]\d))\d{7}$/
abbrev pub nip_pattern : List ℕ → Bool
nip_pattern value = length value == 10 && (all is_digit value && starts_nip value)

unfoldable pub is_valid_nip : List ℕ → Bool
is_valid_nip value =
    if not (nip_pattern value)
    then false
    else (let checksum = weighted_sum nip_weights value % 11 in
        not (checksum == 10) && has_digit 9 checksum value)

-- (?:0[1-9]|1[0-2]|2[1-9]|3[0-2]|4[1-9]|5[0-2]|6[1-9]|7[0-2]|8[1-9]|9[0-2]) after \d{2}
abbrev month_of_pesel : List ℕ → Bool
month_of_pesel (a ∷ b ∷ c ∷ d ∷ rest) = if digit c % 2 == 0 then not (d == b'0') else leb d b'2'
month_of_pesel _ = false

abbrev pub pesel_pattern : List ℕ → Bool
pesel_pattern value = length value == 11 && (all is_digit value && month_of_pesel value)

unfoldable pub is_valid_pesel : List ℕ → Bool
is_valid_pesel value =
    if not (pesel_pattern value)
    then false
    else (let checksum = (10 - weighted_sum pesel_weights value % 10) % 10 in
        has_digit 10 checksum value)
