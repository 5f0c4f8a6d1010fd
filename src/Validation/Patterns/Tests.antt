-- ===== src/Validation/Patterns/Tests.antt =====
-- Examples of validation/patterns.ts.
use ksef_client_ts.Base.{◌≡◌, refl, arith, false, []}
use ksef_client_ts.Base.Text.{codes}
use ksef_client_ts.Validation.Patterns.{weighted_sum, is_valid_nip, is_valid_pesel}
use ksef_client_ts.Validation.Patterns.Digits.{is_valid_nip_one_digit, is_valid_pesel_one_digit}

is_valid_nip_one_digit_example : is_valid_nip (codes "5360250274") ≡ false
unfolding is_valid_nip weighted_sum
is_valid_nip_one_digit_example =
    is_valid_nip_one_digit (codes "5") b'2' b'3' (codes "60250274") refl (λ h. omega (arith, h))

is_valid_pesel_one_digit_example : is_valid_pesel (codes "44051401358") ≡ false
unfolding is_valid_pesel weighted_sum
is_valid_pesel_one_digit_example =
    is_valid_pesel_one_digit (codes "4405140135") b'9' b'8' [] refl (λ h. omega (arith, h))
