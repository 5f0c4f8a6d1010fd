-- ===== src/Validation/Patterns/Digits.antt =====
-- validation/patterns.ts: the check digits notice a change of one digit.
use ksef_client_ts.Base.{
  ℕ, zero, suc, ◌+◌, ◌-◌, ◌*◌, ◌%◌, ◌≤◌, ◌<◌, ◌≡◌, ◌≢◌, refl, sym, ap, ◌∙◌, subst, arith, Bool,
  true, false, none, some, List, [], ◌∷◌, ◌++◌, ◌==◌, all, get_elem?, length, length-append,
  Bool-cases, Option-cases, inl, inr,
}
use ksef_client_ts.Validation.Patterns.{
  nip_weights, pesel_weights, is_digit, digit, weighted_sum, has_digit, is_valid_nip,
  is_valid_pesel,
}

-- The weight at a place, 0 beyond the last.
abbrev weight : List ℕ → ℕ → ℕ
weight [] n = 0
weight (w ∷ weights) zero = w
weight (w ∷ weights) (suc n) = weight weights n

-- The sum without what stands at a place.
abbrev others : List ℕ → List ℕ → List ℕ → ℕ
others [] xs ys = 0
others (w ∷ weights) [] ys = weighted_sum weights ys
others (w ∷ weights) (x ∷ xs) ys = w * digit x + others weights xs ys

weighted_sum-append :
    (weights xs : List ℕ) (c : ℕ) (ys : List ℕ)
    → weighted_sum weights (xs ++ c ∷ ys)
      ≡ others weights xs ys + weight weights (length xs) * digit c
unfolding weighted_sum
weighted_sum-append [] xs c ys = omega arith
weighted_sum-append (w ∷ weights) [] c ys = omega arith
weighted_sum-append (w ∷ weights) (x ∷ xs) c ys = omega (arith, weighted_sum-append weights xs c ys)

get_elem?-there :
    (xs : List ℕ) (c : ℕ) (ys : List ℕ) → get_elem? (xs ++ c ∷ ys) (length xs) ≡ some c
get_elem?-there [] c ys = refl
get_elem?-there (x ∷ xs) c ys = get_elem?-there xs c ys

get_elem?-elsewhere :
    (xs : List ℕ) (c d : ℕ) (ys : List ℕ) (n : ℕ)
    → (length xs == n) ≡ false
    → get_elem? (xs ++ c ∷ ys) n ≡ get_elem? (xs ++ d ∷ ys) n
get_elem?-elsewhere [] c d ys zero h = cc
get_elem?-elsewhere [] c d ys (suc n) h = refl
get_elem?-elsewhere (x ∷ xs) c d ys zero h = refl
get_elem?-elsewhere (x ∷ xs) c d ys (suc n) h = get_elem?-elsewhere xs c d ys n (ground arith)

all-there :
    (p : ℕ → Bool) (xs : List ℕ) (c : ℕ) (ys : List ℕ) → all p (xs ++ c ∷ ys) ≡ true → p c ≡ true
all-there p [] c ys h = ground arith
all-there p (x ∷ xs) c ys h = all-there p xs c ys (ground arith)

has_digit-some :
    (i n : ℕ) (value : List ℕ) (c : ℕ)
    → get_elem? value i ≡ some c
    → has_digit i n value ≡ true
    → n ≡ digit c
has_digit-some i n value c e h =
    let there : has_digit i n value ≡ (n == digit c) = rw (has_digit, e) refl in
    let same : (n == digit c) ≡ true = sym there ∙ h in ground (arith, same)

has_digit-none : (i n : ℕ) (value : List ℕ) → get_elem? value i ≡ none → has_digit i n value ≡ false
has_digit-none i n value e = rw (has_digit, e) refl

has_digit_unique :
    (i n m : ℕ) (value : List ℕ) → has_digit i n value ≡ true → has_digit i m value ≡ true → n ≡ m
has_digit_unique i n m value h k = elim (Option-cases (get_elem? value i)) [
  | inl nothing ↦ (let c : true ≡ false = sym h ∙ has_digit-none i n value nothing in cc)
  | inr (c, there) ↦ has_digit-some i n value c there h ∙ sym (has_digit-some i m value c there k)
]

has_digit-elsewhere :
    (i n : ℕ) (value other : List ℕ)
    → get_elem? value i ≡ get_elem? other i
    → has_digit i n value ≡ has_digit i n other
has_digit-elsewhere i n value other e = rw (has_digit, e) refl

-- A sum with weights and a check digit at a place that has no weight: where the check tells apart any
-- two digits under each weight, no two texts that pass it differ in one digit only.
module _ (weights : List ℕ) (place : ℕ) (check : ℕ → ℕ)
    (apart : (n a c d : ℕ)
      → c < 10
      → d < 10
      → n < place
      → check (a + weight weights n * c) ≡ check (a + weight weights n * d)
      → c ≡ d)
    (free : weight weights place ≡ 0) where
  one_digit :
      (xs : List ℕ) (c d : ℕ) (ys : List ℕ)
      → length xs ≤ place
      → digit c < 10
      → digit d < 10
      → has_digit place (check (weighted_sum weights (xs ++ c ∷ ys))) (xs ++ c ∷ ys) ≡ true
      → has_digit place (check (weighted_sum weights (xs ++ d ∷ ys))) (xs ++ d ∷ ys) ≡ true
      → digit c ≡ digit d
  one_digit xs c d ys within p q h k =
      let sum_c = weighted_sum-append weights xs c ys in
      let sum_d = weighted_sum-append weights xs d ys in
      elim (Bool-cases (length xs == place)) [
        | inl same ↦
            let e : length xs ≡ place = ground arith in
            let no_weight : weight weights (length xs) ≡ 0 = ap (weight weights) e ∙ free in
            let sums : weighted_sum weights (xs ++ c ∷ ys) ≡ weighted_sum weights (xs ++ d ∷ ys) =
              sum_c ∙ rw no_weight (omega arith) ∙ sym sum_d in
            let at_c =
              subst (λ i. get_elem? (xs ++ c ∷ ys) i ≡ some c) e (get_elem?-there xs c ys) in
            let at_d =
              subst (λ i. get_elem? (xs ++ d ∷ ys) i ≡ some d) e (get_elem?-there xs d ys) in
            sym (
              has_digit-some place (check (weighted_sum weights (xs ++ c ∷ ys))) (xs ++ c ∷ ys) c
                at_c h)
            ∙ ap check sums
            ∙ has_digit-some place (check (weighted_sum weights (xs ++ d ∷ ys))) (xs ++ d ∷ ys) d
                at_d k
        | inr before ↦
            let sum = check (weighted_sum weights (xs ++ d ∷ ys)) in
            let there =
              has_digit-elsewhere place sum (xs ++ c ∷ ys) (xs ++ d ∷ ys)
                (get_elem?-elsewhere xs c d ys place before) in
            let equal =
              has_digit_unique place (check (weighted_sum weights (xs ++ c ∷ ys))) sum
                (xs ++ c ∷ ys) h (there ∙ k) in
            let less : length xs < place = ground arith in
            apart (length xs) (others weights xs ys) (digit c) (digit d) p q less
              (ap check (sym sum_c) ∙ equal ∙ ap check sum_d)
      ]

nip_apart :
    (n a c d : ℕ)
    → c < 10
    → d < 10
    → n < 9
    → (a + weight nip_weights n * c) % 11 ≡ (a + weight nip_weights n * d) % 11
    → c ≡ d
nip_apart zero a c d p q before h = omega (arith, p, q, h)
nip_apart (suc zero) a c d p q before h = omega (arith, p, q, h)
nip_apart (suc (suc zero)) a c d p q before h = omega (arith, p, q, h)
nip_apart (suc (suc (suc zero))) a c d p q before h = omega (arith, p, q, h)
nip_apart (suc (suc (suc (suc zero)))) a c d p q before h = omega (arith, p, q, h)
nip_apart (suc (suc (suc (suc (suc zero))))) a c d p q before h = omega (arith, p, q, h)
nip_apart (suc (suc (suc (suc (suc (suc zero)))))) a c d p q before h = omega (arith, p, q, h)
nip_apart (suc (suc (suc (suc (suc (suc (suc zero))))))) a c d p q before h = omega (arith, p, q, h)
nip_apart (suc (suc (suc (suc (suc (suc (suc (suc zero)))))))) a c d p q before h =
    omega (arith, p, q, h)
nip_apart (suc (suc (suc (suc (suc (suc (suc (suc (suc n))))))))) a c d p q before h =
    (let absurd : ⊥ = omega (arith, before) in elim absurd [ ])

pesel_apart :
    (n a c d : ℕ)
    → c < 10
    → d < 10
    → n < 10
    → (10 - (a + weight pesel_weights n * c) % 10) % 10
      ≡ (10 - (a + weight pesel_weights n * d) % 10) % 10
    → c ≡ d
pesel_apart zero a c d p q before h = omega (arith, p, q, h)
pesel_apart (suc zero) a c d p q before h = omega (arith, p, q, h)
pesel_apart (suc (suc zero)) a c d p q before h = omega (arith, p, q, h)
pesel_apart (suc (suc (suc zero))) a c d p q before h = omega (arith, p, q, h)
pesel_apart (suc (suc (suc (suc zero)))) a c d p q before h = omega (arith, p, q, h)
pesel_apart (suc (suc (suc (suc (suc zero))))) a c d p q before h = omega (arith, p, q, h)
pesel_apart (suc (suc (suc (suc (suc (suc zero)))))) a c d p q before h = omega (arith, p, q, h)
pesel_apart (suc (suc (suc (suc (suc (suc (suc zero))))))) a c d p q before h =
    omega (arith, p, q, h)
pesel_apart (suc (suc (suc (suc (suc (suc (suc (suc zero)))))))) a c d p q before h =
    omega (arith, p, q, h)
pesel_apart (suc (suc (suc (suc (suc (suc (suc (suc (suc zero))))))))) a c d p q before h =
    omega (arith, p, q, h)
pesel_apart (suc (suc (suc (suc (suc (suc (suc (suc (suc (suc n)))))))))) a c d p q before h =
    (let absurd : ⊥ = omega (arith, before) in elim absurd [ ])

is_valid_nip-pattern :
    (value : List ℕ)
    → is_valid_nip value ≡ true
    → (length value ≡ 10)
      × (all is_digit value ≡ true)
      × (has_digit 9 (weighted_sum nip_weights value % 11) value ≡ true)
unfolding is_valid_nip
is_valid_nip-pattern value h = ground arith

is_valid_pesel-pattern :
    (value : List ℕ)
    → is_valid_pesel value ≡ true
    → (length value ≡ 11)
      × (all is_digit value ≡ true)
      × (has_digit 10 ((10 - weighted_sum pesel_weights value % 10) % 10) value ≡ true)
unfolding is_valid_pesel
is_valid_pesel-pattern value h = ground arith

is_digit-code : (c d : ℕ) → is_digit c ≡ true → is_digit d ≡ true → digit c ≡ digit d → c ≡ d
is_digit-code c d p q h = ground arith

is_digit-bound : (c : ℕ) → is_digit c ≡ true → digit c < 10
is_digit-bound c p = ground arith

is_valid_nip_unique :
    (xs : List ℕ) (c d : ℕ) (ys : List ℕ)
    → is_valid_nip (xs ++ c ∷ ys) ≡ true
    → is_valid_nip (xs ++ d ∷ ys) ≡ true
    → c ≡ d
is_valid_nip_unique xs c d ys h k =
    let (long, digits_c, check_c) = is_valid_nip-pattern (xs ++ c ∷ ys) h in
    let (same_long, digits_d, check_d) = is_valid_nip-pattern (xs ++ d ∷ ys) k in
    let digit_c = all-there is_digit xs c ys digits_c in
    let digit_d = all-there is_digit xs d ys digits_d in
    let within : length xs ≤ 9 = omega (arith, length-append xs (c ∷ ys), long) in
    is_digit-code c d digit_c digit_d (
      one_digit nip_weights 9 (λ sum. sum % 11) nip_apart refl xs c d ys within
        (is_digit-bound c digit_c) (is_digit-bound d digit_d) check_c check_d)

is_valid_pesel_unique :
    (xs : List ℕ) (c d : ℕ) (ys : List ℕ)
    → is_valid_pesel (xs ++ c ∷ ys) ≡ true
    → is_valid_pesel (xs ++ d ∷ ys) ≡ true
    → c ≡ d
is_valid_pesel_unique xs c d ys h k =
    let (long, digits_c, check_c) = is_valid_pesel-pattern (xs ++ c ∷ ys) h in
    let (same_long, digits_d, check_d) = is_valid_pesel-pattern (xs ++ d ∷ ys) k in
    let digit_c = all-there is_digit xs c ys digits_c in
    let digit_d = all-there is_digit xs d ys digits_d in
    let within : length xs ≤ 10 = omega (arith, length-append xs (c ∷ ys), long) in
    is_digit-code c d digit_c digit_d (
      one_digit pesel_weights 10 (λ sum. (10 - sum % 10) % 10) pesel_apart refl xs c d ys within
        (is_digit-bound c digit_c) (is_digit-bound d digit_d) check_c check_d)

-- A valid NIP is not valid any more when one of its characters is changed.
pub is_valid_nip_one_digit :
    (xs : List ℕ) (c d : ℕ) (ys : List ℕ)
    → is_valid_nip (xs ++ c ∷ ys) ≡ true
    → c ≢ d
    → is_valid_nip (xs ++ d ∷ ys) ≡ false
is_valid_nip_one_digit xs c d ys h other = elim (Bool-cases (is_valid_nip (xs ++ d ∷ ys))) [
  | inl valid ↦ elim (other (is_valid_nip_unique xs c d ys h valid)) [ ]
  | inr invalid ↦ invalid
]

-- A valid PESEL is not valid any more when one of its characters is changed.
pub is_valid_pesel_one_digit :
    (xs : List ℕ) (c d : ℕ) (ys : List ℕ)
    → is_valid_pesel (xs ++ c ∷ ys) ≡ true
    → c ≢ d
    → is_valid_pesel (xs ++ d ∷ ys) ≡ false
is_valid_pesel_one_digit xs c d ys h other = elim (Bool-cases (is_valid_pesel (xs ++ d ∷ ys))) [
  | inl valid ↦ elim (other (is_valid_pesel_unique xs c d ys h valid)) [ ]
  | inr invalid ↦ invalid
]
