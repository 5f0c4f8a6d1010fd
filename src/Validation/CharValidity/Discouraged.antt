-- ===== src/Validation/CharValidity/Discouraged.antt =====
-- validation/char-validity.ts: what findDiscouragedUnicode reports.
use ksef_client_ts.Base.{
  ℕ, ◌+◌, ◌≡◌, refl, sym, ap, ◌∙◌, subst, arith, Bool, true, false, Option, none, some, List, [],
  ◌∷◌, ◌==◌, if◌then◌else◌, Bool-cases, Option-cases, inl, inr,
}
use ksef_client_ts.Validation.CharValidity.{
  DiscouragedUnicode, range_index, seen_range, utf16_length, scan_unicode, find_discouraged_unicode,
}

abbrev pub in_range : ℕ → ℕ → Bool
in_range i cp = elim (range_index cp) [ none ↦ false | some j ↦ i == j ]

-- The first character of a text in a range, with its offset.
abbrev pub first_in : ℕ → ℕ → List ℕ → Option DiscouragedUnicode
first_in i offset [] = none
first_in i offset (cp ∷ xml) =
    let rest = first_in i (offset + utf16_length cp) xml in
    if in_range i cp then some (record { code_point = cp; offset = offset }) else rest

-- The first report of a character in a range.
abbrev pub report_of : ℕ → List DiscouragedUnicode → Option DiscouragedUnicode
report_of i [] = none
report_of i (e ∷ errors) =
    let rest = report_of i errors in if in_range i e.code_point then some e else rest

abbrev pub ReportedOnce : List DiscouragedUnicode → Type 0
ReportedOnce [] = Unit
ReportedOnce (e ∷ errors) =
    ((i : ℕ) → in_range i e.code_point ≡ true → report_of i errors ≡ none) × ReportedOnce errors

in_range-some : (i j cp : ℕ) → range_index cp ≡ some j → in_range i cp ≡ (i == j)
in_range-some i j cp h = rw (in_range, h) refl

in_range-none : (i cp : ℕ) → range_index cp ≡ none → in_range i cp ≡ false
in_range-none i cp h = rw (in_range, h) refl

-- A range that was seen is not reported again.
report_of-seen :
    (i : ℕ) (seen : List ℕ) (offset : ℕ) (xml : List ℕ)
    → seen_range i seen ≡ true
    → report_of i (scan_unicode seen offset xml) ≡ none
unfolding scan_unicode
report_of-seen i seen offset [] h = refl
report_of-seen i seen offset (cp ∷ xml) h = elim (Option-cases (range_index cp)) [
  | inl fine ↦ rw (scan_unicode, fine) (report_of-seen i seen (offset + utf16_length cp) xml h)
  | inr (j, found) ↦ elim (Bool-cases (seen_range j seen)) [
    | inl old ↦
        rw (scan_unicode, found, old) (report_of-seen i seen (offset + utf16_length cp) xml h)
    | inr new ↦ elim (Bool-cases (i == j)) [
      | inl same ↦
          let e : i ≡ j = ground arith in
          let c : true ≡ false = sym h ∙ ap (λ k. seen_range k seen) e ∙ new in cc
      | inr apart ↦
          rw (scan_unicode, found, new, report_of, in_range-some i j cp found, apart)
            (report_of-seen i (j ∷ seen) (offset + utf16_length cp) xml (rw (apart, h) refl))
    ]
  ]
]

report_of-scan_unicode :
    (i : ℕ) (seen : List ℕ) (offset : ℕ) (xml : List ℕ)
    → seen_range i seen ≡ false
    → report_of i (scan_unicode seen offset xml) ≡ first_in i offset xml
unfolding scan_unicode
report_of-scan_unicode i seen offset [] h = refl
report_of-scan_unicode i seen offset (cp ∷ xml) h = elim (Option-cases (range_index cp)) [
  | inl fine ↦
      rw (scan_unicode, first_in, in_range-none i cp fine, fine)
        (report_of-scan_unicode i seen (offset + utf16_length cp) xml h)
  | inr (j, found) ↦ elim (Bool-cases (i == j)) [
    | inl same ↦
        let e : i ≡ j = ground arith in
        let new : seen_range j seen ≡ false = subst (λ k. seen_range k seen ≡ false) e h in
        rw (scan_unicode, found, new, report_of, first_in, in_range-some i j cp found, same) refl
    | inr apart ↦ elim (Bool-cases (seen_range j seen)) [
      | inl old ↦
          rw (scan_unicode, first_in, in_range-some i j cp found, found, old, apart)
            (report_of-scan_unicode i seen (offset + utf16_length cp) xml h)
      | inr new ↦
          rw (scan_unicode, found, new, report_of, first_in, in_range-some i j cp found, apart)
            (report_of-scan_unicode i (j ∷ seen) (offset + utf16_length cp) xml
              (rw (apart, h) refl))
    ]
  ]
]

scan_unicode-ReportedOnce :
    (seen : List ℕ) (offset : ℕ) (xml : List ℕ) → ReportedOnce (scan_unicode seen offset xml)
unfolding scan_unicode
scan_unicode-ReportedOnce seen offset [] = tt
scan_unicode-ReportedOnce seen offset (cp ∷ xml) = elim (Option-cases (range_index cp)) [
  | inl fine ↦
      rw (scan_unicode, fine) (scan_unicode-ReportedOnce seen (offset + utf16_length cp) xml)
  | inr (j, found) ↦ elim (Bool-cases (seen_range j seen)) [
    | inl old ↦
        rw (scan_unicode, found, old)
          (scan_unicode-ReportedOnce seen (offset + utf16_length cp) xml)
    | inr new ↦
        rw (scan_unicode, found, new)
          (
            λ i inside.
                let same : (i == j) ≡ true = sym (in_range-some i j cp found) ∙ inside in
                report_of-seen i (j ∷ seen) (offset + utf16_length cp) xml (rw same refl),
            scan_unicode-ReportedOnce (j ∷ seen) (offset + utf16_length cp) xml,
          )
  ]
]

-- For every range of the table the first report of one of its characters is the first one in the
-- text, with its UTF-16 offset, and there is none where the text has none; no range is reported twice.
pub find_discouraged_unicode_lem :
    (xml : List ℕ)
    → ((i : ℕ) → report_of i (find_discouraged_unicode xml) ≡ first_in i 0 xml)
      × ReportedOnce (find_discouraged_unicode xml)
find_discouraged_unicode_lem xml =
    (λ i. report_of-scan_unicode i [] 0 xml refl, scan_unicode-ReportedOnce [] 0 xml)
