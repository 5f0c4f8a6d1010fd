-- ===== src/Validation/CharValidity/Tests.antt =====
-- Examples of validation/char-validity.ts.
use ksef_client_ts.Base.{ℕ, ◌≡◌, refl, none, some, List, [], ◌∷◌}
use ksef_client_ts.Validation.CharValidity.{
  discouraged_unicode_ranges, search, range_index, scan_unicode, find_discouraged_unicode,
}
use ksef_client_ts.Validation.CharValidity.Search.{Finds, range_index_lem}
use ksef_client_ts.Validation.CharValidity.Discouraged.{
  first_in, report_of, ReportedOnce, find_discouraged_unicode_lem,
}

-- A control character, an emoji, the same control range again and a noncharacter.
abbrev xml : List ℕ
xml = 0x41 ∷ 0x7f ∷ 0x1f600 ∷ 0x80 ∷ 0x10ffff ∷ []

range_index_lem_example : Finds discouraged_unicode_ranges 0x10ffff (range_index 0x10ffff)
range_index_lem_example = range_index_lem 0x10ffff

last_range : range_index 0x10ffff ≡ some 18
unfolding range_index search
last_range = refl

between : range_index 0x85 ≡ none
unfolding range_index search
between = refl

find_discouraged_unicode_lem_example :
    ((i : ℕ) → report_of i (find_discouraged_unicode xml) ≡ first_in i 0 xml)
    × ReportedOnce (find_discouraged_unicode xml)
find_discouraged_unicode_lem_example = find_discouraged_unicode_lem xml

reports :
    find_discouraged_unicode xml
    ≡ record { code_point = 0x7f; offset = 1 } ∷ record { code_point = 0x10ffff; offset = 5 } ∷ []
unfolding range_index search scan_unicode
reports = refl
