-- ===== src/Validation/CharValidity.antt =====
-- validation/char-validity.ts: the search for discouraged characters. A text is the list of its code
-- points, as `for (const ch of xml)` has them; an error has the code point and the offset that its
-- message and its path are written with. `hi` is kept as `past`, which is hi + 1.
pub mod Search
pub mod Discouraged
mod Tests
use ksef_client_ts.Base.{
  ℕ, zero, suc, ◌+◌, ◌-◌, ◌/◌, Bool, true, false, Option, none, some, List, [], ◌∷◌, ltb, ◌==◌, any,
  get_elem?, length, if◌then◌else◌,
}

abbrev pub Range : Type 0
Range = ℕ × ℕ

abbrev pub discouraged_unicode_ranges : List Range
discouraged_unicode_ranges =
    (0x7f, 0x84)
    ∷ (0x86, 0x9f)
    ∷ (0xfdd0, 0xfdef)
    ∷ (0x1fffe, 0x1ffff)
    ∷ (0x2fffe, 0x2ffff)
    ∷ (0x3fffe, 0x3ffff)
    ∷ (0x4fffe, 0x4ffff)
    ∷ (0x5fffe, 0x5ffff)
    ∷ (0x6fffe, 0x6ffff)
    ∷ (0x7fffe, 0x7ffff)
    ∷ (0x8fffe, 0x8ffff)
    ∷ (0x9fffe, 0x9ffff)
    ∷ (0xafffe, 0xaffff)
    ∷ (0xbfffe, 0xbffff)
    ∷ (0xcfffe, 0xcffff)
    ∷ (0xdfffe, 0xdffff)
    ∷ (0xefffe, 0xeffff)
    ∷ (0xffffe, 0xfffff)
    ∷ (0x10fffe, 0x10ffff)
    ∷ []

-- The loop of rangeIndex, on fuel; `none` is -1.
unfoldable pub search : List Range → ℕ → ℕ → ℕ → ℕ → Option ℕ
search table cp zero lo past = none
search table cp (suc fuel) lo past = elim (ltb lo past) [
  | false ↦ none
  | true ↦
      let mid = (lo + past - 1) / 2 in
      elim (get_elem? table mid) [
        | none ↦ none
        | some (start, end) ↦ elim (ltb cp start) [
          | true ↦ search table cp fuel lo mid
          | false ↦ elim (ltb end cp) [
            | true ↦ search table cp fuel (mid + 1) past
            | false ↦ some mid
          ]
        ]
      ]
]

unfoldable pub range_index : ℕ → Option ℕ
range_index cp =
    search discouraged_unicode_ranges cp (length discouraged_unicode_ranges) 0
      (length discouraged_unicode_ranges)

pub record DiscouragedUnicode : Type 0 where
  pub code_point : ℕ
  pub offset : ℕ

-- `ch.length`, in UTF-16
abbrev pub utf16_length : ℕ → ℕ
utf16_length cp = if ltb 0xffff cp then 2 else 1

abbrev pub seen_range : ℕ → List ℕ → Bool
seen_range i seen = any (λ j. i == j) seen

-- The loop of findDiscouragedUnicode, with the ranges seen and the offset.
unfoldable pub scan_unicode : List ℕ → ℕ → List ℕ → List DiscouragedUnicode
scan_unicode seen offset [] = []
scan_unicode seen offset (cp ∷ xml) = elim (range_index cp) [
  | none ↦ scan_unicode seen (offset + utf16_length cp) xml
  | some i ↦ elim (seen_range i seen) [
    | true ↦ scan_unicode seen (offset + utf16_length cp) xml
    | false ↦
        record { code_point = cp; offset = offset }
        ∷ scan_unicode (i ∷ seen) (offset + utf16_length cp) xml
  ]
]

abbrev pub find_discouraged_unicode : List ℕ → List DiscouragedUnicode
find_discouraged_unicode xml = scan_unicode [] 0 xml
