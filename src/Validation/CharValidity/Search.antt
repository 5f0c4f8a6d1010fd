-- ===== src/Validation/CharValidity/Search.antt =====
-- validation/char-validity.ts: the binary search finds the range of a character.
use ksef_client_ts.Base.{
  ℕ, zero, suc, ◌+◌, ◌-◌, ◌/◌, ◌≤◌, ◌<◌, ◌≡◌, refl, sym, ap, ◌∙◌, subst, arith, Bool, true, ◌&&◌,
  Option, none, some, List, [], ◌∷◌, ltb, leb, all, get_elem?, length, Bool-cases, inl, inr,
}
use ksef_client_ts.Validation.CharValidity.{Range, discouraged_unicode_ranges, search, range_index}

-- The range at an index has the character.
abbrev pub IsInside : List Range → ℕ → ℕ → Type 0
IsInside table cp i =
    (start : ℕ) × (end : ℕ) × (get_elem? table i ≡ some (start, end)) × (start ≤ cp) × (cp ≤ end)

-- What a search is to give: the index of the range with the character, or none where there is none.
abbrev pub Finds : List Range → ℕ → Option ℕ → Type 0
Finds table cp none = (i : ℕ) → IsInside table cp i → ⊥
Finds table cp (some i) = IsInside table cp i

-- Ranges that are not empty and in order.
abbrev pub sorted : List Range → Bool
sorted [] = true
sorted (r ∷ table) = leb r.0 r.1 && (all (λ (q : Range). ltb r.1 q.0) table && sorted table)

get_elem?-length :
    {A : Type 0} (xs : List A) (i : ℕ) → i < length xs → (x : A) × (get_elem? xs i ≡ some x)
get_elem?-length [] i h = (let c : ⊥ = omega arith in elim c [ ])
get_elem?-length (x ∷ xs) zero h = (x, refl)
get_elem?-length (x ∷ xs) (suc i) h = get_elem?-length xs i (omega arith)

all-get :
    (p : Range → Bool) (table : List Range) (i : ℕ) (r : Range)
    → all p table ≡ true
    → get_elem? table i ≡ some r
    → p r ≡ true
all-get p [] i r h e = cc
all-get p (q ∷ table) zero r h e =
    let here : p q ≡ true = ground arith in
    let same : q ≡ r = cc in subst (λ x. p x ≡ true) same here
all-get p (q ∷ table) (suc i) r h e = all-get p table i r (ground arith) e

sorted-proper :
    (table : List Range) (i : ℕ) (r : Range)
    → sorted table ≡ true
    → get_elem? table i ≡ some r
    → r.0 ≤ r.1
sorted-proper [] i r h e = cc
sorted-proper (q ∷ table) zero r h e =
    let here : q.0 ≤ q.1 = ground arith in
    let same : q ≡ r = cc in subst (λ (x : Range). x.0 ≤ x.1) same here
sorted-proper (q ∷ table) (suc i) r h e = sorted-proper table i r (ground arith) e

sorted-order :
    (table : List Range) (i j : ℕ) (r q : Range)
    → sorted table ≡ true
    → get_elem? table i ≡ some r
    → get_elem? table j ≡ some q
    → i < j
    → r.1 < q.0
sorted-order [] i j r q h e f before = cc
sorted-order (s ∷ table) i zero r q h e f before = (let c : ⊥ = omega arith in elim c [ ])
sorted-order (s ∷ table) zero (suc j) r q h e f before =
    let later : all (λ (x : Range). ltb s.1 x.0) table ≡ true = ground arith in
    let same : s ≡ r = cc in
    let one : ltb s.1 q.0 ≡ true = all-get (λ (x : Range). ltb s.1 x.0) table j q later f in
    subst (λ (x : Range). x.1 < q.0) same (ground arith)
sorted-order (s ∷ table) (suc i) (suc j) r q h e f before =
    sorted-order table i j r q (ground arith) e f (omega arith)

range_inj : (r q : Range) → some r ≡ some q → (r.0 ≡ q.0) × (r.1 ≡ q.1)
range_inj r q h =
    let same : r ≡ q = cc in (ap (λ (x : Range). x.0) same, ap (λ (x : Range). x.1) same)

module _ (table : List Range) (cp : ℕ) (in_order : sorted table ≡ true) where
  Below : ℕ → Type 0
  Below lo = (i : ℕ) → i < lo → IsInside table cp i → ⊥

  From : ℕ → Type 0
  From past = (i : ℕ) → past ≤ i → IsInside table cp i → ⊥

  -- A character before a range is in no range from there on.
  From-before :
      (mid start end : ℕ) → get_elem? table mid ≡ some (start, end) → cp < start → From mid
  unfolding From
  From-before mid start end e before i reached (s, t, f, low, high) =
      let proper = sorted-proper table mid (start, end) in_order e in
      elim (Bool-cases (ltb mid i)) [
        | inl further ↦
            let apart = sorted-order table mid i (start, end) (s, t) in_order e f (ground arith) in
            omega (arith, proper, apart, low, before)
        | inr here ↦
            let same : mid ≡ i = ground arith in
            let (s_same, t_same) =
              range_inj (start, end) (s, t) (sym e ∙ ap (get_elem? table) same ∙ f) in
            omega (arith, s_same, low, before)
      ]

  -- A character after a range is in no range up to there.
  Below-after :
      (mid start end : ℕ) → get_elem? table mid ≡ some (start, end) → end < cp → Below (mid + 1)
  unfolding Below
  Below-after mid start end e beyond i reached (s, t, f, low, high) =
      let proper = sorted-proper table mid (start, end) in_order e in
      elim (Bool-cases (ltb i mid)) [
        | inl earlier ↦
            let apart = sorted-order table i mid (s, t) (start, end) in_order f e (ground arith) in
            omega (arith, proper, apart, high, beyond)
        | inr here ↦
            let same : mid ≡ i = ground arith in
            let (s_same, t_same) =
              range_inj (start, end) (s, t) (sym e ∙ ap (get_elem? table) same ∙ f) in
            omega (arith, t_same, high, beyond)
      ]

  nowhere : (lo past : ℕ) → past ≤ lo → Below lo → From past → Finds table cp none
  unfolding Below From
  nowhere lo past over below from i inside = elim (Bool-cases (ltb i lo)) [
    | inl earlier ↦ below i (ground arith) inside
    | inr later ↦ from i (ground arith) inside
  ]

  search-Finds :
      (fuel lo past : ℕ)
      → past ≤ length table
      → past ≤ lo + fuel
      → Below lo
      → From past
      → Finds table cp (search table cp fuel lo past)
  unfolding search Below From
  search-Finds zero lo past bound enough below from = nowhere lo past (omega arith) below from
  search-Finds (suc fuel) lo past bound enough below from = elim (Bool-cases (ltb lo past)) [
    | inr over ↦ rw (search, over) (nowhere lo past (ground arith) below from)
    | inl going ↦
        let mid = (lo + past - 1) / 2 in
        let from_lo : lo ≤ mid = ground arith in
        let to_past : mid < past = ground arith in
        let ((start, end), there) = get_elem?-length table mid (omega arith) in
        elim (Bool-cases (ltb cp start)) [
          | inl before ↦
              rw (search, going, there, before)
                (search-Finds fuel lo mid (omega arith) (omega arith) below
                  (From-before mid start end there (ground arith)))
          | inr not_before ↦ elim (Bool-cases (ltb end cp)) [
            | inl beyond ↦
                rw (search, going, there, not_before, beyond)
                  (search-Finds fuel (mid + 1) past bound (omega arith)
                    (Below-after mid start end there (ground arith)) from)
            | inr within ↦
                rw (search, going, there, not_before, within)
                  (start, end, there, ground arith, ground arith)
          ]
        ]
  ]

get_elem?-past : {A : Type 0} (xs : List A) (i : ℕ) → length xs ≤ i → get_elem? xs i ≡ none
get_elem?-past [] i h = refl
get_elem?-past (x ∷ xs) zero h = (let c : ⊥ = omega arith in elim c [ ])
get_elem?-past (x ∷ xs) (suc i) h = get_elem?-past xs i (omega arith)

none_apart : (r : Range) → none ≡ some r → ⊥
none_apart r h = subst (λ (o : Option Range). elim o [ none ↦ Unit | some q ↦ ⊥ ]) h tt

past_end : (cp i : ℕ) → 19 ≤ i → IsInside discouraged_unicode_ranges cp i → ⊥
past_end cp i beyond (start, end, there, low, high) =
    none_apart (start, end) (sym (get_elem?-past discouraged_unicode_ranges i beyond) ∙ there)

-- The search gives the index of a range that has the character, and none only where no range of the
-- table has it.
pub range_index_lem : (cp : ℕ) → Finds discouraged_unicode_ranges cp (range_index cp)
unfolding range_index Below From
range_index_lem cp =
    search-Finds discouraged_unicode_ranges cp refl 19 0 19 (omega arith) (omega arith)
      (λ i before inside. let c : ⊥ = omega (arith, before) in elim c [ ])
      (λ i beyond inside. past_end cp i beyond inside)
