-- ===== src/Workflows/CollectiveIdentifierPaging/Chains.antt =====
-- workflows/collective-identifier-paging.ts: a walk over a chain of pages, at once and resumed.
use ksef_client_ts.Base.{
  ℕ, zero, suc, ◌+◌, ◌≤◌, ◌<◌, ◌≡◌, refl, sym, ap, ◌∙◌, subst, arith, Bool, false, Option, none,
  some, List, [], ◌∷◌, map, String, str_eq, or_default, length, length-drop, take, drop, Bool-cases,
  inl, inr,
}
use ksef_client_ts.Base.Number.{
  Number, nan, infinity, minus_infinity, minus, thousandths, positive_integer?,
}
use ksef_client_ts.Workflows.CollectiveIdentifierPaging.{
  CollectiveIdentifierPage, CollectiveIdentifierPagingOptions, End, done, exceeded, token_of,
  seen_token, default_max_pages, first_seen, FetchPage, yielded, go_on, read_pages, walk_pages,
}

-- A signal that is never aborted.
abbrev pub never : ℕ → Bool
never n = false

token_of_idem : (t : Option String) (s : String) → token_of t ≡ some s → token_of (some s) ≡ some s
token_of_idem none s h = cc
token_of_idem (some r) s h = elim (Bool-cases (str_eq r "")) [
  | inl empty ↦ let c : none ≡ some s = sym (rw empty refl) ∙ h in cc
  | inr full ↦
      let same : some r ≡ some s = sym (rw full refl) ∙ h in
      subst (λ x. token_of x ≡ x) same (rw full refl)
]

-- A page as it is yielded: an empty token is none.
abbrev pub shown {ℓ} : {A : Type ℓ} → CollectiveIdentifierPage A → CollectiveIdentifierPage A
shown page = yielded page (token_of page.continuation_token)

module _ {A : Type 0} (answer : ℕ → Option String → Option (CollectiveIdentifierPage A))
    (size : ℕ) where
  -- The pages that the answers make up from a token on: each but the last has a token that is not
  -- among those seen before, and the next page is the answer to it.
  abbrev pub IsChain : Option String → List String → List (CollectiveIdentifierPage A) → Type 0
  IsChain token seen [] = ⊥
  IsChain token seen (page ∷ []) =
      (answer size token ≡ some page) × (token_of page.continuation_token ≡ none)
  IsChain token seen (page ∷ next ∷ pages) =
      (answer size token ≡ some page)
      × (t : String) × (token_of page.continuation_token ≡ some t)
      × (seen_token t seen ≡ false)
      × IsChain (some t) (t ∷ seen) (next ∷ pages)

  read_pages_whole :
      (left pages : ℕ) (token : Option String) (seen : List String)
      (chain : List (CollectiveIdentifierPage A))
      → IsChain token seen chain
      → length chain ≤ left
      → read_pages never (λ n. answer) size left pages token seen ≡ (map shown chain, done)
  unfolding read_pages
  read_pages_whole left pages token seen [] h enough = elim h [ ]
  read_pages_whole zero pages token seen (page ∷ chain) h enough = elim enough [ ]
  read_pages_whole (suc left) pages token seen (page ∷ []) (h, last) enough = rw (h, last) refl
  read_pages_whole (suc left) pages token seen (page ∷ next ∷ chain) (h, t, more, new, rest)
        enough =
      rw (h, more, new)
        (ap (go_on (yielded page (some t)))
          (read_pages_whole left (suc pages) (some t) (t ∷ seen) (next ∷ chain) rest (omega arith)))

  -- A chain is one also where fewer tokens were seen before.
  IsChain-fewer :
      (token : Option String) (seen fewer : List String) (chain : List (CollectiveIdentifierPage A))
      → ((t : String) → seen_token t seen ≡ false → seen_token t fewer ≡ false)
      → IsChain token seen chain
      → IsChain token fewer chain
  IsChain-fewer token seen fewer [] h c = c
  IsChain-fewer token seen fewer (page ∷ []) h c = c
  IsChain-fewer token seen fewer (page ∷ next ∷ chain) h (asked, t, more, new, rest) = (
    asked,
    t,
    more,
    h t new,
    IsChain-fewer (some t) (t ∷ seen) (t ∷ fewer) (next ∷ chain) (λ s apart. ground (arith, h s))
        rest,
  )

  -- A walk that is cut carries the token that the rest of the chain starts at.
  abbrev pub Cut :
      ℕ → List (CollectiveIdentifierPage A) → List (CollectiveIdentifierPage A) × End → Type 0
  Cut m chain walk =
      (s : String) × (token_of (some s) ≡ some s)
      × (walk ≡ (take m (map shown chain), exceeded (some s)))
      × IsChain (some s) (s ∷ []) (drop m chain)

  read_pages-Cut :
      (left pages : ℕ) (token : Option String) (seen : List String)
      (chain : List (CollectiveIdentifierPage A))
      → IsChain token seen chain
      → suc left < length chain
      → Cut (suc left) chain (read_pages never (λ n. answer) size (suc left) pages token seen)
  unfolding read_pages
  read_pages-Cut left pages token seen [] h beyond = elim h [ ]
  read_pages-Cut left pages token seen (page ∷ []) h beyond =
      (let c : ⊥ = omega arith in elim c [ ])
  read_pages-Cut zero pages token seen (page ∷ next ∷ chain) (h, t, more, new, rest) beyond = (
    t,
    token_of_idem page.continuation_token t more,
    rw (h, more, new) refl,
    IsChain-fewer (some t) (t ∷ seen) (t ∷ []) (next ∷ chain) (λ s apart. ground arith) rest,
  )
  read_pages-Cut (suc left) pages token seen (page ∷ next ∷ chain) (h, t, more, new, rest) beyond =
      let (s, plain, cut, from) =
        read_pages-Cut left (suc pages) (some t) (t ∷ seen) (next ∷ chain) rest (omega arith) in
      (s, plain, rw (h, more, new) (ap (go_on (yielded page (some t))) cut), from)

pub walk_pages_starts {ℓ} :
    {A : Type ℓ} (signal : ℕ → Bool) (fetch : FetchPage A) (default : Number)
    (options : CollectiveIdentifierPagingOptions) (size max_pages : ℕ)
    → positive_integer? (or_default options.page_size default) ≡ some size
    → positive_integer? (or_default options.max_pages default_max_pages) ≡ some max_pages
    → walk_pages signal fetch default options
      ≡ read_pages signal fetch size max_pages 0
          (token_of options.continuation_token)
          (first_seen (token_of options.continuation_token))
unfolding walk_pages
walk_pages_starts signal fetch default options size max_pages sized capped =
    rw (walk_pages, sized, capped) refl

positive_integer-pos : (n : Number) → positive_integer? n ≡ some zero → ⊥
positive_integer-pos nan h = cc
positive_integer-pos infinity h = cc
positive_integer-pos minus_infinity h = cc
positive_integer-pos (minus n) h = cc
positive_integer-pos (thousandths zero) h = cc
positive_integer-pos (thousandths (suc n)) h = ground arith

module _ {A : Type 0} (answer : ℕ → Option String → Option (CollectiveIdentifierPage A))
    (default : Number) where
  -- When the server's pages make up a chain from the token of the options and there are no more of
  -- them than maxPages, the walk yields them all in order and is done.
  pub walk_pages_whole :
      (options : CollectiveIdentifierPagingOptions) (size max_pages : ℕ)
      (chain : List (CollectiveIdentifierPage A))
      → positive_integer? (or_default options.page_size default) ≡ some size
      → positive_integer? (or_default options.max_pages default_max_pages) ≡ some max_pages
      → IsChain answer size
          (token_of options.continuation_token)
          (first_seen (token_of options.continuation_token))
          chain
      → length chain ≤ max_pages
      → walk_pages never (λ n. answer) default options ≡ (map shown chain, done)
  walk_pages_whole options size max_pages chain sized capped h enough =
      let token = token_of options.continuation_token in
      walk_pages_starts never (λ n. answer) default options size max_pages sized capped
      ∙ read_pages_whole answer size max_pages 0 token (first_seen token) chain h enough

  -- When the chain has more pages than maxPages, the walk yields the first maxPages of them and throws
  -- with a token, and a walk with that token and a large enough maxPages yields the other pages.
  pub walk_pages_resumes :
      (options : CollectiveIdentifierPagingOptions) (size max_pages : ℕ)
      (chain : List (CollectiveIdentifierPage A))
      → positive_integer? (or_default options.page_size default) ≡ some size
      → positive_integer? (or_default options.max_pages default_max_pages) ≡ some max_pages
      → IsChain answer size
          (token_of options.continuation_token)
          (first_seen (token_of options.continuation_token))
          chain
      → max_pages < length chain
      → (s : String) × (walk_pages never (λ n. answer) default options
          ≡ (take max_pages (map shown chain), exceeded (some s)))
        × ((more : Number) (enough : ℕ)
            → positive_integer? more ≡ some enough
            → length chain ≤ max_pages + enough
            → walk_pages never
                (λ n. answer)
                default
                (record options { continuation_token = some s; max_pages = some more })
              ≡ (map shown (drop max_pages chain), done))
  walk_pages_resumes options size zero chain sized capped h beyond =
      elim (positive_integer-pos (or_default options.max_pages default_max_pages) capped) [ ]
  walk_pages_resumes options size (suc left) chain sized capped h beyond =
      let token = token_of options.continuation_token in
      let (s, plain, cut, from) =
        read_pages-Cut answer size left 0 token (first_seen token) chain h beyond in
      (
        s,
        walk_pages_starts never (λ n. answer) default options size (suc left) sized capped ∙ cut,
        λ more enough m fits.
            walk_pages_starts never (λ n. answer) default
              (record options { continuation_token = some s; max_pages = some more }) size enough
              sized m
            ∙ ap (λ t. read_pages never (λ n. answer) size enough 0 t (first_seen t)) plain
            ∙ read_pages_whole answer size enough 0 (some s) (s ∷ []) (drop (suc left) chain) from
                (omega (arith, length-drop (suc left) chain)),
      )
