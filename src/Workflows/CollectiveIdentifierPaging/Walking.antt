-- ===== src/Workflows/CollectiveIdentifierPaging/Walking.antt =====
-- workflows/collective-identifier-paging.ts: a walk over any server.
use ksef_client_ts.Base.{
  ℕ, zero, suc, ◌≡◌, refl, sym, subst, Bool, true, false, Option, none, some, List, [], ◌∷◌, String,
  or_default, Bool-cases, Option-cases, inl, inr, ◌⊎◌,
}
use ksef_client_ts.Base.Number.{Number, positive_integer?}
use ksef_client_ts.Workflows.CollectiveIdentifierPaging.{
  CollectiveIdentifierPage, CollectiveIdentifierPagingOptions, FetchPage, End, done, server_error,
  aborted, stalled, exceeded, default_max_pages, token_of, seen_token, first_seen, yielded, go_on,
  read_pages, walk_pages,
}
use ksef_client_ts.Workflows.CollectiveIdentifierPaging.Chains.{walk_pages_starts}

-- A walk that stops before a page: by an error, or by the limit with the token that would come next.
abbrev StopsBefore : ℕ → Option String → End → Type 0
StopsBefore left token server_error = Unit
StopsBefore left token aborted = Unit
StopsBefore left token (exceeded t) = (left ≡ 0) × (t ≡ token)
StopsBefore left token end = ⊥

-- A walk that stops after a page: done where it has no token, stalled where its token was seen.
abbrev StopsAfter : Option String → List String → End → Type 0
StopsAfter next seen done = next ≡ none
StopsAfter next seen (stalled t) = (next ≡ some t) × (seen_token t seen ≡ true)
StopsAfter next seen end = ⊥

-- The pages and the ending of a walk with so many requests, from a token on, with tokens seen before:
-- after each page the walk stops, or it goes on with a token that is new.
module _ {A : Type 0} where
  abbrev pub IsWalk :
      ℕ → Option String → List String → List (CollectiveIdentifierPage A) × End → Type 0
  IsWalk left token seen ([], end) = StopsBefore left token end
  IsWalk zero token seen (page ∷ pages, end) = ⊥
  IsWalk (suc left) token seen (page ∷ pages, end) =
      ((pages ≡ []) × StopsAfter page.continuation_token seen end)
      ⊎ ((t : String) × (page.continuation_token ≡ some t)
          × (seen_token t seen ≡ false)
          × IsWalk left (some t) (t ∷ seen) (pages, end))

  module _ (signal : ℕ → Bool) (fetch : FetchPage A) (size : ℕ) where
    stops :
        (left pages : ℕ) (token : Option String) (seen : List String)
        (walk : List (CollectiveIdentifierPage A) × End)
        → read_pages signal fetch size left pages token seen ≡ walk
        → IsWalk left token seen walk
        → IsWalk left token seen (read_pages signal fetch size left pages token seen)
    stops left pages token seen walk e h = subst (IsWalk left token seen) (sym e) h

    read_pages-IsWalk :
        (left pages : ℕ) (token : Option String) (seen : List String)
        → IsWalk left token seen (read_pages signal fetch size left pages token seen)
    unfolding read_pages
    read_pages-IsWalk zero pages token seen = elim (Bool-cases (signal pages)) [
      | inl stop ↦ stops zero pages token seen ([], aborted) (rw stop refl) tt
      | inr on ↦ stops zero pages token seen ([], exceeded token) (rw on refl) (refl, refl)
    ]
    read_pages-IsWalk (suc left) pages token seen = elim (Bool-cases (signal pages)) [
      | inl stop ↦ stops (suc left) pages token seen ([], aborted) (rw (read_pages, stop) refl) tt
      | inr on ↦ elim (Option-cases (fetch pages size token)) [
        | inl failed ↦
            stops (suc left) pages token seen ([], server_error) (rw (read_pages, on, failed) refl)
              tt
        | inr (page, fetched) ↦ elim (Option-cases (token_of page.continuation_token)) [
          | inl last ↦
              stops (suc left) pages token seen (yielded page none ∷ [], done)
                (rw (read_pages, on, fetched, last) refl) (inl (refl, refl))
          | inr (t, more) ↦ elim (Bool-cases (seen_token t seen)) [
            | inl again ↦
                stops (suc left) pages token seen (yielded page (some t) ∷ [], stalled t)
                  (rw (read_pages, on, fetched, more, again) refl) (inl (refl, (refl, again)))
            | inr new ↦
                stops (suc left) pages token seen
                  (go_on (yielded page (some t))
                    (read_pages signal fetch size left (suc pages) (some t) (t ∷ seen)))
                  (rw (read_pages, on, fetched, more, new) refl)
                  (inr (t, refl, new, read_pages-IsWalk left (suc pages) (some t) (t ∷ seen)))
          ]
        ]
      ]
    ]

  -- Whatever the server answers: the walk makes at most maxPages requests that answer, never goes on
  -- with a token that it started with or had before, is done at a page without a token only, and
  -- throws that it stalled or that there are too many pages in just those cases.
  pub walk_pages-IsWalk :
      (signal : ℕ → Bool) (fetch : FetchPage A) (default : Number)
      (options : CollectiveIdentifierPagingOptions) (size max_pages : ℕ)
      → positive_integer? (or_default options.page_size default) ≡ some size
      → positive_integer? (or_default options.max_pages default_max_pages) ≡ some max_pages
      → IsWalk max_pages
          (token_of options.continuation_token)
          (first_seen (token_of options.continuation_token))
          (walk_pages signal fetch default options)
  walk_pages-IsWalk signal fetch default options size max_pages sized capped =
      let token = token_of options.continuation_token in
      subst (IsWalk max_pages token (first_seen token))
        (sym (walk_pages_starts signal fetch default options size max_pages sized capped))
        (read_pages-IsWalk signal fetch size max_pages 0 token (first_seen token))
