-- ===== src/Workflows/MetadataPaging/Scanning.antt =====
-- workflows/metadata-query-paging.ts: what the loop over one response keeps, skips and remembers.
use mathlib.Core.List.{append_assoc, append-nil}
use ksef_client_ts.Base.{
  ℕ, ◌≡◌, ◌≢◌, refl, sym, ap, ◌∙◌, true, false, some, List, [], ◌∷◌, ◌++◌, String, arith, map,
  str_eq, eq_iff, All, All-append, Bool-cases, inl, inr,
}
use ksef_client_ts.Base.Text.{same_text}
use ksef_client_ts.Workflows.MetadataPaging.{
  DateType, InvoiceMetadata, boundary_of, Key, key_of, has_key, Carry, is_carried, Boundary,
  no_boundary, advance, scan,
}

pub same_text_refl : (s : List ℕ) → same_text s s ≡ true
same_text_refl [] = refl
same_text_refl (c ∷ s) = ground (arith, same_text_refl s)

module _ (t : DateType) where
  abbrev pub At : String → InvoiceMetadata → Type 0
  At v i = boundary_of t i ≡ v

  -- The list does not end with an invoice at the value.
  abbrev pub NotEndsAt : String → List InvoiceMetadata → Type 0
  NotEndsAt v [] = Unit
  NotEndsAt v (i ∷ []) = boundary_of t i ≢ v
  NotEndsAt v (i ∷ j ∷ is) = NotEndsAt v (j ∷ is)

  pub NotEndsAt-append :
      (v : String) (xs : List InvoiceMetadata) (i : InvoiceMetadata)
      → boundary_of t i ≢ v
      → NotEndsAt v (xs ++ i ∷ [])
  NotEndsAt-append v [] i h = h
  NotEndsAt-append v (x ∷ []) i h = h
  NotEndsAt-append v (x ∷ y ∷ xs) i h = NotEndsAt-append v (y ∷ xs) i h

  -- A boundary after the invoices of a window: their last block of one value, and its keys.
  pub record Describes (xs : List InvoiceMetadata) (b : Boundary) : Type 0 where
    pub front : List InvoiceMetadata
    pub block : List InvoiceMetadata
    pub value : String
    pub split : xs ≡ front ++ block
    pub last : b.last ≡ some value
    pub at : All (At value) block
    pub maximal : NotEndsAt value front
    pub busy : block ≢ []
    pub known : All (λ i. has_key (key_of i) b.keys ≡ true) block
    pub only : (k : Key) → has_key k (map key_of block) ≡ false → has_key k b.keys ≡ false

  has_key-cons :
      (k : Key) (ks : List Key) (is : List InvoiceMetadata)
      → All (λ i. has_key (key_of i) ks ≡ true) is
      → All (λ i. has_key (key_of i) (k ∷ ks) ≡ true) is
  has_key-cons k ks [] h = tt
  has_key-cons k ks (i ∷ is) (here, h) = (ground arith, has_key-cons k ks is h)

  has_key-map-append :
      (k : Key) (xs : List InvoiceMetadata) (i : InvoiceMetadata)
      → has_key k (map key_of (xs ++ i ∷ [])) ≡ false
      → (has_key k (map key_of xs) ≡ false) × (same_text k (key_of i) ≡ false)
  has_key-map-append k [] i h = ground arith
  has_key-map-append k (x ∷ xs) i h = ground (arith, has_key-map-append k xs i)

  -- The first invoice of a window.
  pub start-Describes :
      (i : InvoiceMetadata) → Describes (i ∷ []) (advance no_boundary (boundary_of t i) (key_of i))
  start-Describes i = record {
    front = [];
    block = i ∷ [];
    value = boundary_of t i;
    split = refl;
    last = refl;
    at = (refl, tt);
    maximal = tt;
    busy = λ h. cc;
    known = (ground (arith, same_text_refl (key_of i)), tt);
    only = λ k h. h;
  }

  pub NotEndsAt-block :
      (w v : String) (front block : List InvoiceMetadata)
      → block ≢ []
      → All (At w) block
      → w ≢ v
      → NotEndsAt v (front ++ block)
  NotEndsAt-block w v [] [] busy at ne = absurd (busy refl)
  NotEndsAt-block w v [] (i ∷ []) busy (here, at) ne = λ e. ne (sym here ∙ e)
  NotEndsAt-block w v [] (i ∷ j ∷ is) busy (here, at) ne =
      NotEndsAt-block w v [] (j ∷ is) (λ h. cc) at ne
  NotEndsAt-block w v (x ∷ []) [] busy at ne = absurd (busy refl)
  NotEndsAt-block w v (x ∷ []) (i ∷ is) busy at ne = NotEndsAt-block w v [] (i ∷ is) busy at ne
  NotEndsAt-block w v (x ∷ y ∷ xs) block busy at ne = NotEndsAt-block w v (y ∷ xs) block busy at ne

  snoc-busy : (xs : List InvoiceMetadata) (i : InvoiceMetadata) → xs ++ i ∷ [] ≢ []
  snoc-busy [] i h = cc
  snoc-busy (x ∷ xs) i h = cc

  module _ (xs : List InvoiceMetadata) (b : Boundary) (i : InvoiceMetadata)
      (d : Describes xs b) where
    same-Describes :
        boundary_of t i ≡ d.value
        → Describes (xs ++ i ∷ []) (record { last = some d.value; keys = key_of i ∷ b.keys })
    same-Describes e = record {
      front = d.front;
      block = d.block ++ i ∷ [];
      value = d.value;
      split = rw (d.split) (append_assoc d.front d.block (i ∷ []));
      last = refl;
      at = All-append (At d.value) d.block (i ∷ []) d.at (e, tt);
      maximal = d.maximal;
      busy = snoc-busy d.block i;
      known =
          All-append _ d.block (i ∷ []) (has_key-cons (key_of i) b.keys d.block d.known)
            (ground (arith, same_text_refl (key_of i)), tt);
      only =
          λ k h. let (old, new) = has_key-map-append k d.block i h in ground (arith, d.only k old);
    }

    other-Describes :
        boundary_of t i ≢ d.value
        → Describes (xs ++ i ∷ []) (record { last = some (boundary_of t i); keys = key_of i ∷ [] })
    other-Describes ne = record {
      front = xs;
      block = i ∷ [];
      value = boundary_of t i;
      split = refl;
      last = refl;
      at = (refl, tt);
      maximal =
          rw d.split (
            NotEndsAt-block d.value (boundary_of t i) d.front d.block d.busy d.at
              (λ e. ne (sym e)));
      busy = λ h. cc;
      known = (ground (arith, same_text_refl (key_of i)), tt);
      only = λ k h. h;
    }

  pub advance-Describes :
      (xs : List InvoiceMetadata) (b : Boundary) (i : InvoiceMetadata)
      → Describes xs b
      → Describes (xs ++ i ∷ []) (advance b (boundary_of t i) (key_of i))
  advance-Describes xs b i d = elim (Bool-cases (str_eq d.value (boundary_of t i))) [
    | inl same ↦
        rw (d.last, same)
          (same-Describes xs b i d (sym ((eq_iff d.value (boundary_of t i)).0 same)))
    | inr other ↦
        rw (d.last, other)
          (other-Describes xs b i d (λ e. ground (arith, eq_iff d.value (boundary_of t i))))
  ]

  module _ (c : Carry) where
    -- What is carried over is skipped, and leaves the boundary alone.
    pub scan-carried :
        (b : Boundary) (xs : List InvoiceMetadata)
        → All (λ i. is_carried c t i ≡ true) xs
        → scan c t b xs ≡ (b, [])
    unfolding scan
    scan-carried b [] h = refl
    scan-carried b (i ∷ xs) (here, h) = rw here (scan-carried b xs h)

    pub scan-append :
        (b : Boundary) (xs ys : List InvoiceMetadata)
        → scan c t b (xs ++ ys) ≡ (
          (scan c t (scan c t b xs).0 ys).0,
          (scan c t b xs).1 ++ (scan c t (scan c t b xs).0 ys).1,
        )
    unfolding scan
    scan-append b [] ys = refl
    scan-append b (i ∷ xs) ys = elim (Bool-cases (is_carried c t i)) [
      | inl skip ↦ rw skip (scan-append b xs ys)
      | inr keep ↦ rw keep (
          ap (λ (r : Boundary × List InvoiceMetadata). (r.0, i ∷ r.1))
            (scan-append (advance b (boundary_of t i) (key_of i)) xs ys))
    ]

    -- What is not carried over is yielded, and the boundary then describes it.
    pub scan-fresh :
        (xs : List InvoiceMetadata) (b : Boundary) (ys : List InvoiceMetadata)
        → Describes xs b
        → All (λ i. is_carried c t i ≡ false) ys
        → ((scan c t b ys).1 ≡ ys) × Describes (xs ++ ys) (scan c t b ys).0
    unfolding scan
    scan-fresh xs b [] d h = (refl, rw (append-nil xs) d)
    scan-fresh xs b (i ∷ ys) d (here, h) =
        let (yields, after) =
          scan-fresh (xs ++ i ∷ []) (advance b (boundary_of t i) (key_of i)) ys
            (advance-Describes xs b i d) h in
        rw (here, yields) (refl, rw (append_assoc xs (i ∷ []) ys) at after)
