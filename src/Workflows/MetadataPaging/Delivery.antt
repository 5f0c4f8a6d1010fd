-- ===== src/Workflows/MetadataPaging/Delivery.antt =====
-- workflows/metadata-query-paging.ts: which invoices of the server the iterator yields.
use ksef_client_ts.Base.{
  ℕ, zero, suc, ◌-◌, ◌≤◌, ◌<◌, ◌≡◌, ◌≢◌, refl, true, false, List, [], ◌∷◌, ◌++◌, String, arith, map,
  All, length, take, take-append,
}
use ksef_client_ts.Base.Text.{same_text}
use ksef_client_ts.Workflows.MetadataPaging.{
  DateType, InvoiceMetadata, boundary_of, key_of, has_key, Carry, is_carried, no_boundary, advance,
  scan,
}
use ksef_client_ts.Workflows.MetadataPaging.Scanning.{
  NotEndsAt, Describes, start-Describes, scan-carried, scan-append, scan-fresh,
}

-- No two invoices have the same number, upper and lower case apart.
abbrev pub Distinct : List InvoiceMetadata → Type 0
Distinct [] = Unit
Distinct (i ∷ is) = All (λ j. same_text (key_of j) (key_of i) ≡ false) is × Distinct is

abbrev pub Unlike : List InvoiceMetadata → InvoiceMetadata → Type 0
Unlike block i = has_key (key_of i) (map key_of block) ≡ false

All-Unlike-cons :
    (j : InvoiceMetadata) (block is : List InvoiceMetadata)
    → All (λ i. same_text (key_of i) (key_of j) ≡ false) is
    → All (Unlike block) is
    → All (Unlike (j ∷ block)) is
All-Unlike-cons j block [] h k = tt
All-Unlike-cons j block (i ∷ is) (here, h) (also, k) =
    (ground arith, All-Unlike-cons j block is h k)

pub All-left :
    (P : InvoiceMetadata → Type 0) (xs ys : List InvoiceMetadata) → All P (xs ++ ys) → All P xs
All-left P [] ys h = tt
All-left P (x ∷ xs) ys (here, h) = (here, All-left P xs ys h)

pub All-after :
    (P : InvoiceMetadata → Type 0) (xs ys : List InvoiceMetadata) → All P (xs ++ ys) → All P ys
All-after P [] ys h = h
All-after P (x ∷ xs) ys (_, h) = All-after P xs ys h

All-nothing : (is : List InvoiceMetadata) → All (Unlike []) is
All-nothing [] = tt
All-nothing (i ∷ is) = (refl, All-nothing is)

pub Distinct-block :
    (front block is : List InvoiceMetadata)
    → Distinct (front ++ (block ++ is))
    → All (Unlike block) is
Distinct-block [] [] is h = All-nothing is
Distinct-block [] (j ∷ block) is (apart, h) =
    All-Unlike-cons j block is (All-after _ block is apart) (Distinct-block [] block is h)
Distinct-block (x ∷ front) block is (_, h) = Distinct-block front block is h

pub take_busy : (k : ℕ) (is : List InvoiceMetadata) → 0 < k → 0 < length is → take k is ≢ []
take_busy zero is h g = omega arith
take_busy (suc k) [] h g = omega arith
take_busy (suc k) (i ∷ is) h g = λ e. cc

pub NotEndsAt-join :
    (t : DateType) (v : String) (xs ys : List InvoiceMetadata)
    → NotEndsAt t v xs
    → NotEndsAt t v ys
    → NotEndsAt t v (xs ++ ys)
NotEndsAt-join t v [] ys h k = k
NotEndsAt-join t v (x ∷ []) [] h k = h
NotEndsAt-join t v (x ∷ []) (y ∷ ys) h k = k
NotEndsAt-join t v (x ∷ y ∷ xs) ys h k = NotEndsAt-join t v (y ∷ xs) ys h k

module _ (c : Carry) (t : DateType) where
  abbrev pub Fresh : List InvoiceMetadata → Type 0
  Fresh = All (λ i. is_carried c t i ≡ false)

  abbrev pub Carried : List InvoiceMetadata → Type 0
  Carried = All (λ i. is_carried c t i ≡ true)

  -- A window of fresh invoices, read from no boundary.
  pub scan-window :
      (is : List InvoiceMetadata)
      → Fresh is
      → is ≢ []
      → ((scan c t no_boundary is).1 ≡ is) × Describes t is (scan c t no_boundary is).0
  unfolding scan
  scan-window [] h busy = absurd (busy refl)
  scan-window (i ∷ is) (here, h) busy =
      let (yields, after) =
        scan-fresh t c (i ∷ []) (advance no_boundary (boundary_of t i) (key_of i)) is
          (start-Describes t i) h in
      rw (here, yields) (refl, after)

  pub scan-yields : (is : List InvoiceMetadata) → Fresh is → (scan c t no_boundary is).1 ≡ is
  unfolding scan
  scan-yields [] h = refl
  scan-yields (i ∷ is) h = (scan-window (i ∷ is) h (λ e. cc)).0

  -- What a window of carried and then fresh invoices gives, cut off at the cap.
  pub scan-capped :
      (cap : ℕ) (block is : List InvoiceMetadata)
      → Carried block
      → length block ≤ cap
      → scan c t no_boundary (take cap (block ++ is))
        ≡ scan c t no_boundary (take (cap - length block) is)
  scan-capped cap block is carried short =
      rw
        (
          take-append cap block is short,
          scan-append t c no_boundary block (take (cap - length block) is),
          scan-carried t c no_boundary block carried,
        )
        refl
