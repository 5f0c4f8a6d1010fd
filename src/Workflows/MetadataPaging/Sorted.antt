-- ===== src/Workflows/MetadataPaging/Sorted.antt =====
-- workflows/metadata-query-paging.ts: windows of invoices that are sorted by the boundary field.
use ksef_client_ts.Base.{ℕ, zero, suc, ◌≡◌, ◌≢◌, refl, sym, List, [], ◌∷◌, ◌++◌, String, All, drop}
use ksef_client_ts.Workflows.MetadataPaging.{DateType, InvoiceMetadata, boundary_of}
use ksef_client_ts.Workflows.MetadataPaging.Scanning.{At}
use ksef_client_ts.Workflows.MetadataPaging.Delivery.{All-left, All-after}

-- The order of the boundary field's values.
module _ (le : String → String → Type 0) (t : DateType) where
  abbrev pub AllFrom : String → List InvoiceMetadata → Type 0
  AllFrom v = All (λ i. le v (boundary_of t i))

  abbrev pub Sorted : List InvoiceMetadata → Type 0
  Sorted [] = Unit
  Sorted (i ∷ is) = AllFrom (boundary_of t i) is × Sorted is

  pub Sorted-drop : (n : ℕ) (is : List InvoiceMetadata) → Sorted is → Sorted (drop n is)
  Sorted-drop zero is h = h
  Sorted-drop (suc n) [] h = tt
  Sorted-drop (suc n) (i ∷ is) (_, h) = Sorted-drop n is h

  pub Sorted-left : (xs ys : List InvoiceMetadata) → Sorted (xs ++ ys) → Sorted xs
  Sorted-left [] ys h = tt
  Sorted-left (x ∷ xs) ys (above, h) = (All-left _ xs ys above, Sorted-left xs ys h)

  -- What comes after an invoice at the value is from the value on.
  pub Sorted-after :
      (v : String) (xs block ys : List InvoiceMetadata)
      → block ≢ []
      → All (At t v) block
      → Sorted (xs ++ (block ++ ys))
      → AllFrom v ys
  Sorted-after v [] [] ys busy at h = absurd (busy refl)
  Sorted-after v [] (i ∷ block) ys busy (here, at) (above, h) =
      rw (sym here) (All-after _ block ys above)
  Sorted-after v (x ∷ xs) block ys busy at (_, h) = Sorted-after v xs block ys busy at h

  module _ (antisymm : (v w : String) → le v w → le w v → v ≡ w) where
    -- Sorted invoices from a value on that end with one at the value are all at the value.
    pub Sorted-At :
        (v : String) (front block : List InvoiceMetadata)
        → block ≢ []
        → All (At t v) block
        → AllFrom v (front ++ block)
        → Sorted (front ++ block)
        → All (At t v) (front ++ block)
    Sorted-At v [] block busy at above h = at
    Sorted-At v (i ∷ front) [] busy at above h = absurd (busy refl)
    Sorted-At v (i ∷ front) (j ∷ block) busy (here, at) (least, above) (first, h) = (
      antisymm (boundary_of t i) v (rw (sym here) (All-after _ front (j ∷ block) first).0) least,
      Sorted-At v front (j ∷ block) busy (here, at) above h,
    )
