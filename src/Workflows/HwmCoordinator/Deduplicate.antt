-- ===== src/Workflows/HwmCoordinator/Deduplicate.antt =====
-- workflows/hwm-coordinator.ts: the entries without those whose number was there before.
use ksef_client_ts.Base.{ℕ, Bool, true, false, ◌&&◌, not, Option, none, some, List, [], ◌∷◌}
use ksef_client_ts.Base.Text.{same_text}
use ksef_client_ts.Workflows.HwmCoordinator.{Entry, entry_key, seen_key}

abbrev pub distinct : List (List ℕ) → Bool
distinct [] = true
distinct (key ∷ rest) = not (seen_key key rest) && distinct rest

module _ {ℓ} {A : Type ℓ} where
  -- The first entry with a number, letters of either case being the same.
  abbrev pub find_key : List ℕ → List (Entry A) → Option (Entry A)
  find_key key [] = none
  find_key key (entry ∷ entries) = elim (same_text (entry_key entry) key) [
    | true ↦ some entry
    | false ↦ find_key key entries
  ]

  abbrev pub keys : List (Entry A) → List (List ℕ)
  keys [] = []
  keys (entry ∷ entries) = entry_key entry ∷ keys entries
