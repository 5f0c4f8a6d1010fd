-- ===== src/Builders/BatchFile/Slices.antt =====
-- builders/batch-file.ts: an archive cut into slices of one size, which both builders come to.
use native.Mathlib.Nat.{div-eq-sub-div, div-eq_of_lt}
use ksef_client_ts.Base.{
  ℕ, zero, suc, ◌+◌, ◌-◌, ◌/◌, ◌≤◌, ◌<◌, ◌≡◌, refl, sym, ap, List, [], ◌∷◌, arith, ltb, length,
  take, drop, flatten, All, length-take, length-drop, take-append-drop, take_all, inl, inr,
  Bool-cases, ltb→lt,
}
use ksef_client_ts.Builders.BatchFile.{Bytes, ceil_div}

-- So many slices of `size` bytes, from the first one on.
unfoldable pub slices : ℕ → ℕ → Bytes → List Bytes
slices zero size bytes = []
slices (suc n) size bytes = take size bytes ∷ slices n size (drop size bytes)

pub ceil_div_zero : (size : ℕ) → 0 < size → ceil_div 0 size ≡ 0
ceil_div_zero size h = div-eq_of_lt (omega arith)

-- A part fewer once a part is taken.
pub ceil_div-sub :
    (total size : ℕ)
    → 0 < size
    → 0 < total
    → ceil_div total size ≡ suc (ceil_div (total - size) size)
ceil_div-sub total size h k = elim (Bool-cases (ltb size total)) [
  | inl more ↦
      let lt = ltb→lt size total more in
      let e : total + size - 1 - size ≡ total - size + size - 1 = omega arith in
      let d : (total + size - 1) / size ≡ (total + size - 1 - size) / size + 1 =
        div-eq-sub-div h (omega arith) in
      let f = ap (λ (n : ℕ). n / size) e in omega arith
  | inr fits ↦
      let le : total ≤ size = ground arith in
      let d : (total + size - 1) / size ≡ (total + size - 1 - size) / size + 1 =
        div-eq-sub-div h (omega arith) in
      let z : (total + size - 1 - size) / size ≡ 0 = div-eq_of_lt (omega arith) in
      let w : (total - size + size - 1) / size ≡ 0 = div-eq_of_lt (omega arith) in omega arith
]

-- The parts that are left, as the size of the data falls.
pub ceil_div_step :
    (n total size : ℕ)
    → 0 < size
    → suc n ≡ ceil_div total size
    → (0 < total) × (n ≡ ceil_div (total - size) size)
ceil_div_step n zero size h e = let z = ceil_div_zero size h in absurd (omega arith)
ceil_div_step n (suc total) size h e =
    let z = ceil_div-sub (suc total) size h (omega arith) in (omega arith, omega arith)

pub ceil_div_end : (total size : ℕ) → 0 < size → 0 ≡ ceil_div total size → total ≡ 0
ceil_div_end zero size h e = refl
ceil_div_end (suc total) size h e =
    let z = ceil_div-sub (suc total) size h (omega arith) in absurd (omega arith)

no_length : (bytes : Bytes) → length bytes ≡ 0 → bytes ≡ []
no_length [] e = refl
no_length (b ∷ bytes) e = absurd (omega arith)

-- At least one byte and at most `size`.
abbrev pub Fits : ℕ → Bytes → Type 0
Fits size part = (0 < length part) × (length part ≤ size)

module _ (size : ℕ) (room : 0 < size) where
  pub flatten-slices :
      (n : ℕ) (bytes : Bytes)
      → n ≡ ceil_div (length bytes) size
      → flatten (slices n size bytes) ≡ bytes
  unfolding slices
  flatten-slices zero bytes e = sym (no_length bytes (ceil_div_end (length bytes) size room e))
  flatten-slices (suc n) bytes e =
      let (some_left, next) = ceil_div_step n (length bytes) size room e in
      let d = length-drop size bytes in
      rw (flatten-slices n (drop size bytes) (rw d next)) (take-append-drop size bytes)

  take-Fits : (bytes : Bytes) → 0 < length bytes → Fits size (take size bytes)
  take-Fits bytes h = elim (Bool-cases (ltb (length bytes) size)) [
    | inl less ↦
        let lt = ltb→lt (length bytes) size less in
        let e = take_all size bytes (omega arith) in rw e (h, omega arith)
    | inr more ↦
        let le : size ≤ length bytes = ground arith in
        let l = length-take size bytes le in (omega arith, omega arith)
  ]

  pub slices-Fits :
      (n : ℕ) (bytes : Bytes)
      → n ≡ ceil_div (length bytes) size
      → All (Fits size) (slices n size bytes)
  unfolding slices
  slices-Fits zero bytes e = tt
  slices-Fits (suc n) bytes e =
      let (some_left, next) = ceil_div_step n (length bytes) size room e in
      let d = length-drop size bytes in
      (take-Fits bytes some_left, slices-Fits n (drop size bytes) (rw d next))

  pub length-slices : (n : ℕ) (bytes : Bytes) → length (slices n size bytes) ≡ n
  unfolding slices
  length-slices zero bytes = refl
  length-slices (suc n) bytes = omega (arith, length-slices n (drop size bytes))
