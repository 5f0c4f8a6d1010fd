-- ===== src/Offline/Holidays/Easter.antt =====
-- offline/holidays.ts: the range of the date of Easter.
use ksef_client_ts.Base.{
  ℕ, ◌+◌, ◌-◌, ◌*◌, ◌/◌, ◌%◌, ◌≤◌, ◌<◌, ◌≡◌, ◌⊎◌, inl, inr, refl, Bool-cases, ltb, ltb→lt, arith,
}
use ksef_client_ts.Offline.Holidays.{compute_easter_sunday}

below_30 : (n : ℕ) → n % 30 < 30
below_30 n = omega arith

below_7 : (n : ℕ) → n % 7 < 7
below_7 n = omega arith

-- What the algorithm does with its last three remainders.
easter_shift :
    (a h l m : ℕ)
    → a < 19
    → h < 30
    → l < 7
    → m ≡ (a + 11 * h + 22 * l) / 451
    → (114 ≤ h + l - 7 * m + 114) × (h + l - 7 * m + 114 ≤ 148)
easter_shift a h l m ha hh hl hm = (omega arith, omega arith)

shift_month :
    (n : ℕ)
    → 114 ≤ n
    → n ≤ 148
    → ((n / 31 ≡ 3) × (22 ≤ n % 31 + 1) × (n % 31 + 1 ≤ 31)) ⊎ ((n / 31 ≡ 4) × (n % 31 + 1 ≤ 25))
shift_month n low high = elim (Bool-cases (ltb n 124)) [
  | inl march ↦ let h = ltb→lt n 124 march in inl (omega arith, omega arith, omega arith)
  | inr april ↦ let h : 124 ≤ n = ground arith in inr (omega arith, omega arith)
]

abbrev pub InRange : ℕ → ℕ → Type 0
InRange month day = ((month ≡ 3) × (22 ≤ day) × (day ≤ 31)) ⊎ ((month ≡ 4) × (day ≤ 25))

remainders-InRange :
    (a h l : ℕ)
    → a < 19
    → h < 30
    → l < 7
    → let n = h + l - 7 * ((a + 11 * h + 22 * l) / 451) + 114 in InRange (n / 31) (n % 31 + 1)
remainders-InRange a h l ha hh hl =
    let (low, high) = easter_shift a h l ((a + 11 * h + 22 * l) / 451) ha hh hl refl in
    shift_month _ low high

-- The computed Easter Sunday of any year is a day from the 22nd of March to the 25th of April.
pub compute_easter_sunday_bounds :
    (year : ℕ) → InRange (compute_easter_sunday year).0 (compute_easter_sunday year).1
unfolding compute_easter_sunday
compute_easter_sunday_bounds year =
    remainders-InRange (year % 19) _ _ (omega arith) (below_30 _) (below_7 _)
