-- ===== src/Offline/Holidays.antt =====
-- offline/holidays.ts. A date is the number of its day, and a date key is that number: the
-- host's `Date` says which day a year, a month and a day name, and the year of a day. No
-- subtraction of the algorithm for Easter goes below 0.
pub mod Easter
mod Tests
use ksef_client_ts.Base.{
  ℕ, ◌+◌, ◌-◌, ◌*◌, ◌/◌, ◌%◌, Bool, List, [], ◌∷◌, ◌++◌, any, ltb, ◌==◌, if◌then◌else◌,
}

pub record Calendar : Type 0 where
  pub day_of : ℕ → ℕ → ℕ → ℕ
  pub year_of : ℕ → ℕ

-- The month and the day of computeEasterSunday(year).
unfoldable pub compute_easter_sunday : ℕ → ℕ × ℕ
compute_easter_sunday year =
    let a = year % 19 in
    let b = year / 100 in
    let c = year % 100 in
    let d = b / 4 in
    let e = b % 4 in
    let f = (b + 8) / 25 in
    let g = (b - f + 1) / 3 in
    let h = (19 * a + b - d - g + 15) % 30 in
    let i = c / 4 in
    let k = c % 4 in
    let l = (32 + 2 * e + 2 * i - h - k) % 7 in
    let m = (a + 11 * h + 22 * l) / 451 in
    ((h + l - 7 * m + 114) / 31, (h + l - 7 * m + 114) % 31 + 1)

-- getPolishHolidays(year)
unfoldable pub get_polish_holidays : Calendar → ℕ → List ℕ
get_polish_holidays cal year =
    let (month, day) = compute_easter_sunday year in
    let easter = cal.day_of year month day in
    (cal.day_of year 1 1
      ∷ cal.day_of year 1 6
      ∷ cal.day_of year 5 1
      ∷ cal.day_of year 5 3
      ∷ cal.day_of year 8 15
      ∷ cal.day_of year 11 1
      ∷ cal.day_of year 11 11
      ∷ cal.day_of year 12 25
      ∷ cal.day_of year 12 26
      ∷ [])
    ++ (if ltb year 2025 then [] else cal.day_of year 12 24 ∷ [])
    ++ (easter ∷ (easter + 1) ∷ (easter + 49) ∷ (easter + 60) ∷ [])

-- isPolishHoliday(date)
unfoldable pub is_polish_holiday : Calendar → ℕ → Bool
is_polish_holiday cal day = any (λ d. d == day) (get_polish_holidays cal (cal.year_of day))
