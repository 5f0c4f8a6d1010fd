-- ===== src/Offline/Deadline.antt =====
-- offline/deadline.ts: the next business day, over the day numbers of offline/holidays.ts. Day 0 is
-- the 1st of January 1970, a Thursday. The loop has fuel: the days that it looks at.
mod Tests
use ksef_client_ts.Base.{
  ℕ, zero, suc, ◌+◌, ◌%◌, ◌≤◌, ◌<◌, ◌≡◌, ◌≢◌, Bool, true, false, not, ◌&&◌, ◌||◌, ◌==◌, Option,
  none, some, List, [], ◌∷◌, any, ltb, if◌then◌else◌,
}
use ksef_client_ts.Offline.Holidays.{Calendar, is_polish_holiday, compute_easter_sunday}

-- getUTCDay(), 0 for a Sunday
abbrev pub utc_day : ℕ → ℕ
utc_day day = (day + 4) % 7

-- The condition under which the loop goes on.
unfoldable pub is_day_off : Calendar → ℕ → Bool
is_day_off cal day = utc_day day == 0 || utc_day day == 6 || is_polish_holiday cal day

unfoldable pub skip_days_off : Calendar → ℕ → ℕ → Option ℕ
skip_days_off cal zero day = none
skip_days_off cal (suc fuel) day =
    let rest = skip_days_off cal fuel (day + 1) in if is_day_off cal day then rest else some day

-- nextBusinessDay(from)
unfoldable pub next_business_day : Calendar → ℕ → ℕ → Option ℕ
next_business_day cal fuel from = skip_days_off cal fuel (from + 1)

-- The first day from a day on that is not off, and not after another one.
abbrev pub FirstFrom : (ℕ → Bool) → ℕ → ℕ → ℕ → Type 0
FirstFrom off from last day =
    (from ≤ day) × (day ≤ last) × (off day ≡ false) × ((k : ℕ) → from ≤ k → k < day → off k ≡ true)

-- Saturday or Sunday: the 3rd and the 4th of January 1970, and every seventh day from them.
abbrev pub weekend : ℕ → Bool
weekend day = day % 7 == 2 || day % 7 == 3

-- The holidays that have the same month and day in every year.
abbrev pub fixed_holidays : List (ℕ × ℕ)
fixed_holidays =
    (1, 1) ∷ (1, 6) ∷ (5, 1) ∷ (5, 3) ∷ (8, 15) ∷ (11, 1) ∷ (11, 11) ∷ (12, 25) ∷ (12, 26) ∷ []

-- Christmas Eve from 2025 on.
abbrev pub christmas_eve : Calendar → ℕ → ℕ → Bool
christmas_eve cal year day = not (ltb year 2025) && cal.day_of year 12 24 == day

-- Easter Sunday, Easter Monday, Pentecost and Corpus Christi.
abbrev pub around_easter : ℕ → ℕ → Bool
around_easter easter day =
    easter == day || (easter + 1 == day || (easter + 49 == day || (easter + 60 == day || false)))

abbrev pub holiday : Calendar → ℕ → Bool
holiday cal day =
    let year = cal.year_of day in
    let (month, day_of_month) = compute_easter_sunday year in
    any (λ (d : ℕ × ℕ). cal.day_of year d.0 d.1 == day) fixed_holidays
    || (christmas_eve cal year day || around_easter (cal.day_of year month day_of_month) day)

abbrev pub rest_day : Calendar → ℕ → Bool
rest_day cal day = weekend day || holiday cal day
