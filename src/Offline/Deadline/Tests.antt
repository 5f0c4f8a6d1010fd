-- ===== src/Offline/Deadline/Tests.antt =====
-- Examples of offline/deadline.ts: a Friday in January 2026, with a calendar that has no holiday then.
use ksef_client_ts.Offline.Holidays.{Calendar}

-- Every named day stands in the first days of 1970.
abbrev no_holidays : Calendar
no_holidays = record { day_of = λ year month day. day; year_of = λ day. 2026 }
