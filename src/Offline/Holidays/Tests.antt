-- ===== src/Offline/Holidays/Tests.antt =====
-- Examples of offline/holidays.ts.
use ksef_client_ts.Base.{◌≡◌, refl}
use ksef_client_ts.Offline.Holidays.{compute_easter_sunday}
use ksef_client_ts.Offline.Holidays.Easter.{InRange, compute_easter_sunday_bounds}

easter_2025 : compute_easter_sunday 2025 ≡ (4, 20)
unfolding compute_easter_sunday
easter_2025 = refl

compute_easter_sunday_bounds_example :
    InRange (compute_easter_sunday 2008).0 (compute_easter_sunday 2008).1
compute_easter_sunday_bounds_example = compute_easter_sunday_bounds 2008
