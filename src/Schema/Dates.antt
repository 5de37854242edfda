-- ===== src/Schema/Dates.antt =====
-- Calendar dates, of which the source compares the year, the month and the day.
use meetgo_dating_server.Prelude.{ℕ, ◌+◌, ◌&&◌, ◌||◌, Bool, ltb, ◌==◌, if◌then◌else◌}

pub record Date : Type 0 where
  pub year : ℕ
  pub month : ℕ
  pub day : ℕ

-- The birthday of the year of `now` is still to come.
abbrev pub birthday_ahead : Date → Date → Bool
birthday_ahead birth now =
    ltb now.month birth.month || (now.month == birth.month && ltb now.day birth.day)

-- `ageYears(birth, now) < min`: the source computes a signed difference of the years, less one
-- before the birthday, so both sides are raised by the year of birth and by one.
unfoldable pub younger_than : ℕ → Date → Date → Bool
younger_than min birth now =
    ltb (now.year + (if birthday_ahead birth now then 0 else 1)) (birth.year + min + 1)
