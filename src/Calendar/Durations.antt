-- ===== src/Calendar/Durations.antt =====
-- `t.Add(-time.Duration(d) * time.Second)` of Go: the duration is an int64 of nanoseconds, and the
-- product wraps around.
use cost_ai_grid_poc.Prelude.{
  ℕ, suc, ◌+◌, ◌-◌, ◌*◌, ◌/◌, ◌%◌, ◌^◌, ◌≤◌, ◌≡◌, ltb, leb, if◌then◌else◌, arith,
}
use cost_ai_grid_poc.Prelude.Int.{ℤ, pos, negsuc}
use cost_ai_grid_poc.Calendar.Defs.{second}

-- `time.Duration(k) * time.Second` modulo 2 ^ 64. A float that is no int64 is converted to the least
-- one, as on amd64, whose product is a multiple of 2 ^ 64.
abbrev pub nanoseconds : ℕ → ℕ
nanoseconds k = if ltb k (2 ^ 63) then k * 1_000_000_000 % 2 ^ 64 else 0

-- Columns have microseconds.
abbrev pub earlier : ℕ → ℕ → ℕ
earlier n t = (t * 1000 - n) / 1000

abbrev pub later : ℕ → ℕ → ℕ
later n t = (t * 1000 + n) / 1000

-- `d` counts millionths of a second, whose fraction is cut off. Event times are more than the
-- longest duration after the year 1, where ℕ ends.
unfoldable pub add_negated : ℤ → ℕ → ℕ
add_negated (pos d) t =
    let n = nanoseconds (d / second) in if leb n (2 ^ 63) then earlier n t else later (2 ^ 64 - n) t
add_negated (negsuc d) t =
    let n = nanoseconds (suc d / second) in
    if ltb n (2 ^ 63) then later n t else earlier (2 ^ 64 - n) t

-- the most seconds that an int64 of nanoseconds holds
abbrev pub max_seconds : ℕ
max_seconds = 9_223_372_036

pub add_negated-pos :
    (d t : ℕ) → d / second ≤ max_seconds → add_negated (pos d) t ≡ t - d / second * second
unfolding add_negated
add_negated-pos d t h = ground arith
