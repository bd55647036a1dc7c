-- ===== src/Usrcommands/Stats.antt =====
-- The numbers that STATS of src/usrcommands.c shows.
use acidblood.Common.{ℕ, ◌+◌, ◌-◌, ◌*◌, ◌/◌, ◌%◌, ◌≤◌, ◌<◌, ◌≡◌, arith, ltb, if◌then◌else◌}
use acidblood.Usrcommands.{msg_stats}

abbrev left : ℕ → ℕ → ℕ
left x d = if ltb 0 (x / d) then x - x / d * d else x

left-days : (x : ℕ) → left x 86400 ≡ x % 86400
left-days x = ground arith

left-hours : (x : ℕ) → left x 3600 ≡ x % 3600
left-hours x = ground arith

-- The days, hours and minutes that STATS shows are the time since the start to less than a minute,
-- with less than 24 hours and less than 60 minutes; where the clock has not been set back.
msg_stats-exact :
    (now starttime : ℕ)
    → starttime ≤ now
    → let r = msg_stats now starttime in
      (starttime + (r.day * 86400 + r.hour * 3600 + r.min * 60) ≤ now)
      × (now < starttime + (r.day * 86400 + r.hour * 3600 + r.min * 60) + 60)
      × (r.hour < 24)
      × (r.min < 60)
unfolding msg_stats
msg_stats-exact now starttime h =
    let up = now - starttime in
    let e = left-days up in
    let f = left-hours (up % 86400) in
    rw (e, f) (omega (arith, h), omega (arith, h), omega (arith, h), omega (arith, h))
