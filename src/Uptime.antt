-- ===== src/Uptime.antt =====
-- backend/internal/domain/uptime.go: the uptime of a component by its status history. A duration is
-- a number of nanoseconds; the window of days does not start before 1970. The operations of float64
-- are a parameter.
pub mod Days
use healthpage.Prelude.{
  ℕ, zero, suc, ◌+◌, ◌-◌, ◌*◌, ◌/◌, ◌%◌, ap, Bool, ◌||◌, none, some, List, [], ◌∷◌, map, ltb, leb,
  if◌then◌else◌, ℤ, pos, negsuc, nat_comparable, string_comparable, length,
}
use healthpage.Status.{
  ComponentStatus, status_equal, under_maintenance, partial_outage, major_outage,
}
use healthpage.Page.{Uuid, Time}
use healthpage.Store.{ComponentStatusHistory}

-- The operations of float64 that the code uses: of an int64, the quotient and the product, adding
-- 0.5, and the conversion to int64.
pub record Float64 : Type 1 where
  pub F : Type 0
  pub of_int : ℤ → F
  pub div : F → F → F
  pub mul : F → F → F
  pub add_half : F → F
  pub to_int : F → ℤ

pub record DailyUptime (F : Type 0) : Type 0 where
  pub date : Time
  pub percent : F

pub record UptimeReport (F : Type 0) : Type 0 where
  pub component_id : Uuid
  pub days : ℕ
  pub uptime_percent : F
  pub daily : List (DailyUptime F)

-- dayTotal, dayMaint and dayDown
pub record DayTimes : Type 0 where
  pub total : ℕ
  pub maint : ℕ
  pub down : ℕ

-- statusIsDown
unfoldable pub status_is_down : ComponentStatus → Bool
status_is_down s = status_equal s partial_outage || status_equal s major_outage

unfoldable pub max_time : Time → Time → Time
max_time a b = if ltb b a then a else b

unfoldable pub min_time : Time → Time → Time
min_time a b = if ltb a b then a else b

unfoldable pub overlap : Time → Time → Time → Time → ℕ
unfolding max_time min_time
overlap a1 a2 b1 b2 =
    let lo = max_time a1 b1 in let hi = min_time a2 b2 in if ltb lo hi then hi - lo else 0

-- `pe`: a period that has no end lasts until now
abbrev pub end_of : Time → ComponentStatusHistory → Time
end_of now p = elim p.ended_at [ none ↦ now | some at ↦ at ]

-- one round of the loop over the periods
unfoldable pub account_period : Time → Time → Time → DayTimes → ComponentStatusHistory → DayTimes
unfolding overlap status_is_down
account_period lo hi now t p =
    let ov = overlap lo hi p.started_at (end_of now p) in
    if leb ov 0
    then t
    else if status_equal p.status under_maintenance
    then record t { maint = t.maint + ov }
    else if status_is_down p.status
    then record t { down = t.down + ov }
    else t

unfoldable pub account : Time → Time → Time → DayTimes → List ComponentStatusHistory → DayTimes
unfolding account_period
account lo hi now t [] = t
account lo hi now t (p ∷ rest) = account lo hi now (account_period lo hi now t p) rest

abbrev pub day_length : ℕ
day_length = 86400000000000

-- the times of the day that starts at `start`
unfoldable pub day_times : List ComponentStatusHistory → Time → Time → Time → DayTimes
unfolding account max_time min_time
day_times periods created now start =
    let lo = max_time start created in
    let hi = min_time (start + day_length) now in
    if ltb lo hi
    then account lo hi now (record { total = hi - lo; maint = 0; down = 0 }) periods
    else record { total = 0; maint = 0; down = 0 }

-- the loop over the days
unfoldable pub days_from :
    List ComponentStatusHistory → Time → Time → ℕ → Time → List (Time × DayTimes)
unfolding day_times
days_from periods created now zero start = []
days_from periods created now (suc n) start =
    (start, day_times periods created now start)
    ∷ days_from periods created now n (start + day_length)

-- totalEffective and totalDown; the former is the difference of the first two sums
unfoldable pub summed : List (Time × DayTimes) → DayTimes
summed [] = record { total = 0; maint = 0; down = 0 }
summed ((_, t) ∷ rest) =
    let s = summed rest in
    record { total = t.total + s.total; maint = t.maint + s.maint; down = t.down + s.down }

-- a difference of durations, which may be negative
abbrev pub minus : ℕ → ℕ → ℤ
minus a b = if ltb a b then negsuc (b - a - 1) else pos (a - b)

abbrev pub hundred : (fl : Float64) → fl.F
hundred fl = fl.of_int (pos 100)

-- round2
unfoldable pub round2 : (fl : Float64) → fl.F → fl.F
round2 fl v = fl.div (fl.of_int (fl.to_int (fl.add_half (fl.mul v (hundred fl))))) (hundred fl)

-- `float64(effective-down) / float64(effective) * 100`, or 100 where there is no effective time,
-- which is total - maint
unfoldable pub share : (fl : Float64) → DayTimes → fl.F
share fl t =
    fl.mul
      (fl.div (fl.of_int (minus (t.total - t.maint) t.down)) (fl.of_int (pos (t.total - t.maint))))
      (hundred fl)

-- the percentage of a day, which is rounded in either case
unfoldable pub day_percent : (fl : Float64) → DayTimes → fl.F
unfolding round2 share
day_percent fl t = round2 fl (if ltb t.maint t.total then share fl t else hundred fl)

-- the percentage of the window
unfoldable pub window_percent : (fl : Float64) → DayTimes → fl.F
unfolding round2 share
window_percent fl t = if ltb t.maint t.total then round2 fl (share fl t) else hundred fl

abbrev pub daily_uptime : (fl : Float64) → Time × DayTimes → DailyUptime fl.F
daily_uptime fl (start, t) = record { date = start; percent = day_percent fl t }

-- windowStart
abbrev pub window_start : Time → ℕ → Time
window_start now days = (now - now % day_length) - (days - 1) * day_length

abbrev pub at_least_one : ℕ → ℕ
at_least_one asked = if ltb asked 1 then 1 else asked

-- ComputeUptime
unfoldable pub compute_uptime :
    (fl : Float64) → Uuid → List ComponentStatusHistory → Time → Time → ℕ → UptimeReport fl.F
unfolding days_from summed day_percent window_percent
compute_uptime fl component_id periods created now asked =
    let days = at_least_one asked in
    let times = days_from periods created now days (window_start now days) in
    record {
      component_id = component_id;
      days = days;
      uptime_percent = window_percent fl (summed times);
      daily = map (daily_uptime fl) times;
    }
