-- ===== src/Uptime/Days.antt =====
-- The uptime of a component by its history (backend/internal/domain/uptime.go) is a percentage.
use healthpage.Prelude.{
  ℕ, zero, suc, ◌+◌, ◌-◌, ◌*◌, ◌≤◌, ◌<◌, ◌≡◌, refl, sym, ◌∙◌, subst, inl, inr, List, [], ◌∷◌, map,
  arith, ltb, if◌then◌else◌, ltb→lt, Bool-cases, ℤ, pos, ◌≤ℤ◌, nat_comparable, string_comparable,
  All,
}
use healthpage.Page.{Uuid, Time}
use healthpage.Store.{ComponentStatusHistory}
use healthpage.Uptime.{
  Float64, hundred, minus, round2, share, day_percent, window_percent, window_start, at_least_one,
  DayTimes, DailyUptime, overlap, max_time, min_time, end_of, account_period, account, day_length,
  day_times, days_from, summed, daily_uptime, compute_uptime,
}

-- The periods from a time on follow each other.
abbrev pub Chronological : Time → Time → List ComponentStatusHistory → Type 0
Chronological now s [] = Unit
Chronological now s (p ∷ rest) =
    (s ≤ p.started_at) × (p.started_at ≤ end_of now p) × Chronological now (end_of now p) rest

-- what is left of a day after a time
abbrev left : Time → Time → Time → ℕ
left lo hi s = hi - (if ltb s lo then lo else s)

abbrev spent : DayTimes → ℕ
spent t = t.maint + t.down

overlap-left :
    (lo hi s b e : Time) → s ≤ b → b ≤ e → overlap lo hi b e + left lo hi e ≤ left lo hi s
unfolding overlap max_time min_time
overlap-left lo hi s b e h k = ground arith

account_period-spent :
    (lo hi now : Time) (t : DayTimes) (p : ComponentStatusHistory)
    → ((account_period lo hi now t p).total ≡ t.total)
      × (spent (account_period lo hi now t p) ≤ spent t + overlap lo hi p.started_at (end_of now p))
unfolding account_period
account_period-spent lo hi now t p = (ground arith, ground arith)

account-spent :
    (lo hi now s : Time) (t : DayTimes) (l : List ComponentStatusHistory)
    → Chronological now s l
    → ((account lo hi now t l).total ≡ t.total)
      × (spent (account lo hi now t l) ≤ spent t + left lo hi s)
unfolding account
account-spent lo hi now s t [] h = (refl, omega arith)
account-spent lo hi now s t (p ∷ rest) (a, b, later) =
    let (same, bound) = account_period-spent lo hi now t p in
    let (same', bound') =
      account-spent lo hi now (end_of now p) (account_period lo hi now t p) rest later in
    let step = overlap-left lo hi s p.started_at (end_of now p) a b in
    (same' ∙ same, omega (arith, bound, bound', step))

-- A day's works and downtime are within the day.
abbrev Within : DayTimes → Type 0
Within t = spent t ≤ t.total

day_times-Within :
    (l : List ComponentStatusHistory) (created now start : Time)
    → Chronological now 0 l
    → Within (day_times l created now start)
unfolding day_times
day_times-Within l created now start h =
    let lo = max_time start created in
    let hi = min_time (start + day_length) now in
    let (same, bound) =
      account-spent lo hi now 0 (record { total = hi - lo; maint = 0; down = 0 }) l h in
    ground (arith, same, bound)

-- a day is not longer than a day
day_times-short :
    (l : List ComponentStatusHistory) (created now start : Time)
    → Chronological now 0 l
    → (day_times l created now start).total ≤ day_length
unfolding day_times min_time max_time
day_times-short l created now start h =
    let lo = max_time start created in
    let hi = min_time (start + day_length) now in
    let (same, _) =
      account-spent lo hi now 0 (record { total = hi - lo; maint = 0; down = 0 }) l h in
    ground (arith, same)

days-Within :
    (l : List ComponentStatusHistory) (created now : Time) (n : ℕ) (start : Time)
    → Chronological now 0 l
    → Within (summed (days_from l created now n start))
      × ((summed (days_from l created now n start)).total ≤ n * day_length)
unfolding days_from summed
days-Within l created now zero start h = (omega arith, omega arith)
days-Within l created now (suc n) start h =
    let day = day_times-Within l created now start h in
    let short = day_times-short l created now start h in
    let (sum, bound) = days-Within l created now n (start + day_length) h in
    (omega (arith, day, sum), omega (arith, short, bound))

-- What IEEE 754 says of the operations: conversion, the product with 100, the quotient by 100,
-- adding 0.5 and truncation keep the order, the quotient of a smaller by a larger integer is
-- between 0 and 1, and small products and quotients by 100 are exact.
pub record IsFloat64 (fl : Float64) : Type 1 where
  pub le : fl.F → fl.F → Type 0
  pub of_int_mono : (a b : ℤ) → a ≤ℤ b → le (fl.of_int a) (fl.of_int b)
  pub mul_mono : (x y : fl.F) → le x y → le (fl.mul x (hundred fl)) (fl.mul y (hundred fl))
  pub div_mono : (x y : fl.F) → le x y → le (fl.div x (hundred fl)) (fl.div y (hundred fl))
  pub add_half_mono : (x y : fl.F) → le x y → le (fl.add_half x) (fl.add_half y)
  pub to_int_mono : (x y : fl.F) → le x y → fl.to_int x ≤ℤ fl.to_int y
  pub quotient :
      (a n : ℕ)
      → 0 < n
      → a ≤ n
      → let q = fl.div (fl.of_int (pos a)) (fl.of_int (pos n)) in
        le (fl.of_int (pos 0)) q × le q (fl.of_int (pos 1))
  pub mul_exact :
      (m : ℕ) → m ≤ 100 → fl.mul (fl.of_int (pos m)) (hundred fl) ≡ fl.of_int (pos (m * 100))
  pub div_exact :
      (m : ℕ) → m ≤ 100 → fl.div (fl.of_int (pos (m * 100))) (hundred fl) ≡ fl.of_int (pos m)
  pub truncates : (m : ℕ) → m ≤ 10000 → fl.to_int (fl.add_half (fl.of_int (pos m))) ≡ pos m

module _ (fl : Float64) (laws : IsFloat64 fl) where
  abbrev Between : ℕ → ℕ → fl.F → Type 0
  Between a b x = laws.le (fl.of_int (pos a)) x × laws.le x (fl.of_int (pos b))

  -- a percentage, between 0 and 100
  abbrev pub IsPercent : fl.F → Type 0
  IsPercent x = laws.le (fl.of_int (pos 0)) x × laws.le x (fl.of_int (pos 100))

  times_hundred :
      (b : ℕ) (x : fl.F) → b ≤ 100 → Between 0 b x → Between 0 (b * 100) (fl.mul x (hundred fl))
  times_hundred b x small (low, high) = (
    subst (λ y. laws.le y (fl.mul x (hundred fl))) (laws.mul_exact 0 (omega arith))
        (laws.mul_mono (fl.of_int (pos 0)) x low),
    subst (laws.le (fl.mul x (hundred fl))) (laws.mul_exact b small)
        (laws.mul_mono x (fl.of_int (pos b)) high),
  )

  round2-IsPercent : (v : fl.F) → IsPercent v → IsPercent (round2 fl v)
  unfolding round2
  round2-IsPercent v h =
      let (low, high) = times_hundred 100 v (omega arith) h in
      let x = fl.mul v (hundred fl) in
      let n = fl.to_int (fl.add_half x) in
      let from : pos 0 ≤ℤ n =
        subst (λ k. k ≤ℤ n) (laws.truncates 0 (omega arith))
          (laws.to_int_mono (fl.add_half (fl.of_int (pos 0))) (fl.add_half x)
            (laws.add_half_mono (fl.of_int (pos 0)) x low)) in
      let to : n ≤ℤ pos 10000 =
        subst (λ k. n ≤ℤ k) (laws.truncates 10000 (omega arith))
          (laws.to_int_mono (fl.add_half x) (fl.add_half (fl.of_int (pos 10000)))
            (laws.add_half_mono x (fl.of_int (pos 10000)) high)) in
      (
        subst (λ y. laws.le y (fl.div (fl.of_int n) (hundred fl))) (laws.div_exact 0 (omega arith))
            (laws.div_mono (fl.of_int (pos 0)) (fl.of_int n) (laws.of_int_mono (pos 0) n from)),
        subst (laws.le (fl.div (fl.of_int n) (hundred fl))) (laws.div_exact 100 (omega arith)) (
            laws.div_mono (fl.of_int n) (fl.of_int (pos 10000))
              (laws.of_int_mono n (pos 10000) to)),
      )

  hundred-IsPercent : IsPercent (hundred fl)
  hundred-IsPercent = (
    laws.of_int_mono (pos 0) (pos 100) (omega arith),
    laws.of_int_mono (pos 100) (pos 100) (omega arith),
  )

  share-IsPercent : (t : DayTimes) → Within t → t.maint < t.total → IsPercent (share fl t)
  unfolding share
  share-IsPercent t h e =
      let whole = t.total - t.maint in
      let up : t.down ≤ whole = omega (arith, h, e) in
      let same : minus whole t.down ≡ pos (whole - t.down) = ground (arith, up) in
      subst (λ k. IsPercent (fl.mul (fl.div (fl.of_int k) (fl.of_int (pos whole))) (hundred fl)))
        (sym same)
        (times_hundred 1 (fl.div (fl.of_int (pos (whole - t.down))) (fl.of_int (pos whole)))
          (omega arith) (laws.quotient (whole - t.down) whole (omega (arith, e)) (omega arith)))

  day_percent-IsPercent : (t : DayTimes) → Within t → IsPercent (day_percent fl t)
  unfolding day_percent
  day_percent-IsPercent t h = elim (Bool-cases (ltb t.maint t.total)) [
    | inl e ↦ rw e (round2-IsPercent (share fl t) (share-IsPercent t h (ltb→lt t.maint t.total e)))
    | inr e ↦ rw e (round2-IsPercent (hundred fl) hundred-IsPercent)
  ]

  window_percent-IsPercent : (t : DayTimes) → Within t → IsPercent (window_percent fl t)
  unfolding window_percent
  window_percent-IsPercent t h = elim (Bool-cases (ltb t.maint t.total)) [
    | inl e ↦ rw e (round2-IsPercent (share fl t) (share-IsPercent t h (ltb→lt t.maint t.total e)))
    | inr e ↦ rw e hundred-IsPercent
  ]

  days-IsPercent :
      (l : List ComponentStatusHistory) (created now : Time) (n : ℕ) (start : Time)
      → Chronological now 0 l
      → All
          (λ (d : DailyUptime fl.F). IsPercent d.percent)
          (map (daily_uptime fl) (days_from l created now n start))
  unfolding days_from
  days-IsPercent l created now zero start h = tt
  days-IsPercent l created now (suc n) start h = (
    day_percent-IsPercent (day_times l created now start) (day_times-Within l created now start h),
    days-IsPercent l created now n (start + day_length) h,
  )

  pub compute_uptime-IsPercent :
      (id : Uuid) (l : List ComponentStatusHistory) (created now : Time) (asked : ℕ)
      → Chronological now 0 l
      → IsPercent (compute_uptime fl id l created now asked).uptime_percent
        × All
            (λ (d : DailyUptime fl.F). IsPercent d.percent)
            (compute_uptime fl id l created now asked).daily
        × (let days = at_least_one asked in
            (summed (days_from l created now days (window_start now days))).total
            ≤ days * day_length)
  unfolding compute_uptime
  compute_uptime-IsPercent id l created now asked h =
      let days = at_least_one asked in
      let start = window_start now days in
      let (sum, bound) = days-Within l created now days start h in
      (
        window_percent-IsPercent (summed (days_from l created now days start)) sum,
        days-IsPercent l created now days start h,
        bound,
      )
