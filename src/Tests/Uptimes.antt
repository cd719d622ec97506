-- ===== src/Tests/Uptimes.antt =====
-- The theorem on uptime at a concrete history, with numbers in halves in the place of float64.
use healthpage.Prelude.{
  ℕ, ◌+◌, ◌*◌, ◌/◌, ◌≤◌, ◌<◌, ap, some, [], ◌∷◌, arith, ℤ, pos, negsuc, pos_part, ◌≤ℤ◌,
  nat_comparable, string_comparable, All,
}
use native.Mathlib.Nat.{div-le_of_le-mul}
use healthpage.Status.{major_outage}
use healthpage.Store.{ComponentStatusHistory, incident}
use healthpage.Uptime.{
  Float64, DailyUptime, compute_uptime, summed, days_from, window_start, day_length,
}
use healthpage.Uptime.Days.{IsFloat64, IsPercent, compute_uptime-IsPercent}

abbrev halves : Float64
halves = record {
  F = ℕ;
  of_int = λ n. pos_part n * 2;
  div = λ a b. (a * 2) / b;
  mul = λ a b. (a * b) / 2;
  add_half = λ x. x + 1;
  to_int = λ x. pos (x / 2);
}

halves_mono : (a b : ℤ) → a ≤ℤ b → pos_part a * 2 ≤ pos_part b * 2
halves_mono (pos a) (pos b) h = omega (arith, h)
halves_mono (pos a) (negsuc b) h = omega (arith, h)
halves_mono (negsuc a) b h = omega arith

halves_quotient :
    (a n : ℕ) → 0 < n → a ≤ n → (0 ≤ ((a * 2) * 2) / (n * 2)) × (((a * 2) * 2) / (n * 2) ≤ 2)
halves_quotient a n positive h = (omega arith, div-le_of_le-mul (n * 2) (omega (arith, h)))

halves-IsFloat64 : IsFloat64 halves
halves-IsFloat64 = record {
  le = λ x y. x ≤ y;
  of_int_mono = halves_mono;
  mul_mono = λ x y h. omega (arith, h);
  div_mono = λ x y h. omega (arith, h);
  add_half_mono = λ x y h. omega (arith, h);
  to_int_mono = λ x y h. omega (arith, h);
  quotient = halves_quotient;
  mul_exact = λ m h. omega arith;
  div_exact = λ m h. omega arith;
  truncates = λ m h. ap pos (omega arith);
}

abbrev outage : ComponentStatusHistory
outage = record {
  id = 1;
  component_id = 10;
  status = major_outage;
  started_at = 86400000000000;
  ended_at = some 90000000000000;
  source = incident;
  created_at = 0;
  updated_at = 0;
}

uptime_example :
    IsPercent halves halves-IsFloat64
      (compute_uptime halves 10 (outage ∷ []) 0 100000000000000 2).uptime_percent
    × All
        (λ (d : DailyUptime ℕ). IsPercent halves halves-IsFloat64 d.percent)
        (compute_uptime halves 10 (outage ∷ []) 0 100000000000000 2).daily
    × ((summed (days_from (outage ∷ []) 0 100000000000000 2 (window_start 100000000000000 2))).total
        ≤ 2 * day_length)
uptime_example =
    compute_uptime-IsPercent halves halves-IsFloat64 10 (outage ∷ []) 0 100000000000000 2
      (omega arith, omega arith, tt)
