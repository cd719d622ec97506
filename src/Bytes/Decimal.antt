-- ===== src/Bytes/Decimal.antt =====
-- strconv.FormatInt and strconv.ParseInt in base 10 for int64.
use healthpage.Prelude.{
  ℕ, zero, suc, ◌+◌, ◌-◌, ◌*◌, ◌/◌, ◌%◌, ◌≤◌, ◌<◌, ◌≡◌, refl, sym, ap, ◌∙◌, inl, inr, Bool, false,
  ◌&&◌, Option, none, some, List, [], ◌∷◌, arith, ltb, leb, if◌then◌else◌, Bool-cases, ℤ, pos,
  negsuc, ◌==◌, nat_comparable, string_comparable, any,
}

-- The most significant digit first; `digits_from` puts the digits of n before `rest`.
digits_from : ℕ → ℕ → List ℕ → List ℕ
digits_from zero n rest = rest
digits_from (suc f) n rest =
    let more = digits_from f (n / 10) ((48 + n % 10) ∷ rest) in
    if ltb n 10 then (48 + n) ∷ rest else more

-- A number has at most as many digits as it counts, so that the fuel is enough.
unfoldable pub format_nat : ℕ → List ℕ
unfolding digits_from
format_nat n = digits_from (suc n) n []

-- strconv.FormatInt
unfoldable pub format_int : ℤ → List ℕ
format_int (pos n) = format_nat n
format_int (negsuc n) = b'-' ∷ format_nat (suc n)

is_digit : ℕ → Bool
is_digit c = leb 48 c && leb c 57

parse_from : ℕ → List ℕ → Option ℕ
parse_from acc [] = some acc
parse_from acc (c ∷ s) =
    let rest = parse_from (acc * 10 + (c - 48)) s in if is_digit c then rest else none

unfoldable pub parse_nat : List ℕ → Option ℕ
unfolding parse_from is_digit
parse_nat [] = none
parse_nat (c ∷ s) = parse_from 0 (c ∷ s)

-- the largest int64
abbrev pub max_int64 : ℕ
max_int64 = 9223372036854775807

abbrev pub IsInt64 : ℤ → Type 0
IsInt64 (pos n) = n ≤ max_int64
IsInt64 (negsuc n) = n ≤ max_int64

abbrev negated : ℕ → ℤ
negated zero = pos 0
negated (suc n) = negsuc n

abbrev in_range_pos : Option ℕ → Option ℤ
in_range_pos none = none
in_range_pos (some n) = if leb n max_int64 then some (pos n) else none

abbrev in_range_neg : Option ℕ → Option ℤ
in_range_neg none = none
in_range_neg (some n) = if leb n (max_int64 + 1) then some (negated n) else none

-- strconv.ParseInt: a sign, then at least one digit, and a value in the range.
unfoldable pub parse_int : List ℕ → Option ℤ
unfolding parse_nat
parse_int [] = none
parse_int (c ∷ s) =
    if c == b'-'
    then in_range_neg (parse_nat s)
    else if c == b'+'
    then in_range_pos (parse_nat s)
    else in_range_pos (parse_nat (c ∷ s))

parse_from-digits_from :
    (f n : ℕ) (rest : List ℕ) → n < f → parse_from 0 (digits_from f n rest) ≡ parse_from n rest
unfolding parse_from digits_from is_digit
parse_from-digits_from zero n rest h = elim h [ ]
parse_from-digits_from (suc f) n rest h = elim (Bool-cases (ltb n 10)) [
  | inl t ↦ ground arith
  | inr t ↦
      rw t (parse_from-digits_from f (n / 10) ((48 + n % 10) ∷ rest) (ground arith) ∙ ground arith)
]

has_dot-digits_from :
    (f n : ℕ) (rest : List ℕ)
    → n < f
    → any (λ b. b == b'.') rest ≡ false
    → any (λ b. b == b'.') (digits_from f n rest) ≡ false
unfolding any digits_from
has_dot-digits_from zero n rest h e = elim h [ ]
has_dot-digits_from (suc f) n rest h e = elim (Bool-cases (ltb n 10)) [
  | inl t ↦ ground arith
  | inr t ↦
      rw t (has_dot-digits_from f (n / 10) ((48 + n % 10) ∷ rest) (ground arith) (ground arith))
]

-- What is printed has no dot.
pub has_dot-format_int : (i : ℤ) → any (λ b. b == b'.') (format_int i) ≡ false
unfolding format_int format_nat any
has_dot-format_int (pos n) = has_dot-digits_from (suc n) n [] (omega arith) refl
has_dot-format_int (negsuc n) =
    let ih = has_dot-digits_from (suc (suc n)) (suc n) [] (omega arith) refl in ground (arith, ih)

-- the digits of a number start with a digit
first_digit :
    (f n : ℕ) (rest : List ℕ)
    → n < f
    → (c : ℕ) × (s : List ℕ) × (digits_from f n rest ≡ c ∷ s) × (48 ≤ c)
unfolding digits_from
first_digit zero n rest h = elim h [ ]
first_digit (suc f) n rest h = elim (Bool-cases (ltb n 10)) [
  | inl t ↦ (48 + n, rest, ground arith, omega arith)
  | inr t ↦ rw t (first_digit f (n / 10) ((48 + n % 10) ∷ rest) (ground arith))
]

pub parse_nat-format_nat : (n : ℕ) → parse_nat (format_nat n) ≡ some n
unfolding parse_nat format_nat
parse_nat-format_nat n =
    let (c, s, e, _) = first_digit (suc n) n [] (omega arith) in
    let p = parse_from-digits_from (suc n) n [] (omega arith) in
    ap parse_nat e ∙ ap (parse_from 0) (sym e) ∙ p

-- Parsing what was printed gives the number back, for every int64.
pub parse_int-format_int : (i : ℤ) → IsInt64 i → parse_int (format_int i) ≡ some i
unfolding parse_int format_int digits_from format_nat
parse_int-format_int (pos n) h =
    let (c, s, e, b) = first_digit (suc n) n [] (omega arith) in
    let p : parse_nat (c ∷ s) ≡ some n = ap parse_nat (sym e) ∙ parse_nat-format_nat n in
    ap parse_int e ∙ ground (arith, p)
parse_int-format_int (negsuc n) h = ground (arith, parse_nat-format_nat (suc n))
