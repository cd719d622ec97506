-- ===== src/Bytes.antt =====
-- Go's strings as sequences of bytes, for the code that walks them: comparison, strings.Cut and
-- strings.Split at a one-byte separator.
pub mod Decimal
pub mod Base64
use healthpage.Prelude.{
  ℕ, ◌+◌, ◌-◌, String, ◌≡◌, refl, sym, ap, ◌∙◌, ◌↔◌, inl, inr, Bool, true, false, ◌&&◌, ◌||◌,
  Option, none, some, List, [], ◌∷◌, ◌++◌, arith, if◌then◌else◌, Bool-cases, Option-cases, ◌==◌,
  nat_equal, nat_equal_iff, nat_comparable, string_comparable, any, equal_self, any-append,
}
use Prim.Native.Char.{code}

abbrev pub Bytes : Type 0
Bytes = List ℕ

-- the bytes of an ASCII text
abbrev pub ascii : String → Bytes
ascii String.[] = []
ascii (String.◌∷◌ c s) = code c ∷ ascii s

unfoldable pub equal_bytes : Bytes → Bytes → Bool
equal_bytes [] [] = true
equal_bytes (a ∷ s) (b ∷ t) = a == b && equal_bytes s t
equal_bytes [] (_ ∷ _) = false
equal_bytes (_ ∷ _) [] = false

pub equal_bytes_iff : (s t : Bytes) → (equal_bytes s t ≡ true) ↔ (s ≡ t)
unfolding equal_bytes
equal_bytes_iff [] [] = (λ _. refl, λ _. refl)
equal_bytes_iff [] (b ∷ t) = (λ h. cc, λ h. cc)
equal_bytes_iff (a ∷ s) [] = (λ h. cc, λ h. cc)
equal_bytes_iff (a ∷ s) (b ∷ t) =
    let (to, back) = equal_bytes_iff s t in
    (λ h. ground (arith, to), λ h. ground (arith, back, nat_equal_iff a b))

pub equal_bytes_self : (s : Bytes) → equal_bytes s s ≡ true
equal_bytes_self s = (equal_bytes_iff s s).1 refl

abbrev pub has_byte : ℕ → Bytes → Bool
has_byte c s = any (λ b. b == c) s

-- strings.Cut
abbrev cons_before : ℕ → Option (Bytes × Bytes) → Option (Bytes × Bytes)
cons_before b none = none
cons_before b (some (before, after)) = some (b ∷ before, after)

unfoldable pub cut : ℕ → Bytes → Option (Bytes × Bytes)
cut sep [] = none
cut sep (b ∷ s) = let rest = cut sep s in if b == sep then some ([], s) else cons_before b rest

-- strings.Split
abbrev cons_first : ℕ → List Bytes → List Bytes
cons_first b [] = (b ∷ []) ∷ []
cons_first b (part ∷ parts) = (b ∷ part) ∷ parts

unfoldable pub split : ℕ → Bytes → List Bytes
split sep [] = [] ∷ []
split sep (b ∷ s) = let rest = split sep s in if b == sep then [] ∷ rest else cons_first b rest

-- A text is cut at its first separator.
pub cut-append :
    (sep : ℕ) (before after : Bytes)
    → has_byte sep before ≡ false
    → cut sep (before ++ sep ∷ after) ≡ some (before, after)
unfolding cut any
cut-append sep [] after h = let self = equal_self sep in ground (arith, self)
cut-append sep (b ∷ before) after h = ground (arith, cut-append sep before after)

pub cut-none : (sep : ℕ) (s : Bytes) → has_byte sep s ≡ false → cut sep s ≡ none
unfolding cut any
cut-none sep [] h = refl
cut-none sep (b ∷ s) h = ground (arith, cut-none sep s)

pub split-append :
    (sep : ℕ) (before after : Bytes)
    → has_byte sep before ≡ false
    → split sep (before ++ sep ∷ after) ≡ before ∷ split sep after
unfolding split any
split-append sep [] after h = let self = equal_self sep in ground (arith, self)
split-append sep (b ∷ before) after h = ground (arith, split-append sep before after)

pub split-single : (sep : ℕ) (s : Bytes) → has_byte sep s ≡ false → split sep s ≡ s ∷ []
unfolding split any
split-single sep [] h = refl
split-single sep (b ∷ s) h = ground (arith, split-single sep s)

pub has_byte-append : (c : ℕ) (s t : Bytes) → has_byte c (s ++ t) ≡ has_byte c s || has_byte c t
has_byte-append c s t = any-append (λ b. b == c) s t

cut_later :
    (sep b : ℕ) (s x y before after : Bytes)
    → (b == sep) ≡ false
    → cut sep s ≡ some (x, y)
    → cut sep (b ∷ s) ≡ some (before, after)
    → (before ≡ b ∷ x) × (after ≡ y)
unfolding cut
cut_later sep b s x y before after t e h = (ground (arith, t, e, h), ground (arith, t, e, h))

-- What cut gives back is the text.
pub cut-joins :
    (sep : ℕ) (s before after : Bytes)
    → cut sep s ≡ some (before, after)
    → s ≡ before ++ sep ∷ after
unfolding cut
cut-joins sep [] before after h = ground arith
cut-joins sep (b ∷ s) before after h = elim (Bool-cases (b == sep)) [
  | inl t ↦ ground (arith, t)
  | inr t ↦ elim (Option-cases (cut sep s)) [
    | inl n ↦ ground (arith, n, t)
    | inr (r, e) ↦
        let ih = cut-joins sep s r.0 r.1 e in
        let parts = cut_later sep b s r.0 r.1 before after t e h in
        ap (λ z. b ∷ z) ih
        ∙ ap (λ z. z ++ sep ∷ r.1) (sym parts.0)
        ∙ ap (λ z. before ++ sep ∷ z) (sym parts.1)
  ]
]
