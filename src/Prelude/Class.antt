-- ===== src/Prelude/Class.antt =====
-- Go's `==` on comparable types.
use Prim.Native.Nat.{ℕ, compare, Ordering}
use Prim.Native.String.{String}
use mathlib.Core.Path.{◌≡◌, refl, sym, ◌∙◌}
use mathlib.Core.Logic.{◌↔◌}
use mathlib.Core.Bool.{Bool, true, false, false≢true}
use mathlib.Core.HLevel.{hedberg}
use native.Mathlib.Omega.{arith}
use text.Mathlib.Text.{◌==◌ as str_eq}
use text.Mathlib.TextEquality.{eq_iff}

pub record Comparable {ℓ} (A : Type ℓ) : Type ℓ where
  pub equal : A → A → Bool
  pub equal_iff : (a b : A) → (equal a b ≡ true) ↔ (a ≡ b)

infix 50 ◌==◌
abbrev pub ◌==◌ {ℓ} : {A : Type ℓ} ⦃c : Comparable A⦄ → A → A → Bool
◌==◌ ⦃c⦄ = c.equal

abbrev pub nat_equal : ℕ → ℕ → Bool
nat_equal a b = elim (compare a b) [ Ordering.eq ↦ true | _ ↦ false ]

pub nat_equal_iff : (a b : ℕ) → (nat_equal a b ≡ true) ↔ (a ≡ b)
nat_equal_iff a b = (λ h. ground arith, λ h. ground arith)

instance abbrev pub nat_comparable : Comparable ℕ
nat_comparable = record { equal = nat_equal; equal_iff = nat_equal_iff }

instance abbrev pub string_comparable : Comparable String
string_comparable = record { equal = str_eq; equal_iff = eq_iff }

module _ {ℓ} {A : Type ℓ} ⦃c : Comparable A⦄ where
  decide_by : (b : Bool) (x y : A) → c.equal x y ≡ b → Dec (x ≡ y)
  decide_by true x y h = yes ((c.equal_iff x y).0 h)
  decide_by false x y h = no (λ e. false≢true (sym h ∙ (c.equal_iff x y).1 e))

  pub Comparable-set : IsSet A
  Comparable-set = hedberg (λ x y. decide_by (c.equal x y) x y refl)

  pub equal_self : (x : A) → c.equal x x ≡ true
  equal_self x = (c.equal_iff x x).1 refl
