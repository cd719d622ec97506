-- ===== src/Prelude/Lists.antt =====
-- Lists over the native numbers, and predicates on lists by recursion.
use Prim.Native.Nat.{ℕ, suc}
use mathlib.Core.Path.{◌≡◌, refl, sym, subst, ap}
use mathlib.Core.Logic.{◌⊎◌, inl, inr}
use mathlib.Core.Bool.{Bool, true, false, ◌||◌}
use mathlib.Core.List.{List, [], ◌∷◌, ◌++◌, map, Memᴰ}
use native.Mathlib.Omega.{arith}
use healthpage.Prelude.Tests.{if◌then◌else◌}

abbrev pub All {ℓ κ} : {A : Type ℓ} → (A → Type κ) → List A → Type κ
All P [] = Unit
All P (x ∷ xs) = P x × All P xs

module _ {ℓ} {A : Type ℓ} where
  abbrev pub length : List A → ℕ
  length [] = 0
  length (_ ∷ xs) = suc (length xs)

  -- The elements that pass a test, in their order.
  unfoldable pub keep : (A → Bool) → List A → List A
  keep p [] = []
  keep p (x ∷ xs) = let rest = keep p xs in if p x then x ∷ rest else rest

  unfoldable pub any : (A → Bool) → List A → Bool
  any p [] = false
  any p (x ∷ xs) = p x || any p xs

  pub any-append : (p : A → Bool) (xs ys : List A) → any p (xs ++ ys) ≡ any p xs || any p ys
  unfolding any
  any-append p [] ys = refl
  any-append p (x ∷ xs) ys = ground (arith, any-append p xs ys)

  pub keep-append : (p : A → Bool) (xs ys : List A) → keep p (xs ++ ys) ≡ keep p xs ++ keep p ys
  unfolding keep
  keep-append p [] ys = refl
  keep-append p (x ∷ xs) ys = ground (arith, keep-append p xs ys)

  -- A weaker filter first changes nothing.
  pub keep-keep :
      (p q : A → Bool)
      → ((x : A) → p x ≡ true → q x ≡ true)
      → (l : List A) → keep p (keep q l) ≡ keep p l
  unfolding keep
  keep-keep p q h [] = refl
  keep-keep p q h (x ∷ l) = ground (arith, h x, keep-keep p q h l)

  pub All-keep : (p : A → Bool) (l : List A) → All (λ x. p x ≡ true) (keep p l)
  unfolding keep
  All-keep p [] = tt
  All-keep p (x ∷ l) = ground (arith, All-keep p l)

module _ {ℓ κ} {A : Type ℓ} (P : A → Type κ) where
  pub All-mem : {x : A} (l : List A) → All P l → Memᴰ x l → P x
  All-mem [] h m = elim m [ ]
  All-mem (y ∷ l) h (Memᴰ.head e) = subst P (sym e) h.0
  All-mem (y ∷ l) h (Memᴰ.tail m) = All-mem l h.1 m

  pub All-append : (xs ys : List A) → All P xs → All P ys → All P (xs ++ ys)
  All-append [] ys h k = k
  All-append (x ∷ xs) ys h k = (h.0, All-append xs ys h.1 k)

module _ {ℓ} {A : Type ℓ} where
  mem-if : (b : Bool) (y : A) {x : A} {l : List A} → Memᴰ x l → Memᴰ x (if b then y ∷ l else l)
  mem-if true y m = Memᴰ.tail m
  mem-if false y m = m

  pub mem-keep : (p : A → Bool) {x : A} (l : List A) → Memᴰ x l → p x ≡ true → Memᴰ x (keep p l)
  unfolding keep
  mem-keep p [] m h = elim m [ ]
  mem-keep p (y ∷ l) (Memᴰ.head e) h = rw (subst (λ z. p z ≡ true) e h) (Memᴰ.head e)
  mem-keep p (y ∷ l) (Memᴰ.tail m) h = mem-if (p y) y (mem-keep p l m h)

  if-mem : (b : Bool) {x y : A} {l : List A} → Memᴰ x (if b then y ∷ l else l) → (x ≡ y) ⊎ Memᴰ x l
  if-mem true (Memᴰ.head e) = inl e
  if-mem true (Memᴰ.tail m) = inr m
  if-mem false m = inr m

  pub keep-mem : (p : A → Bool) {x : A} (l : List A) → Memᴰ x (keep p l) → Memᴰ x l
  unfolding keep
  keep-mem p [] m = m
  keep-mem p {x} (y ∷ l) m = go (if-mem (p y) m) (keep-mem p {x = x} l)
    where
      go : (x ≡ y) ⊎ Memᴰ x (keep p l) → (Memᴰ x (keep p l) → Memᴰ x l) → Memᴰ x (y ∷ l)
      go (inl e) f = Memᴰ.head e
      go (inr k) f = Memᴰ.tail (f k)

  pub keep-mem_holds : (p : A → Bool) {x : A} (l : List A) → Memᴰ x (keep p l) → p x ≡ true
  keep-mem_holds p l m = All-mem (λ z. p z ≡ true) (keep p l) (All-keep p l) m

module _ {ℓ κ} {A : Type ℓ} {B : Type κ} (f : A → B) where
  pub mem-map : {x : A} (l : List A) → Memᴰ x l → Memᴰ (f x) (map f l)
  mem-map [] m = elim m [ ]
  mem-map (y ∷ l) (Memᴰ.head e) = Memᴰ.head (ap f e)
  mem-map (y ∷ l) (Memᴰ.tail m) = Memᴰ.tail (mem-map l m)

  pub map-mem : {y : B} (l : List A) → Memᴰ y (map f l) → (x : A) × Memᴰ x l × (y ≡ f x)
  map-mem [] m = elim m [ ]
  map-mem (z ∷ l) (Memᴰ.head e) = (z, Memᴰ.head refl, e)
  map-mem (z ∷ l) (Memᴰ.tail m) = let (x, k, e) = map-mem l m in (x, Memᴰ.tail k, e)

  pub All-map {μ} : (P : B → Type μ) (l : List A) → All (λ x. P (f x)) l → All P (map f l)
  All-map P [] h = tt
  All-map P (x ∷ l) h = (h.0, All-map P l h.1)

module _ {ℓ} {A : Type ℓ} where
  pub append-mem : {x : A} (xs ys : List A) → Memᴰ x (xs ++ ys) → Memᴰ x xs ⊎ Memᴰ x ys
  append-mem [] ys m = inr m
  append-mem (y ∷ xs) ys (Memᴰ.head e) = inl (Memᴰ.head e)
  append-mem {x} (y ∷ xs) ys (Memᴰ.tail m) = go (append-mem xs ys m)
    where
      go : Memᴰ x xs ⊎ Memᴰ x ys → Memᴰ x (y ∷ xs) ⊎ Memᴰ x ys
      go (inl k) = inl (Memᴰ.tail k)
      go (inr k) = inr k

  pub mem-append_left : {x : A} (xs ys : List A) → Memᴰ x xs → Memᴰ x (xs ++ ys)
  mem-append_left [] ys m = elim m [ ]
  mem-append_left (y ∷ xs) ys (Memᴰ.head e) = Memᴰ.head e
  mem-append_left (y ∷ xs) ys (Memᴰ.tail m) = Memᴰ.tail (mem-append_left xs ys m)

  pub mem-append_right : {x : A} (xs ys : List A) → Memᴰ x ys → Memᴰ x (xs ++ ys)
  mem-append_right [] ys m = m
  mem-append_right (y ∷ xs) ys m = Memᴰ.tail (mem-append_right xs ys m)

  pub any-mem : (p : A → Bool) (l : List A) → any p l ≡ true → (x : A) × Memᴰ x l × (p x ≡ true)
  unfolding any
  any-mem p [] h = cc
  any-mem p (y ∷ l) h = go (p y) refl (any-mem p l)
    where
      go :
          (b : Bool)
          → p y ≡ b
          → (any p l ≡ true → (x : A) × Memᴰ x l × (p x ≡ true))
          → (x : A) × Memᴰ x (y ∷ l) × (p x ≡ true)
      go true e f = (y, Memᴰ.head refl, e)
      go false e f = let (x, m, k) = f (ground arith) in (x, Memᴰ.tail m, k)

  pub mem-any : (p : A → Bool) {x : A} (l : List A) → Memᴰ x l → p x ≡ true → any p l ≡ true
  unfolding any
  mem-any p [] m h = elim m [ ]
  mem-any p (y ∷ l) (Memᴰ.head e) h = rw (subst (λ z. p z ≡ true) e h)
  mem-any p (y ∷ l) (Memᴰ.tail m) h = ground (arith, mem-any p l m h)
