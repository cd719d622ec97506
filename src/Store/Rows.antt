-- ===== src/Store/Rows.antt =====
-- Looking a row up after an UPDATE or an INSERT.
use healthpage.Prelude.{
  ◌≡◌, sym, ap, ◌∙◌, inl, inr, Bool, true, none, some, List, [], ◌∷◌, ◌++◌, arith, if◌then◌else◌,
  Bool-cases, nat_comparable, string_comparable,
}
use healthpage.Store.Queries.{first_where, update_where}

pub first_where-update {ℓ} :
    {A : Type ℓ} (p q : A → Bool) (f : A → A)
    → ((a : A) → p (f a) ≡ p a)
    → (l : List A) (a : A) → first_where p l ≡ some a
    → first_where p (update_where q f l) ≡ some (if q a then f a else a)
unfolding first_where update_where
first_where-update p q f k [] a e = ground arith
first_where-update p q f k (x ∷ l) a e = ground (arith, k x, first_where-update p q f k l a)

pub first_where-holds {ℓ} :
    {A : Type ℓ} (p : A → Bool) (l : List A) (a : A) → first_where p l ≡ some a → p a ≡ true
unfolding first_where
first_where-holds p [] a e = ground arith
first_where-holds p (x ∷ l) a e = ground (arith, first_where-holds p l a)

-- the row that an UPDATE of the row looked up leaves
pub first_where-updated {ℓ} :
    {A : Type ℓ} (p : A → Bool) (f : A → A)
    → ((a : A) → p (f a) ≡ p a)
    → (l : List A) (a : A) → first_where p l ≡ some a
    → first_where p (update_where p f l) ≡ some (f a)
first_where-updated p f k l a e =
    first_where-update p p f k l a e
    ∙ ap (λ b. some (if b then f a else a)) (first_where-holds p l a e)

pub first_where-snoc {ℓ} :
    {A : Type ℓ} (p : A → Bool) (xs : List A) (x : A)
    → p x ≡ true
    → (y : A) × (first_where p (xs ++ x ∷ []) ≡ some y)
unfolding first_where
first_where-snoc p [] x e = (x, ground arith)
first_where-snoc p (z ∷ xs) x e =
    let ih = first_where-snoc p xs x e in
    elim (Bool-cases (p z)) [ inl t ↦ (z, ground arith) | inr f ↦ (ih.0, ground (arith, ih.1)) ]

-- a new row is found where no other row was
pub first_where-inserted {ℓ} :
    {A : Type ℓ} (p : A → Bool) (xs : List A) (x : A)
    → first_where p xs ≡ none
    → p x ≡ true
    → first_where p (xs ++ x ∷ []) ≡ some x
unfolding first_where
first_where-inserted p [] x e h = ground (arith, h)
first_where-inserted p (y ∷ xs) x e h = elim (Bool-cases (p y)) [
  | inl found ↦ ground (arith, e, found)
  | inr other ↦ ground (arith, e, other, first_where-inserted p xs x)
]

-- An UPDATE that leaves the key alone makes no new row.
pub first_where-absent {ℓ} :
    {A : Type ℓ} (p q : A → Bool) (f : A → A)
    → ((a : A) → p (f a) ≡ p a)
    → (l : List A) → first_where p l ≡ none
    → first_where p (update_where q f l) ≡ none
unfolding first_where update_where
first_where-absent p q f k [] e = e
first_where-absent p q f k (x ∷ l) e = ground (arith, k x, first_where-absent p q f k l)

-- Where a test finds a row that another test accepts too, the other test finds a row.
pub first_where-some {ℓ} :
    {A : Type ℓ} (p q : A → Bool) (l : List A) (a : A)
    → first_where p l ≡ some a
    → q a ≡ true
    → (b : A) × (first_where q l ≡ some b)
unfolding first_where
first_where-some p q [] a e h = cc
first_where-some p q (x ∷ l) a e h = elim (Bool-cases (q x)) [
  | inl t ↦ (x, ground (arith, t))
  | inr t ↦ elim (Bool-cases (p x)) [
    | inl s ↦
        absurd (let same : x ≡ a = ground (arith, s, e) in let both = sym t ∙ ap q same ∙ h in (cc))
    | inr s ↦
        let (b, found) = first_where-some p q l a (ground (arith, s, e)) h in
        (b, ground (arith, t, found))
  ]
]
