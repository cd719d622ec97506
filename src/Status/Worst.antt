-- ===== src/Status/Worst.antt =====
-- What `WorstStatus` of backend/internal/domain/status.go computes: the status of highest
-- severity, whatever the order in which the statuses come.
use mathlib.Core.List.{foldr, Perm}
use mathlib.Core.List.Perm
use healthpage.Prelude.{
  ◌≡◌, refl, sym, ap, ◌∙◌, ◌↔◌, ◌⊎◌, inl, inr, Bool, true, false, List, [], ◌∷◌, ◌++◌, Memᴰ, arith,
  if◌then◌else◌, ◌≤ℤ◌, ltb_ℤ, nat_comparable, string_comparable, All, Comparable-set, All-mem,
}
use healthpage.Status.{
  component_status_comparable, ComponentStatus, operational, display_severity, worst_from,
  worst_status,
}

-- The worse of an accumulator and one more status, as the loop's body picks it.
worse : ComponentStatus → ComponentStatus → ComponentStatus
worse a b = if ltb_ℤ (display_severity a) (display_severity b) then b else a

fold_worse : ComponentStatus → List ComponentStatus → ComponentStatus
fold_worse a [] = a
fold_worse a (s ∷ rest) = fold_worse (worse a s) rest

worst_from-if :
    (b : Bool) (a s : ComponentStatus) (rest : List ComponentStatus)
    → worst_from (if b then s else a) (if b then display_severity s else display_severity a) rest
      ≡ worst_from (if b then s else a) (display_severity (if b then s else a)) rest
worst_from-if true a s rest = refl
worst_from-if false a s rest = refl

worst_from-eq-fold_worse :
    (a : ComponentStatus) (l : List ComponentStatus)
    → worst_from a (display_severity a) l ≡ fold_worse a l
unfolding worst_from fold_worse worse
worst_from-eq-fold_worse a [] = refl
worst_from-eq-fold_worse a (s ∷ rest) =
    worst_from-if (ltb_ℤ (display_severity a) (display_severity s)) a s rest
    ∙ worst_from-eq-fold_worse (worse a s) rest

worst_status-eq-fold_worse : (l : List ComponentStatus) → worst_status l ≡ fold_worse operational l
unfolding worst_status
worst_status-eq-fold_worse l = worst_from-eq-fold_worse operational l

worse_right_comm : (a b c : ComponentStatus) → worse (worse a b) c ≡ worse (worse a c) b
unfolding worse display_severity
worse_right_comm a b c = ground arith

worse_assoc : (a b c : ComponentStatus) → worse (worse a b) c ≡ worse a (worse b c)
unfolding worse display_severity
worse_assoc a b c = ground arith

worse_self : (a : ComponentStatus) → worse a a ≡ a
unfolding worse display_severity
worse_self a = ground arith

-- The severity of the worse of two is the larger one.
worse_upper :
    (a b : ComponentStatus)
    → (display_severity a ≤ℤ display_severity (worse a b))
      × (display_severity b ≤ℤ display_severity (worse a b))
unfolding worse display_severity
worse_upper a b = ground arith

fold_worse-worse :
    (a s : ComponentStatus) (l : List ComponentStatus)
    → fold_worse (worse a s) l ≡ worse (fold_worse a l) s
unfolding fold_worse
fold_worse-worse a s [] = refl
fold_worse-worse a s (t ∷ l) = rw (worse_right_comm a s t) (fold_worse-worse (worse a t) s l)

fold_worse-eq-foldr :
    (a : ComponentStatus) (l : List ComponentStatus) → fold_worse a l ≡ foldr (λ s x. worse x s) a l
unfolding fold_worse
fold_worse-eq-foldr a [] = refl
fold_worse-eq-foldr a (t ∷ l) =
    fold_worse-worse a t l ∙ ap (λ x. worse x t) (fold_worse-eq-foldr a l)

ComponentStatus-set : IsSet ComponentStatus
ComponentStatus-set = Comparable-set

fold_worse-perm :
    (a : ComponentStatus) {xs ys : List ComponentStatus}
    → Perm xs ys
    → fold_worse a xs ≡ fold_worse a ys
fold_worse-perm a {xs} {ys} p =
    fold_worse-eq-foldr a xs
    ∙ Perm.foldr-eq ComponentStatus-set (λ s x. worse x s) (λ s t x. worse_right_comm x t s) p a
    ∙ sym (fold_worse-eq-foldr a ys)

-- The result of `WorstStatus` does not depend on the order of its arguments.
worst_status-perm : {xs ys : List ComponentStatus} → Perm xs ys → worst_status xs ≡ worst_status ys
worst_status-perm {xs} {ys} p =
    worst_status-eq-fold_worse xs
    ∙ fold_worse-perm operational p
    ∙ sym (worst_status-eq-fold_worse ys)

fold_worse-append :
    (a : ComponentStatus) (xs ys : List ComponentStatus)
    → fold_worse a (xs ++ ys) ≡ fold_worse (fold_worse a xs) ys
unfolding fold_worse
fold_worse-append a [] ys = refl
fold_worse-append a (x ∷ xs) ys = fold_worse-append (worse a x) xs ys

fold_worse-start :
    (a b : ComponentStatus) (l : List ComponentStatus)
    → fold_worse (worse a b) l ≡ worse a (fold_worse b l)
unfolding fold_worse
fold_worse-start a b [] = refl
fold_worse-start a b (s ∷ l) = rw (worse_assoc a b s) (fold_worse-start a (worse b s) l)

fold_worse_upper :
    (a : ComponentStatus) (l : List ComponentStatus)
    → (display_severity a ≤ℤ display_severity (fold_worse a l))
      × All (λ s. display_severity s ≤ℤ display_severity (fold_worse a l)) l
unfolding fold_worse
fold_worse_upper a [] = (omega arith, tt)
fold_worse_upper a (s ∷ l) =
    let (up, rest) = fold_worse_upper (worse a s) l in
    let (left, right) = worse_upper a s in (omega arith, (omega arith, rest))

worse_picks : (a s : ComponentStatus) → (worse a s ≡ a) ⊎ (worse a s ≡ s)
unfolding worse
worse_picks a s = ground arith

fold_worse_picks :
    (a : ComponentStatus) (l : List ComponentStatus)
    → (fold_worse a l ≡ a) ⊎ Memᴰ (fold_worse a l) l
unfolding fold_worse
fold_worse_picks a [] = inl refl
fold_worse_picks a (s ∷ l) = go (worse_picks a s) (fold_worse_picks (worse a s) l)
  where
    go :
        (worse a s ≡ a) ⊎ (worse a s ≡ s)
        → (fold_worse (worse a s) l ≡ worse a s) ⊎ Memᴰ (fold_worse (worse a s) l) l
        → (fold_worse (worse a s) l ≡ a) ⊎ Memᴰ (fold_worse (worse a s) l) (s ∷ l)
    go p (inr m) = inr (Memᴰ.tail m)
    go (inl p) (inl q) = inl (q ∙ p)
    go (inr p) (inl q) = inr (Memᴰ.head (q ∙ p))

-- `WorstStatus` returns a status of its arguments, or operational; and none of the arguments,
-- valid or not, is more severe than the result.
pub worst_status_greatest :
    (l : List ComponentStatus)
    → All (λ s. display_severity s ≤ℤ display_severity (worst_status l)) l
      × ((worst_status l ≡ operational) ⊎ Memᴰ (worst_status l) l)
worst_status_greatest l =
    rw (worst_status-eq-fold_worse l)
      ((fold_worse_upper operational l).1, fold_worse_picks operational l)

pub worst_status-ge-operational :
    (l : List ComponentStatus) → display_severity operational ≤ℤ display_severity (worst_status l)
worst_status-ge-operational l = rw (worst_status-eq-fold_worse l) (fold_worse_upper operational l).0

-- More arguments never lower the severity of the result.
pub worst_status_mono :
    (xs ys : List ComponentStatus)
    → ((s : ComponentStatus) → Memᴰ s xs → Memᴰ s ys)
    → display_severity (worst_status xs) ≤ℤ display_severity (worst_status ys)
worst_status_mono xs ys h = go (worst_status_greatest xs).1
  where
    go :
        (worst_status xs ≡ operational) ⊎ Memᴰ (worst_status xs) xs
        → display_severity (worst_status xs) ≤ℤ display_severity (worst_status ys)
    go (inl e) = rw e (worst_status-ge-operational ys)
    go (inr m) =
        All-mem (λ s. display_severity s ≤ℤ display_severity (worst_status ys)) ys
          (worst_status_greatest ys).0 (h (worst_status xs) m)

severity_injective :
    (a b : ComponentStatus)
    → display_severity operational ≤ℤ display_severity a
    → display_severity a ≤ℤ display_severity b
    → display_severity b ≤ℤ display_severity a
    → a ≡ b
unfolding display_severity
severity_injective a b h k l = ground arith

-- `WorstStatus` depends only on which statuses occur among its arguments.
pub worst_status_ext :
    (xs ys : List ComponentStatus)
    → ((s : ComponentStatus) → Memᴰ s xs ↔ Memᴰ s ys)
    → worst_status xs ≡ worst_status ys
worst_status_ext xs ys h =
    severity_injective (worst_status xs) (worst_status ys) (worst_status-ge-operational xs)
      (worst_status_mono xs ys (λ s. (h s).0)) (worst_status_mono ys xs (λ s. (h s).1))
