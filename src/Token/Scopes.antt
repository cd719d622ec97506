-- ===== src/Token/Scopes.antt =====
-- What normalisation keeps of the scopes of a token (backend/internal/domain/apitoken.go).
use healthpage.Prelude.{
  String, ◌≡◌, refl, sym, ap, ◌∙◌, subst, ◌↔◌, ◌⊎◌, inl, inr, true, not, ◌&&◌, ◌||◌, some, List, [],
  ◌∷◌, ◌++◌, map, Memᴰ, arith, if◌then◌else◌, Bool-cases, is_some, nat_comparable,
  string_comparable, any, equal_self,
}
use healthpage.Token.{
  ApiToken, can_write, has_scope, TokenScope, read, write, other_scope, scope_is_valid, scope_equal,
  token_scope, scopes_grant, normalize_from, normalize_scopes,
}

scopes_grant-append :
    (want : TokenScope) (xs ys : List TokenScope)
    → scopes_grant want (xs ++ ys) ≡ scopes_grant want xs || scopes_grant want ys
unfolding scopes_grant
scopes_grant-append want [] ys = refl
scopes_grant-append want (x ∷ xs) ys = ground (arith, scopes_grant-append want xs ys)

scope_equal_sound : (a b : TokenScope) → scope_equal a b ≡ true → a ≡ b
unfolding scope_equal
scope_equal_sound read read e = refl
scope_equal_sound write write e = refl
scope_equal_sound (other_scope a) (other_scope b) e =
    ap other_scope ((string_comparable.equal_iff a b).0 e)
scope_equal_sound read write e = ground arith
scope_equal_sound read (other_scope b) e = ground arith
scope_equal_sound write read e = ground arith
scope_equal_sound write (other_scope b) e = ground arith
scope_equal_sound (other_scope a) read e = ground arith
scope_equal_sound (other_scope a) write e = ground arith

-- what the known scopes grant is granted by the output so far
abbrev pub Covers : TokenScope → List TokenScope → List TokenScope → Type 0
Covers want seen out =
    (s : TokenScope)
    → any (λ k. scope_equal k s) seen ≡ true
    → scopes_grant want (s ∷ []) ≡ true
    → scopes_grant want out ≡ true

Covers-more :
    (want : TokenScope) (seen out : List TokenScope) (s : TokenScope)
    → Covers want seen out
    → Covers want (s ∷ seen) (out ++ s ∷ [])
unfolding any
Covers-more want seen out s c r known grants =
    let split = scopes_grant-append want out (s ∷ []) in
    elim (Bool-cases (scope_equal s r)) [
      | inl same ↦
          let mine =
            subst (λ x. scopes_grant want (x ∷ []) ≡ true) (sym (scope_equal_sound s r same))
              grants in
          split ∙ ground (arith, mine)
      | inr other ↦
          let before = c r (ground (arith, known)) grants in split ∙ ground (arith, before)
    ]

normalize_from-grants :
    (want : TokenScope) (seen out : List TokenScope) (raw : List String) (res : List TokenScope)
    → Covers want seen out
    → normalize_from seen out raw ≡ some res
    → scopes_grant want res ≡ scopes_grant want out || scopes_grant want (map token_scope raw)
unfolding normalize_from scopes_grant
normalize_from-grants want seen out [] res c e = ground arith
normalize_from-grants want seen out (r ∷ raw) res c e =
    let s = token_scope r in
    elim (Bool-cases (any (λ k. scope_equal k s) seen)) [
      | inl known ↦
          let ih = normalize_from-grants want seen out raw res c in
          let covered = c s known in ground (arith, ih, covered)
      | inr new ↦
          let ih =
            normalize_from-grants want (s ∷ seen) (out ++ s ∷ []) raw res
              (Covers-more want seen out s c) in
          let split = scopes_grant-append want out (s ∷ []) in ground (arith, ih, split)
    ]

normalize_from-valid :
    (seen out : List TokenScope) (raw : List String)
    → is_some (normalize_from seen out raw)
      ≡ not (any (λ s. not (scope_is_valid s)) (map token_scope raw))
unfolding normalize_from any
normalize_from-valid seen out [] = refl
normalize_from-valid seen out (r ∷ raw) =
    let known = any (λ k. scope_equal k (token_scope r)) seen in
    let ih =
      normalize_from-valid (if known then seen else token_scope r ∷ seen)
        (if known then out else out ++ token_scope r ∷ []) raw in
    ground (arith, ih)

-- Normalisation accepts a list of scopes exactly when each of them is in the enum, and what it
-- returns grants exactly what the list grants: dropping repetitions takes no right away and gives
-- none, also not through write implying read.
pub normalize_scopes_lem :
    (raw : List String)
    → (is_some (normalize_scopes raw)
        ≡ not (any (λ s. not (scope_is_valid s)) (map token_scope raw)))
      × ((out : List TokenScope) (want : TokenScope)
          → normalize_scopes raw ≡ some out
          → scopes_grant want out ≡ scopes_grant want (map token_scope raw))
unfolding normalize_scopes scopes_grant any
normalize_scopes_lem raw = (
  normalize_from-valid [] [] raw,
  λ out want e.
      normalize_from-grants want [] [] raw out (λ s known grants. ground (arith, known)) e,
)

scope_equal_self : (a : TokenScope) → scope_equal a a ≡ true
unfolding scope_equal
scope_equal_self read = refl
scope_equal_self write = refl
scope_equal_self (other_scope a) = equal_self a

granted-mem :
    (want : TokenScope) (l : List TokenScope)
    → scopes_grant want l ≡ true
    → Memᴰ want l ⊎ ((want ≡ read) × Memᴰ write l)
unfolding scopes_grant
granted-mem want [] g = ground arith
granted-mem want (x ∷ l) g = elim (Bool-cases (scope_equal x want)) [
  | inl same ↦ inl (Memᴰ.head (sym (scope_equal_sound x want same)))
  | inr other ↦ elim (Bool-cases (scope_equal want read && scope_equal x write)) [
    | inl implied ↦ inr (
      scope_equal_sound want read (ground (arith, implied)),
      Memᴰ.head (sym (scope_equal_sound x write (ground (arith, implied)))),
    )
    | inr neither ↦ elim (granted-mem want l (ground (arith, g, other, neither))) [
      | inl m ↦ inl (Memᴰ.tail m)
      | inr (e, m) ↦ inr (e, Memᴰ.tail m)
    ]
  ]
]

mem-granted : (want : TokenScope) (l : List TokenScope) → Memᴰ want l → scopes_grant want l ≡ true
unfolding scopes_grant
mem-granted want [] m = elim m [ ]
mem-granted want (x ∷ l) (Memᴰ.head e) =
    let same = subst (λ y. scope_equal y want ≡ true) e (scope_equal_self want) in
    ground (arith, same)
mem-granted want (x ∷ l) (Memᴰ.tail m) = ground (arith, mem-granted want l m)

write-grants_read : (l : List TokenScope) → Memᴰ write l → scopes_grant read l ≡ true
unfolding scopes_grant scope_equal
write-grants_read [] m = elim m [ ]
write-grants_read (x ∷ l) (Memᴰ.head e) =
    let same = subst (λ y. scope_equal y write ≡ true) e refl in ground (arith, same)
write-grants_read (x ∷ l) (Memᴰ.tail m) = ground (arith, write-grants_read l m)

write≢read : write ≡ read → ⊥
write≢read e = cc

-- A token has the scope read exactly when it lists read or write, and write exactly when it lists
-- write: write implies read and not the other way round.
pub has_scope_iff :
    (t : ApiToken)
    → ((has_scope t read ≡ true) ↔ (Memᴰ read t.scopes ⊎ Memᴰ write t.scopes))
      × ((can_write t ≡ true) ↔ Memᴰ write t.scopes)
unfolding has_scope can_write
has_scope_iff t = (
  (
    λ g. elim (granted-mem read t.scopes g) [ inl m ↦ inl m | inr (_, m) ↦ inr m ],
    λ m. elim m [ inl r ↦ mem-granted read t.scopes r | inr w ↦ write-grants_read t.scopes w ],
  ),
  (
    λ g. elim (granted-mem write t.scopes g) [ inl m ↦ m | inr (e, _) ↦ elim (write≢read e) [ ] ],
    mem-granted write t.scopes,
  ),
)
