-- ===== src/Bytes/Base64.antt =====
-- base64.RawURLEncoding: six bits to a character, no padding.
use healthpage.Prelude.{
  ℕ, ◌+◌, ◌-◌, ◌*◌, ◌/◌, ◌%◌, ◌<◌, ◌≡◌, refl, ap, ◌∙◌, false, ◌&&◌, ◌||◌, Option, none, some, List,
  [], ◌∷◌, map, arith, ltb, leb, if◌then◌else◌, ◌==◌, nat_comparable, string_comparable, All, any,
}

-- the alphabet A-Z a-z 0-9 - _
unfoldable pub symbol : ℕ → ℕ
symbol n =
    if ltb n 26
    then n + b'A'
    else if ltb n 52
    then n + 71
    else if ltb n 62
    then n - 4
    else if n == 62
    then b'-'
    else b'_'

unfoldable pub index : ℕ → Option ℕ
index c =
    if leb b'A' c && leb c b'Z'
    then some (c - b'A')
    else if leb b'a' c && leb c b'z'
    then some (c - 71)
    else if leb b'0' c && leb c b'9'
    then some (c + 4)
    else if c == b'-'
    then some 62
    else if c == b'_'
    then some 63
    else none

-- the six-bit groups of a sequence of bytes, three bytes at a time
unfoldable pub groups : List ℕ → List ℕ
groups [] = []
groups (a ∷ []) = a / 4 ∷ (a % 4 * 16) ∷ []
groups (a ∷ b ∷ []) = a / 4 ∷ (a % 4 * 16 + b / 16) ∷ (b % 16 * 4) ∷ []
groups (a ∷ b ∷ c ∷ s) = a / 4 ∷ (a % 4 * 16 + b / 16) ∷ (b % 16 * 4 + c / 64) ∷ c % 64 ∷ groups s

-- EncodeToString
unfoldable pub encode : List ℕ → List ℕ
unfolding groups symbol
encode s = map symbol (groups s)

abbrev cons_some : ℕ → Option (List ℕ) → Option (List ℕ)
cons_some a none = none
cons_some a (some s) = some (a ∷ s)

abbrev cons_both : Option ℕ → Option (List ℕ) → Option (List ℕ)
cons_both none o = none
cons_both (some v) o = cons_some v o

-- Newlines are passed over; any other character outside the alphabet is an error.
unfoldable pub values : List ℕ → Option (List ℕ)
values [] = some []
values (c ∷ s) =
    let rest = values s in if c == 10 || c == 13 then rest else cons_both (index c) rest

-- Four groups are three bytes; at the end two are one byte and three are two, whose spare bits
-- are ignored; a single group is an error.
unfoldable pub bytes : List ℕ → Option (List ℕ)
bytes [] = some []
bytes (w ∷ []) = none
bytes (w ∷ x ∷ []) = some ((w * 4 + x / 16) ∷ [])
bytes (w ∷ x ∷ y ∷ []) = some ((w * 4 + x / 16) ∷ (x % 16 * 16 + y / 4) ∷ [])
bytes (w ∷ x ∷ y ∷ z ∷ s) =
    cons_some (w * 4 + x / 16)
      (cons_some (x % 16 * 16 + y / 4) (cons_some (y % 4 * 64 + z) (bytes s)))

abbrev bytes_of : Option (List ℕ) → Option (List ℕ)
bytes_of none = none
bytes_of (some vs) = bytes vs

-- DecodeString
unfoldable pub decode : List ℕ → Option (List ℕ)
unfolding values bytes index
decode s = bytes_of (values s)

abbrev pub AreBytes : List ℕ → Type 0
AreBytes = All (λ b. b < 256)

AreSextets : List ℕ → Type 0
AreSextets = All (λ v. v < 64)

index-symbol : (v : ℕ) → v < 64 → index (symbol v) ≡ some v
unfolding symbol index
index-symbol v h = ground arith

symbol_lem :
    (v : ℕ) → ((symbol v == 10) ≡ false) × ((symbol v == 13) ≡ false) × ((symbol v == b'.') ≡ false)
unfolding symbol
symbol_lem v = ground arith

values-symbols : (vs : List ℕ) → AreSextets vs → values (map symbol vs) ≡ some vs
unfolding values AreSextets
values-symbols [] h = refl
values-symbols (v ∷ vs) h = ground (arith, symbol_lem v, index-symbol v, values-symbols vs h.1)

groups-AreSextets : (s : List ℕ) → AreBytes s → AreSextets (groups s)
unfolding groups AreSextets
groups-AreSextets [] h = tt
groups-AreSextets (a ∷ []) h = omega arith
groups-AreSextets (a ∷ b ∷ []) h = omega arith
groups-AreSextets (a ∷ b ∷ c ∷ s) h =
    (omega arith, (omega arith, (omega arith, (omega arith, groups-AreSextets s h.1.1.1))))

bytes-groups : (s : List ℕ) → AreBytes s → bytes (groups s) ≡ some s
unfolding groups bytes
bytes-groups [] h = refl
bytes-groups (a ∷ []) h = ground arith
bytes-groups (a ∷ b ∷ []) h = ground arith
bytes-groups (a ∷ b ∷ c ∷ s) h = ground (arith, bytes-groups s h.1.1.1)

-- Decoding what was encoded gives the bytes back.
pub decode-encode : (s : List ℕ) → AreBytes s → decode (encode s) ≡ some s
unfolding decode encode
decode-encode s h =
    ap bytes_of (values-symbols (groups s) (groups-AreSextets s h)) ∙ bytes-groups s h

has_dot-symbols : (vs : List ℕ) → any (λ b. b == b'.') (map symbol vs) ≡ false
unfolding any
has_dot-symbols [] = refl
has_dot-symbols (v ∷ vs) = ground (arith, symbol_lem v, has_dot-symbols vs)

-- The alphabet has no dot.
pub has_dot-encode : (s : List ℕ) → any (λ b. b == b'.') (encode s) ≡ false
unfolding encode
has_dot-encode s = has_dot-symbols (groups s)
