-- ===== src/Prelude/Base64.antt =====
-- encoding/base64, StdEncoding and URLEncoding: both by an alphabet, with padding.
use zero_comm.Prelude.Tests.{ltb, eqb, eqb_iff, Bool-cases, if◌then◌else◌}
use zero_comm.Prelude.Bytes.{Text}
use zero_comm.Prelude.Lists.{length, All, All-map}
use zero_comm.Prelude.Outcome.{Result, ok, err, decoding, ◌>>=◌}
use Prim.Native.Nat.{ℕ, ◌+◌, ◌-◌, ◌*◌, ◌/◌, ◌%◌, ◌<◌}
use mathlib.Core.Path.{◌≡◌, refl}
use mathlib.Core.Logic.{◌≢◌, inl, inr}
use mathlib.Core.Bool.{◌||◌, Bool, true, false, ◌&&◌}
use mathlib.Core.Option.{Option, none, some}
use mathlib.Core.List.{[], ◌∷◌, ◌++◌}
use native.Mathlib.Omega.{arith}

pub data Alphabet : Type 0 where
  std url : Alphabet

-- The last two letters are `+` and `/`, or `-` and `_`.
abbrev pub letter_62 : Alphabet → ℕ
letter_62 std = 43
letter_62 url = 45

abbrev pub letter_63 : Alphabet → ℕ
letter_63 std = 47
letter_63 url = 95

letter : Alphabet → ℕ → ℕ
letter a n =
    if ltb n 26
    then n + 65
    else if ltb n 52
    then n + 71
    else if ltb n 62
    then n - 52 + 48
    else if eqb n 62
    then letter_62 a
    else letter_63 a

unletter : Alphabet → ℕ → Option ℕ
unletter a c =
    if ltb 64 c && ltb c 91
    then some (c - 65)
    else if ltb 96 c && ltb c 123
    then some (c - 71)
    else if ltb 47 c && ltb c 58
    then some (c + 4)
    else if eqb c (letter_62 a)
    then some 62
    else if eqb c (letter_63 a)
    then some 63
    else none

unletter-letter : (a : Alphabet) (n : ℕ) → n < 64 → unletter a (letter a n) ≡ some n
unfolding letter unletter
unletter-letter std n h = ground arith
unletter-letter url n h = ground arith

letter_bounds : (a : Alphabet) (n : ℕ) → n < 64 → (13 < letter a n) × (letter a n ≢ 61)
unfolding letter
letter_bounds std n h = ground arith
letter_bounds url n h = ground arith

-- EncodeToString
unfoldable pub encode : Alphabet → Text → Text
unfolding letter
encode a [] = []
encode a (x ∷ []) = letter a (x / 4) ∷ letter a (x % 4 * 16) ∷ 61 ∷ 61 ∷ []
encode a (x ∷ y ∷ []) =
    letter a (x / 4) ∷ letter a (x % 4 * 16 + y / 16) ∷ letter a (y % 16 * 4) ∷ 61 ∷ []
encode a (x ∷ y ∷ z ∷ s) =
    letter a (x / 4)
    ∷ letter a (x % 4 * 16 + y / 16)
    ∷ letter a (y % 16 * 4 + z / 64)
    ∷ letter a (z % 64)
    ∷ encode a s

-- Three bytes give four letters, and the last group is padded.
pub length-encode : (a : Alphabet) (s : Text) → length (encode a s) ≡ 4 * ((length s + 2) / 3)
unfolding encode
length-encode a [] = omega arith
length-encode a (x ∷ []) = omega arith
length-encode a (x ∷ y ∷ []) = omega arith
length-encode a (x ∷ y ∷ z ∷ s) = omega (arith, length-encode a s)

abbrev pub IsBytes : Text → Type 0
IsBytes = All (λ b. b < 256)

-- The encoding of bytes has no control character.
pub encode_graphic : (a : Alphabet) (s : Text) → IsBytes s → All (λ c. 13 < c) (encode a s)
unfolding encode
encode_graphic a [] h = tt
encode_graphic a (x ∷ []) h = ground (arith, letter_bounds a (x / 4), letter_bounds a (x % 4 * 16))
encode_graphic a (x ∷ y ∷ []) h = ground (
  arith,
  letter_bounds a (x / 4),
  letter_bounds a (x % 4 * 16 + y / 16),
  letter_bounds a (y % 16 * 4),
)
encode_graphic a (x ∷ y ∷ z ∷ s) h = ground (
  arith,
  letter_bounds a (x / 4),
  letter_bounds a (x % 4 * 16 + y / 16),
  letter_bounds a (y % 16 * 4 + z / 64),
  letter_bounds a (z % 64),
  encode_graphic a s h.1.1.1,
)

pub encode_nonzero : (a : Alphabet) (s : Text) → IsBytes s → All (λ c. c ≢ 0) (encode a s)
encode_nonzero a s h = All-map _ _ (encode a s) (λ c g. omega arith) (encode_graphic a s h)

-- DecodeString: line breaks are skipped, padding stands at the end only.
abbrev no_breaks : Text → Text
no_breaks [] = []
no_breaks (c ∷ s) = if eqb c 10 || eqb c 13 then no_breaks s else c ∷ no_breaks s

abbrev or_corrupt {ℓ} : {A : Type ℓ} → Option A → Result A
or_corrupt none = err decoding
or_corrupt (some a) = ok a

-- The last group of a padded text.
last_group : Alphabet → ℕ → ℕ → ℕ → Result Text
unfolding unletter
last_group a w x y = do
  i ← or_corrupt (unletter a w)
  j ← or_corrupt (unletter a x)
  if eqb y 61
      then ok ((i * 4 + j / 16) ∷ [])
      else do k ← or_corrupt (unletter a y); ok ((i * 4 + j / 16) ∷ (j % 16 * 16 + k / 4) ∷ [])

full_group : Alphabet → ℕ → ℕ → ℕ → ℕ → Result Text
unfolding unletter
full_group a w x y z = do
  i ← or_corrupt (unletter a w)
  j ← or_corrupt (unletter a x)
  k ← or_corrupt (unletter a y)
  l ← or_corrupt (unletter a z)
  ok ((i * 4 + j / 16) ∷ (j % 16 * 16 + k / 4) ∷ (k % 4 * 64 + l) ∷ [])

abbrev is_nil : Text → Bool
is_nil [] = true
is_nil (c ∷ s) = false

groups : Alphabet → Text → Result Text
unfolding last_group full_group
groups a [] = ok []
groups a (w ∷ x ∷ y ∷ z ∷ s) =
    let rest = groups a s in
    if eqb z 61 && is_nil s
    then last_group a w x y
    else do g ← full_group a w x y z; t ← rest; ok (g ++ t)
groups a _ = err decoding

unfoldable pub decode : Alphabet → Text → Result Text
unfolding groups
decode a s = groups a (no_breaks s)

no_breaks_of_graphic : (t : Text) → All (λ c. 13 < c) t → no_breaks t ≡ t
no_breaks_of_graphic [] h = refl
no_breaks_of_graphic (c ∷ t) h = ground (arith, no_breaks_of_graphic t h.1)

last_group_one :
    (a : Alphabet) (x : ℕ)
    → x < 256
    → last_group a (letter a (x / 4)) (letter a (x % 4 * 16)) 61 ≡ ok (x ∷ [])
unfolding last_group
last_group_one a x h =
    rw (unletter-letter a (x / 4) (omega arith), unletter-letter a (x % 4 * 16) (omega arith))
      (ground arith)

last_group_two :
    (a : Alphabet) (x y : ℕ)
    → x < 256
    → y < 256
    → last_group a (letter a (x / 4)) (letter a (x % 4 * 16 + y / 16)) (letter a (y % 16 * 4))
      ≡ ok (x ∷ y ∷ [])
unfolding last_group
last_group_two a x y h k =
    rw
      (
        unletter-letter a (x / 4) (omega arith),
        unletter-letter a (x % 4 * 16 + y / 16) (omega arith),
        unletter-letter a (y % 16 * 4) (omega arith),
      )
      (ground (arith, letter_bounds a (y % 16 * 4)))

full_group_three :
    (a : Alphabet) (x y z : ℕ)
    → x < 256
    → y < 256
    → z < 256
    → full_group a
        (letter a (x / 4))
        (letter a (x % 4 * 16 + y / 16))
        (letter a (y % 16 * 4 + z / 64))
        (letter a (z % 64))
      ≡ ok (x ∷ y ∷ z ∷ [])
unfolding full_group
full_group_three a x y z h k l =
    rw
      (
        unletter-letter a (x / 4) (omega arith),
        unletter-letter a (x % 4 * 16 + y / 16) (omega arith),
        unletter-letter a (y % 16 * 4 + z / 64) (omega arith),
        unletter-letter a (z % 64) (omega arith),
      )
      (ground arith)

groups_full :
    (a : Alphabet) (w x y z : ℕ) (s g t : Text)
    → z ≢ 61
    → full_group a w x y z ≡ ok g
    → groups a s ≡ ok t
    → groups a (w ∷ x ∷ y ∷ z ∷ s) ≡ ok (g ++ t)
unfolding groups
groups_full a w x y z s g t h p q = elim (Bool-cases (eqb z 61)) [
  | inl pad ↦ absurd (h ((eqb_iff z 61).0 pad))
  | inr full ↦ rw full (rw p (rw q refl))
]

groups-encode : (a : Alphabet) (s : Text) → IsBytes s → groups a (encode a s) ≡ ok s
unfolding groups encode
groups-encode a [] h = refl
groups-encode a (x ∷ []) h = last_group_one a x h.0
groups-encode a (x ∷ y ∷ []) h = last_group_two a x y h.0 h.1.0
groups-encode a (x ∷ y ∷ z ∷ s) h =
    groups_full a (letter a (x / 4)) (letter a (x % 4 * 16 + y / 16))
      (letter a (y % 16 * 4 + z / 64)) (letter a (z % 64)) (encode a s) (x ∷ y ∷ z ∷ []) s
      (letter_bounds a (z % 64) (omega arith)).1 (full_group_three a x y z h.0 h.1.0 h.1.1.0)
      (groups-encode a s h.1.1.1)

-- Bytes come back from their encoding.
pub decode-encode : (a : Alphabet) (s : Text) → IsBytes s → decode a (encode a s) ≡ ok s
unfolding decode
decode-encode a s h =
    rw (no_breaks_of_graphic (encode a s) (encode_graphic a s h)) (groups-encode a s h)
