-- ===== src/Prelude/Spaces.antt =====
-- strings.TrimSpace, the comparison of strings.ToLower with an ASCII text, and strconv.Itoa.
use Prim.Native.Nat.{ℕ, zero, suc, ◌+◌, ◌/◌, ◌%◌}
use mathlib.Core.Bool.{◌&&◌}
use mathlib.Core.List.{List, [], ◌∷◌, map}
use mathlib.Core.Option.{Option, none, some}
use zero_comm.Prelude.Tests.{eqb, leb, ltb, if◌then◌else◌}
use zero_comm.Prelude.Lists.{length}
use zero_comm.Prelude.Bytes.{Text}

abbrev pub reverse_onto {ℓ} : {A : Type ℓ} → List A → List A → List A
reverse_onto [] ys = ys
reverse_onto (x ∷ xs) ys = reverse_onto xs (x ∷ ys)

abbrev pub reverse {ℓ} : {A : Type ℓ} → List A → List A
reverse xs = reverse_onto xs []

-- The last byte of U+2000 to U+200A, and of U+2028, U+2029 and U+202F
abbrev wide_ends : List ℕ
wide_ends = 128 ∷ 129 ∷ 130 ∷ 131 ∷ 132 ∷ 133 ∷ 134 ∷ 135 ∷ 136 ∷ 137 ∷ 138 ∷ 168 ∷ 169 ∷ 175 ∷ []

-- unicode.IsSpace: the white space of Unicode in UTF-8
abbrev pub spaces : List Text
spaces =
    (9 ∷ [])
    ∷ (10 ∷ [])
    ∷ (11 ∷ [])
    ∷ (12 ∷ [])
    ∷ (13 ∷ [])
    ∷ (32 ∷ [])
    ∷ (194 ∷ 133 ∷ [])
    ∷ (194 ∷ 160 ∷ [])
    ∷ (225 ∷ 154 ∷ 128 ∷ [])
    ∷ (226 ∷ 129 ∷ 159 ∷ [])
    ∷ (227 ∷ 128 ∷ 128 ∷ [])
    ∷ map (λ b. 226 ∷ 128 ∷ b ∷ []) wide_ends

-- what stands after a prefix
abbrev pub without_prefix : Text → Text → Option Text
without_prefix [] t = some t
without_prefix (a ∷ s) [] = none
without_prefix (a ∷ s) (b ∷ t) = if eqb a b then without_prefix s t else none

abbrev pub without_any : List Text → Text → Option Text
without_any [] t = none
without_any (s ∷ ss) t = elim (without_prefix s t) [
  | some rest ↦ some rest
  | none ↦ without_any ss t
]

-- Each round takes one prefix off; a text has no more of them than bytes.
unfoldable pub strip : List Text → ℕ → Text → Text
strip ss zero t = t
strip ss (suc n) t = elim (without_any ss t) [ none ↦ t | some rest ↦ strip ss n rest ]

unfoldable pub trim_space : Text → Text
trim_space t =
    let left = reverse (strip spaces (length t) t) in
    reverse (strip (map reverse spaces) (length left) left)

abbrev pub lower : ℕ → ℕ
lower b = if leb 65 b && leb b 90 then b + 32 else b

-- The ASCII letters in lower case. That is exact for a comparison with y or n, which are the lower
-- case of no other letter.
abbrev pub to_lower : Text → Text
to_lower t = map lower t

unfoldable pub digits : ℕ → ℕ → Text → Text
digits zero n ds = ds
digits (suc fuel) n ds =
    let here = (48 + n % 10) ∷ ds in if ltb n 10 then here else digits fuel (n / 10) here

-- A number is not smaller than the number of its digits less one.
unfoldable pub decimal : ℕ → Text
unfolding digits
decimal n = digits (suc n) n []
