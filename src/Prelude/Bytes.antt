-- ===== src/Prelude/Bytes.antt =====
-- A Go string or byte slice is the list of its bytes. Literals are ASCII.
use Prim.Native.Nat.{ℕ}
use Prim.Native.Char.{code}
use Prim.Native.String.{String}
use mathlib.Core.Path.{◌≡◌, refl}
use mathlib.Core.Logic.{◌↔◌, ◌≢◌}
use mathlib.Core.Bool.{Bool, true, false, ◌&&◌, ◌||◌}
use mathlib.Core.List.{List, [], ◌∷◌, ◌++◌}
use native.Mathlib.Omega.{arith}
use native.Mathlib.Decide.{ℕ_discrete}
use zero_comm.Prelude.Tests.{eqb}

abbrev pub Text : Type 0
Text = List ℕ

-- the bytes of a literal
abbrev pub text : String → Text
text String.[] = []
text (String.◌∷◌ c s) = code c ∷ text s

infix 50 ◌==◌
abbrev pub ◌==◌ : Text → Text → Bool
[] == [] = true
[] == (b ∷ t) = false
(a ∷ s) == [] = false
(a ∷ s) == (b ∷ t) = eqb a b && s == t

pub eq_refl : (s : Text) → (s == s) ≡ true
eq_refl [] = refl
eq_refl (a ∷ s) = ground (arith, eq_refl s)

eq_of_test : (s t : Text) → (s == t) ≡ true → s ≡ t
eq_of_test [] [] h = refl
eq_of_test [] (b ∷ t) h = cc
eq_of_test (a ∷ s) [] h = cc
eq_of_test (a ∷ s) (b ∷ t) h = ground (arith, eq_of_test s t)

pub eq_iff : (s t : Text) → ((s == t) ≡ true) ↔ (s ≡ t)
eq_iff s t = (eq_of_test s t, λ e. ground (arith, eq_refl s))

-- Two texts that the test tells apart are not equal.
pub ne_of_test : (s t : Text) → (s == t) ≡ false → s ≢ t
ne_of_test s t h e = ground (arith, eq_iff s t)

pub Text-discrete : Discrete Text
Text-discrete = hlevel ℕ_discrete

-- strings.HasPrefix
abbrev pub has_prefix : Text → Text → Bool
has_prefix s [] = true
has_prefix [] (b ∷ t) = false
has_prefix (a ∷ s) (b ∷ t) = eqb a b && has_prefix s t

-- strings.Contains
abbrev pub contains : Text → Text → Bool
contains [] t = has_prefix [] t
contains (a ∷ s) t = has_prefix (a ∷ s) t || contains s t

pub has_prefix-append : (s t : Text) → has_prefix (s ++ t) s ≡ true
has_prefix-append [] t = refl
has_prefix-append (a ∷ s) t = ground (arith, has_prefix-append s t)
