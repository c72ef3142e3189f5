-- ===== src/Samples.antt =====
-- Stand-ins for the tests: a reversible encoding of numbers as bytes that are not zero, and one of
-- lists of texts as a text.
pub mod Json
use zero_comm.Prelude.{
  ℕ, zero, suc, ◌+◌, Text, List, [], ◌∷◌, ◌++◌, ◌≡◌, ◌≢◌, refl, arith, replicate, All, All-append,
}
use zero_comm.Prelude.Base64.{IsBytes}

-- A stand-in for a cipher whose output is bytes: every number in unary, ended by 2.
abbrev pub seal : Text → Text
seal [] = []
seal (c ∷ m) = replicate c 1 ++ 2 ∷ seal m

abbrev pub unseal : ℕ → Text → Text
unseal n [] = []
unseal n (zero ∷ t) = unseal n t
unseal n (suc zero ∷ t) = unseal (suc n) t
unseal n (suc (suc b) ∷ t) = n ∷ unseal 0 t

unseal-ones : (n c : ℕ) (t : Text) → unseal n (replicate c 1 ++ 2 ∷ t) ≡ (n + c) ∷ unseal 0 t
unseal-ones n zero t = ground arith
unseal-ones n (suc c) t = ground (arith, unseal-ones (suc n) c t)

pub unseal-seal : (m : Text) → unseal 0 (seal m) ≡ m
unseal-seal [] = refl
unseal-seal (c ∷ m) = ground (arith, unseal-ones 0 c (seal m), unseal-seal m)

ones-IsBytes : (c : ℕ) → IsBytes (replicate c 1)
ones-IsBytes zero = tt
ones-IsBytes (suc c) = (omega arith, ones-IsBytes c)

pub seal-IsBytes : (m : Text) → IsBytes (seal m)
seal-IsBytes [] = tt
seal-IsBytes (c ∷ m) =
    All-append _ (replicate c 1) (2 ∷ seal m) (ones-IsBytes c) (omega arith, seal-IsBytes m)

ones-nonzero : (c : ℕ) → All {A = ℕ} (λ b. b ≢ 0) (replicate c 1)
ones-nonzero zero = tt
ones-nonzero (suc c) = (omega arith, ones-nonzero c)

pub seal-nonzero : (m : Text) → All (λ b. b ≢ 0) (seal m)
seal-nonzero [] = tt
seal-nonzero (c ∷ m) =
    All-append _ (replicate c 1) (2 ∷ seal m) (ones-nonzero c) (omega arith, seal-nonzero m)

-- A stand-in for JSON: a list of texts, each ended by 0 and its numbers raised by one, and sealed.
abbrev raised : Text → Text → Text
raised [] r = 0 ∷ r
raised (c ∷ t) r = suc c ∷ raised t r

abbrev pub fields : List Text → Text
fields [] = []
fields (t ∷ ts) = raised t (fields ts)

abbrev prepend : ℕ → List Text → List Text
prepend c [] = (c ∷ []) ∷ []
prepend c (t ∷ ts) = (c ∷ t) ∷ ts

abbrev pub unfields : Text → List Text
unfields [] = []
unfields (zero ∷ r) = [] ∷ unfields r
unfields (suc c ∷ r) = prepend c (unfields r)

unfields-raised : (t r : Text) → unfields (raised t r) ≡ t ∷ unfields r
unfields-raised [] r = refl
unfields-raised (c ∷ t) r = rw (unfields-raised t r) refl

pub unfields-fields : (ts : List Text) → unfields (fields ts) ≡ ts
unfields-fields [] = refl
unfields-fields (t ∷ ts) = rw (unfields-raised t (fields ts)) (rw (unfields-fields ts) refl)

pub unfields-unseal : (ts : List Text) → unfields (unseal 0 (seal (fields ts))) ≡ ts
unfields-unseal ts = rw (unseal-seal (fields ts)) (unfields-fields ts)
