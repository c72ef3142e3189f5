-- ===== src/Prelude/Buffer.antt =====
-- Byte buffers of a fixed size, with zero bytes where nothing was written.
use Prim.Native.Nat.{ℕ, zero, suc, ◌-◌, ◌≤◌}
use mathlib.Core.Path.{◌≡◌, refl}
use mathlib.Core.Logic.{◌≢◌}
use mathlib.Core.Bool.{Bool, true, false, ◌&&◌}
use mathlib.Core.List.{[], ◌∷◌, ◌++◌}
use native.Mathlib.Omega.{arith}
use zero_comm.Prelude.Tests.{eqb, leb, if◌then◌else◌}
use zero_comm.Prelude.Bytes.{Text}
use zero_comm.Prelude.Lists.{All, length, replicate}
use zero_comm.Prelude.Outcome.{Result, ok, panic, ◌>>=◌}

-- Encode into a buffer of `n` zero bytes: it panics if the buffer is too short.
unfoldable pub encode_into : ℕ → Text → Result Text
encode_into n t = if leb (length t) n then ok (t ++ replicate (n - length t) 0) else panic

trim_left : Text → Text
trim_left [] = []
trim_left (b ∷ t) = if eqb b 0 then trim_left t else b ∷ t

abbrev is_empty : Text → Bool
is_empty [] = true
is_empty (b ∷ t) = false

trim_right : Text → Text
trim_right [] = []
trim_right (b ∷ t) = let rest = trim_right t in if eqb b 0 && is_empty rest then [] else b ∷ rest

-- bytes.Trim(t, "\x00")
unfoldable pub trim : Text → Text
unfolding trim_left trim_right
trim t = trim_right (trim_left t)

trim_right-zeros : (n : ℕ) → trim_right (replicate n 0) ≡ []
unfolding trim_right
trim_right-zeros zero = refl
trim_right-zeros (suc n) = ground (arith, trim_right-zeros n)

trim_left-zeros : (n : ℕ) → trim_left (replicate n 0) ≡ []
unfolding trim_left
trim_left-zeros zero = refl
trim_left-zeros (suc n) = trim_left-zeros n

trim_right-padded : (t : Text) (n : ℕ) → All (λ c. c ≢ 0) t → trim_right (t ++ replicate n 0) ≡ t
unfolding trim_right
trim_right-padded [] n h = trim_right-zeros n
trim_right-padded (b ∷ t) n h = ground (arith, trim_right-padded t n h.1)

-- The text in a buffer comes back without the zero bytes behind it.
pub trim-padded : (t : Text) (n : ℕ) → All (λ c. c ≢ 0) t → trim (t ++ replicate n 0) ≡ t
unfolding trim
trim-padded [] n h = rw (trim_left-zeros n) refl
trim-padded (b ∷ t) n h = ground (arith, trim_right-padded (b ∷ t) n h)

pub encode_into-ok :
    (n : ℕ) (t : Text) → length t ≤ n → encode_into n t ≡ ok (t ++ replicate (n - length t) 0)
unfolding encode_into
encode_into-ok n t k = ground arith

pub trim-encode_into :
    (n : ℕ) (t : Text)
    → All (λ c. c ≢ 0) t
    → length t ≤ n
    → (encode_into n t >>= λ val. ok (trim val)) ≡ ok t
unfolding encode_into
trim-encode_into n t h k = ground (arith, trim-padded t (n - length t) h)
