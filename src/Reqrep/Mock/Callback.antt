-- ===== src/Reqrep/Mock/Callback.antt =====
-- The goroutine of initCallback of reqrep/mock/mocker.go over what its select receives: the messages of
-- the channel, and the timer, which fires at most once.
use zero_comm.Prelude.{
  ℕ, suc, ◌+◌, ◌<◌, ◌≤◌, Text, Bool, true, false, List, [], ◌∷◌, ◌++◌, map, ◌==◌, ◌≡◌, ap, sym, ◌∙◌,
  leb, if◌then◌else◌, arith,
}
use mathlib.Core.List.{append-nil}
use zero_comm.Prelude.Integer.{pos, equals}
use zero_comm.Prelude.Spaces.{decimal}
use zero_comm.Reqrep.Mock.{ReqRegAck}

pub data Signal : Type 0 where
  came : Text → Signal
  fired : Signal

-- The posts in the order in which they are sent, and whether the goroutine returned, which unregisters
-- the channel
pub record Progress : Type 0 where
  pub posts : List (Text × Text)
  pub returned : Bool

abbrev pub post : Text × Text → Progress → Progress
post p g = record { posts = p ∷ g.posts; returned = g.returned }

abbrev pub callback_res : ReqRegAck → ℕ → Text × Text
callback_res w n = (w.callback_endpoint, decimal n)

unfoldable pub collect : ReqRegAck → ℕ → List Signal → Progress
collect w n [] = record { posts = []; returned = false }
collect w n (came m ∷ ss) =
    let same = collect w n ss in
    let more = collect w (n + 1) ss in
    if m == w.msg
    then if equals (n + 1) w.count
      then record { posts = callback_res w (n + 1) ∷ []; returned = true }
      else more
    else same
collect w n (fired ∷ ss) = post (callback_res w n) (collect w n ss)

-- how many messages are the one that is waited for
abbrev pub hits : Text → List Text → ℕ
hits m [] = 0
hits m (t ∷ ts) = if t == m then suc (hits m ts) else hits m ts

abbrev pub messages : List Text → List Signal
messages ts = map came ts

module _ (w : ReqRegAck) (k : ℕ) (counts : w.count ≡ pos k) where
  -- Where enough messages come, the goroutine returns and posts the count, whatever follows.
  collect-enough :
      (ts : List Text) (n : ℕ) (ss : List Signal)
      → n < k
      → k ≤ n + hits w.msg ts
      → collect w n (messages ts ++ ss)
        ≡ (record { posts = callback_res w k ∷ []; returned = true })
  unfolding collect
  collect-enough [] n ss few enough = ground arith
  collect-enough (t ∷ ts) n ss few enough =
      rw counts (ground (arith, collect-enough ts n ss few, collect-enough ts (n + 1) ss))

  -- Where too few come, it goes on with its count.
  collect-few :
      (ts : List Text) (n : ℕ) (ss : List Signal)
      → n + hits w.msg ts < k
      → collect w n (messages ts ++ ss) ≡ collect w (n + hits w.msg ts) ss
  unfolding collect
  collect-few [] n ss few = ap (λ m. collect w m ss) (omega arith)
  collect-few (t ∷ ts) n ss few =
      rw counts (ground (arith, collect-few ts n ss, collect-few ts (n + 1) ss))

  collect-stops :
      (ts : List Text) (n : ℕ)
      → n + hits w.msg ts < k
      → collect w n (messages ts) ≡ (record { posts = []; returned = false })
  unfolding collect
  collect-stops ts n few =
      ap (collect w n) (sym (append-nil (messages ts))) ∙ collect-few ts n [] few

  collect-all :
      (ts : List Text) (n : ℕ)
      → n < k
      → k ≤ n + hits w.msg ts
      → collect w n (messages ts) ≡ (record { posts = callback_res w k ∷ []; returned = true })
  collect-all ts n few enough =
      ap (collect w n) (sym (append-nil (messages ts))) ∙ collect-enough ts n [] few enough

  -- Where the timer fires between the messages `ts` and `ls`, the callback gets the count once if enough of
  -- `ts` are the message that is waited for. If not, it gets the number of these first, and the goroutine
  -- goes on; the callback gets the count as well if enough messages come after all. The count is positive.
  pub callback_outcome :
      (ts ls : List Text)
      → 0 < k
      → collect w 0 (messages ts ++ fired ∷ messages ls) ≡ (
          if leb k (hits w.msg ts)
          then record { posts = callback_res w k ∷ []; returned = true }
          else if leb k (hits w.msg ts + hits w.msg ls)
          then record {
            posts = callback_res w (hits w.msg ts) ∷ callback_res w k ∷ [];
            returned = true;
          }
          else record { posts = callback_res w (hits w.msg ts) ∷ []; returned = false })
  unfolding collect
  callback_outcome ts ls some_wanted = ground (
    arith,
    collect-enough ts 0 (fired ∷ messages ls),
    collect-few ts 0 (fired ∷ messages ls),
    collect-all ls (hits w.msg ts),
    collect-stops ls (hits w.msg ts),
  )
