-- ===== src/Pubsub/Join/Consistency.antt =====
-- What a Join that succeeds has verified.
use mathlib.Core.List.{Permᴰ}
use zero_comm.Prelude.{
  ◌<◌, Text, text, Bool, true, [], ◌≡◌, refl, arith, Result, ok, err, panic, ltb, length,
  Bool-cases, inl, inr, ◌++◌,
}
use zero_comm.Prelude.Dict.{Dict, IsMap}
use zero_comm.Prelude.Method.{>>=-next, lift}
use zero_comm.Domain.{ResGroupJoin, ResSubscribe, Member}
use zero_comm.Validator.{valid_join, calculate, Buckets}
use zero_comm.Validator.Joiner.{OthersReport, valid_join_ok, valid_join_iff}
use zero_comm.Stores.Group.{joined, set_params}
use zero_comm.Pubsub.Node.{Outside, Node, on_groups}
use zero_comm.Pubsub.Requests.{req_state, subscribe_all, connect_all}
use zero_comm.Pubsub.Join.Reports.{reported, IsMap-reported, connect_all-reported}
use zero_comm.Pubsub.Join.{
  join, enter, keep_inv, verified, verdict, subscribe_members, connect_members, verify_view, admit,
  begin, enter_as, ask, Course, Waits,
}

module _ (o : Outside) where
  verdict_consistent :
      (r : Result (Dict Text)) → verdict o true r ≡ ok tt → (h : Dict Text) × (r ≡ ok h)
  verdict_consistent (ok h) e = (h, refl)
  verdict_consistent (err why) e = cc
  verdict_consistent panic e = cc

  verified_consistent :
      (range_mems : Buckets → Buckets) (acceptor : Text) (group : ResGroupJoin) (hashes : Dict Text)
      → verified o range_mems acceptor group hashes ≡ ok tt
      → group.params.join_consistent ≡ true
      → 1 < length group.members
      → (all : Dict Text) × (valid_join o.digest range_mems acceptor group.members hashes ≡ ok all)
  unfolding verified
  verified_consistent range_mems acceptor group hashes e consistent many =
      let large : ltb 1 (length group.members) ≡ true = ground arith in
      verdict_consistent _ (rw consistent at (rw large at e))

  -- Where ValidJoin accepts the checksums that the members reported, all but the acceptor reported the one
  -- of the group.
  verified_agreed :
      (range_mems : Buckets → Buckets)
      → ((b : Buckets) → Permᴰ b (range_mems b))
      → (acceptor : Text) (group : ResGroupJoin) (hashes : Dict Text) → IsMap hashes
      → verified o range_mems acceptor group hashes ≡ ok tt
      → group.params.join_consistent ≡ true
      → 1 < length group.members
      → (sum : Text) × (calculate o.digest group.members ≡ ok sum)
        × OthersReport acceptor sum hashes
  verified_agreed range_mems covers acceptor group hashes u e consistent many =
      let (all, accepted) =
        verified_consistent range_mems acceptor group hashes e consistent many in
      let (sum, summed, valid) =
        valid_join_ok o.digest range_mems acceptor group.members hashes all accepted in
      (
        sum,
        summed,
        (valid_join_iff range_mems covers o.digest acceptor group.members hashes sum summed u).0
            valid,
      )

  module _ (c : Course) (topic acceptor : Text) (publisher : Bool) where
    -- The ids of the subscriptions
    abbrev ids : Text → Text
    ids l = c.id (text "subscribe" ++ l)

    module _ (group : ResGroupJoin) (joiner : Member) where
      subscribe_members-verified :
          (n : Node) {w : Waits}
          → (subscribe_members o c topic acceptor publisher group joiner n).0 ≡ ok w
          → (res : Dict ResSubscribe) × ((subscribe_all o ids topic publisher group.members n).0
              ≡ ok res)
            × (verified o c.range_mems acceptor group (reported res group.members []) ≡ ok tt)
      unfolding subscribe_members
      subscribe_members-verified n h =
          let (res, responses, h1) =
            >>=-next (subscribe_all o ids topic publisher group.members)
              (connect_members o c topic acceptor publisher group joiner) n h in
          let (hashes, connects, h2) =
            >>=-next (connect_all o topic publisher res group.members [])
              (verify_view o c topic acceptor publisher group joiner) _ h1 in
          let (_, v, _) =
            >>=-next (lift (verified o c.range_mems acceptor group hashes))
              (λ _. admit o c topic acceptor publisher group joiner) _ h2 in
          (
            res,
            responses,
            rw (← connect_all-reported o topic publisher res group.members [] _ connects) v,
          )

      enter-verified :
          (n : Node) {w : Waits}
          → (enter o c topic acceptor publisher group joiner n).0 ≡ ok w
          → (there : Node) × (res : Dict ResSubscribe) × ((subscribe_all o ids topic publisher
                group.members there).0
              ≡ ok res)
            × (verified o c.range_mems acceptor group (reported res group.members []) ≡ ok tt)
      unfolding enter
      enter-verified n h =
          let (_, _, h1) =
            >>=-next (on_groups (set_params topic group.params))
              (λ _. begin o c topic acceptor publisher group joiner) n h in
          let (res, responses, v) = subscribe_members-verified _ h1 in (_, res, responses, v)

    -- A Join that returns no error got a group from the acceptor, and responses of its members. If this
    -- group asks for consistent joins and has more than one member, every active member but the acceptor
    -- reported the checksum of the group in its response, where a member without a response counts with
    -- an empty one. This holds of a Join that still waits for its connections, too. The range over the
    -- buckets visits each once.
    pub join_verified :
        (n : Node) (w : Waits)
        → ((b : Buckets) → Permᴰ b (c.range_mems b))
        → (join o c topic acceptor publisher n).0 ≡ ok w
        → (inv : Text) × (there : Node) × (group : ResGroupJoin) × (res : Dict ResSubscribe)
          × ((req_state o (c.id (text "request")) topic acceptor inv (keep_inv topic inv n).1).0
              ≡ ok group)
          × ((subscribe_all o ids topic publisher group.members there).0 ≡ ok res)
          × (group.params.join_consistent ≡ true
              → 1 < length group.members
              → (sum : Text) × (calculate o.digest group.members ≡ ok sum)
                × OthersReport acceptor sum (reported res group.members []))
    unfolding join
    join_verified n w covers h = elim (Bool-cases (joined topic n.gs)) [
      | inl before ↦ cc (rw (before, join) at h)
      | inr fresh ↦
          let (inv, _, h1) =
            >>=-next (lift o.invite) (ask o c topic acceptor publisher) n (rw (fresh, join) at h) in
          let asked : Node = (keep_inv topic inv n).1 in
          let (group, got, h2) =
            >>=-next (req_state o (c.id (text "request")) topic acceptor inv)
              (enter_as o c topic acceptor publisher inv) asked h1 in
          let (there, res, responses, v) = enter-verified group _ _ h2 in
          (
            inv,
            there,
            group,
            res,
            got,
            responses,
            verified_agreed c.range_mems covers acceptor group (reported res group.members [])
                (IsMap-reported res group.members [] tt) v,
          )
    ]
