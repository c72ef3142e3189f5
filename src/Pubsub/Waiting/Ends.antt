-- ===== src/Pubsub/Waiting/Ends.antt =====
-- When waitForConns of pubsub/agent.go returns, and what it has published by then.
use zero_comm.Prelude.{
  ℕ, zero, suc, Text, true, false, List, [], ◌∷◌, ◌++◌, none, some, ◌≡◌, ◌≢◌, ◌↔◌, refl, Result, ok,
  err, panic, All, length, is_some_iff, both_iff, false_of,
}
use zero_comm.Prelude.Dict.{lookup}
use zero_comm.Domain.{Member, Peer}
use zero_comm.Transport.Topics.{state_topic}
use zero_comm.Transport.Peers.{Peers, connected}
use zero_comm.Pubsub.Node.{Outside, Node, Call, publish_call}
use zero_comm.Pubsub.Waiting.{
  found, all_known, all_connected, compress_hellos, greet, wait_for_conns,
}

-- The prober has a connection with the member.
abbrev pub IsPeer : Outside → Member → Type 0
IsPeer o m = (pr : Peer) × (o.peer_of m.label ≡ ok pr)

-- The endpoint of the member is among those that acknowledged.
abbrev pub HasAcked : Peers → Member → Type 0
HasAcked seen m = lookup m.pub_endpoint seen ≢ none

found_iff : (r : Result Peer) → (found r ≡ true) ↔ ((pr : Peer) × (r ≡ ok pr))
found_iff (ok pr) = (λ e. (pr, refl), λ h. refl)
found_iff (err e) = (λ h. cc, λ h. cc (h.1))
found_iff panic = (λ h. cc, λ h. cc (h.1))

connected_iff :
    (seen : Peers) (m : Member) → (connected m.pub_endpoint seen ≡ true) ↔ HasAcked seen m
unfolding connected
connected_iff seen m = is_some_iff (lookup m.pub_endpoint seen)

all_connected_iff :
    (seen : Peers) (grp : List Member) → (all_connected seen grp ≡ true) ↔ All (HasAcked seen) grp
all_connected_iff seen [] = (λ e. tt, λ h. refl)
all_connected_iff seen (m ∷ ms) =
    let split = both_iff (connected m.pub_endpoint seen) (all_connected seen ms) in
    let one = connected_iff seen m in
    let others = all_connected_iff seen ms in
    ((λ e. let (a, b) = split.0 e in (one.0 a, others.0 b)), λ h. split.1 (one.1 h.0, others.1 h.1))

all_known_iff : (o : Outside) (grp : List Member) → (all_known o grp ≡ true) ↔ All (IsPeer o) grp
all_known_iff o [] = (λ e. tt, λ h. refl)
all_known_iff o (m ∷ ms) =
    let split = both_iff (found (o.peer_of m.label)) (all_known o ms) in
    let one = found_iff (o.peer_of m.label) in
    let others = all_known_iff o ms in
    ((λ e. let (a, b) = split.0 e in (one.0 a, others.0 b)), λ h. split.1 (one.1 h.0, others.1 h.1))

-- The trace after a number of publications of one message
abbrev pub published : ℕ → Call → List Call → List Call
published zero c calls = calls
published (suc k) c calls = published k c (c ∷ calls)

module _ (o : Outside) (topic cmprsd : Text) (grp : List Member)
    (works : o.outcome (publish_call (state_topic topic) cmprsd) ≡ ok tt) where
  abbrev hello : Call
  hello = publish_call (state_topic topic) cmprsd

  lacking : (p : Peers) → ¬ All (HasAcked p) grp → all_connected p grp ≡ false
  lacking p n = false_of (all_connected p grp) (all_connected_iff p grp) n

  greet-connected :
      (before : List Peers) (seen : Peers) (after : List Peers) (n : Node)
      → All (λ p. ¬ All (HasAcked p) grp) before
      → All (HasAcked seen) grp
      → greet o topic cmprsd grp (before ++ seen ∷ after) n
        ≡ (ok (some tt), record n { calls = published (suc (length before)) hello n.calls })
  unfolding greet
  greet-connected [] seen after n not_yet there =
      rw works (rw ((all_connected_iff seen grp).1 there) refl)
  greet-connected (p ∷ before) seen after n not_yet there = rw works (
      rw (lacking p not_yet.0)
        (greet-connected before seen after (record n { calls = hello ∷ n.calls }) not_yet.1 there))

  greet-waiting :
      (polls : List Peers) (n : Node)
      → All (λ p. ¬ All (HasAcked p) grp) polls
      → greet o topic cmprsd grp polls n
        ≡ (ok none, record n { calls = published (length polls) hello n.calls })
  unfolding greet
  greet-waiting [] n not_yet = refl
  greet-waiting (p ∷ polls) n not_yet = rw works (
      rw (lacking p not_yet.0)
        (greet-waiting polls (record n { calls = hello ∷ n.calls }) not_yet.1))

  -- The wait publishes nothing before every member of the group is a peer. Then it publishes the
  -- packed hellos once for each round, and nothing else, as long as a member has not acknowledged, and
  -- returns without an error in the first round after which all members have. The hellos are packed
  -- and the publications succeed.
  pub wait_for_conns_ends :
      (id : Text) (before : List Peers) (n : Node)
      → compress_hellos o id topic grp ≡ ok cmprsd
      → All (λ p. ¬ All (HasAcked p) grp) before
      → (¬ All (IsPeer o) grp → wait_for_conns o id topic grp before n ≡ (ok none, n))
        × (All (IsPeer o) grp
            → wait_for_conns o id topic grp before n
              ≡ (ok none, record n { calls = published (length before) hello n.calls }))
        × ((seen : Peers) (after : List Peers)
            → All (IsPeer o) grp
            → All (HasAcked seen) grp
            → wait_for_conns o id topic grp (before ++ seen ∷ after) n
              ≡ (ok (some tt), record n { calls = published (suc (length before)) hello n.calls }))
  unfolding wait_for_conns
  wait_for_conns_ends id before n packs not_yet = (
    (λ alone. rw (false_of (all_known o grp) (all_known_iff o grp) alone) refl),
    (λ known. rw ((all_known_iff o grp).1 known) (rw packs (greet-waiting before n not_yet))),
    λ seen after known there.
        rw ((all_known_iff o grp).1 known)
          (rw packs (greet-connected before seen after n not_yet there)),
  )
