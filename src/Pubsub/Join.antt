-- ===== src/Pubsub/Join.antt =====
-- Join of pubsub/agent.go.
pub mod Consistency
pub mod Reports
pub mod Quiet
pub mod Entered
use zero_comm.Prelude.{
  ℕ, Text, text, Bool, true, false, List, [], ◌∷◌, ◌++◌, Option, none, some, Result, ok, err, panic,
  already_joined, inconsistent, if◌then◌else◌, length, ltb,
}
use zero_comm.Prelude.Dict.{Dict, insert}
use zero_comm.Prelude.Method.{Method, modify, ◌>>=◌, ◌>>◌, lift, pure}
use zero_comm.Domain.{Member, GroupParams, ResGroupJoin, ResSubscribe}
use zero_comm.Validator.{valid_join, Buckets}
use zero_comm.Stores.Group.{add_membrs, set_params, joined}
use zero_comm.Syncer.{init}
use zero_comm.Transport.Peers.{Peers}
use zero_comm.Pubsub.Node.{Outside, Node, on_groups}
use zero_comm.Pubsub.Agent.{own_member, notify_all}
use zero_comm.Pubsub.Waiting.{wait_for_conns}
use zero_comm.Pubsub.Requests.{req_state, subscribe_all, connect_all}

-- What a Join meets on its way: the clock, the uuids of its messages, the order in which the buckets
-- of the hashes are visited, the answers from the end of checkPeer on, and the acknowledged endpoints
-- after each hello.
pub record Course : Type 0 where
  pub now : ℕ
  pub id : Text → Text
  pub range_mems : Buckets → Buckets
  pub later : Outside
  pub polls : List Peers

abbrev pub keep_inv : Text → Text → Method Node (Unit {0})
keep_inv topic inv = modify (λ k. record k { invs = insert topic inv k.invs })

abbrev pub start_clock : ℕ → Text → GroupParams → Method Node (Unit {0})
start_clock now topic gp =
    modify (λ k. record k { syncr = if gp.order_enabled then init topic now k.syncr else k.syncr })

module _ (o : Outside) where
  -- An inconsistent view refuses the join only in a group that asks for it.
  abbrev pub verdict : Bool → Result (Dict Text) → Result (Unit {0})
  verdict consistent (ok h) = ok tt
  verdict consistent (err e) = if consistent then err inconsistent else ok tt
  verdict consistent panic = panic

  unfoldable pub verified :
      (Buckets → Buckets) → Text → ResGroupJoin → Dict Text → Result (Unit {0})
  verified range_mems acceptor group hashes =
      if ltb 1 (length group.members)
      then verdict group.params.join_consistent
          (valid_join o.digest range_mems acceptor group.members hashes)
      else ok tt

-- A Join that still waits for the connections has not returned; its result is `none`.
abbrev pub Waits : Type 0
Waits = Option (Unit {0})

module _ (o : Outside) (c : Course) (topic acceptor : Text) (publisher : Bool) where
  abbrev pub announce : Waits → Method Node Waits
  announce none = pure none
  announce (some u) = do
    notify_all c.later (c.id (text "status")) topic true publisher
    pure (some tt)

  -- The parts of Join from the acceptor's response on, the last one first
  module _ (group : ResGroupJoin) (joiner : Member) where
    abbrev pub admit : Method Node Waits
    admit = do
      on_groups (add_membrs o.digest topic (group.members ++ joiner ∷ []))
      waited ← wait_for_conns c.later (c.id (text "hello")) topic group.members c.polls
      announce waited

    abbrev pub verify_view : Dict Text → Method Node Waits
    verify_view hashes = lift (verified o c.range_mems acceptor group hashes) >> admit

    abbrev pub connect_members : Dict ResSubscribe → Method Node Waits
    connect_members res = connect_all o topic publisher res group.members [] >>= verify_view

    unfoldable pub subscribe_members : Method Node Waits
    subscribe_members =
        subscribe_all o (λ l. c.id (text "subscribe" ++ l)) topic publisher group.members
        >>= connect_members

    abbrev pub begin : Method Node Waits
    begin = start_clock c.now topic group.params >> subscribe_members

    unfoldable pub enter : Method Node Waits
    enter = on_groups (set_params topic group.params) >> begin

  abbrev pub enter_as : Text → ResGroupJoin → Method Node Waits
  enter_as inv group n = enter group (own_member n true publisher inv) n

  abbrev pub ask : Text → Method Node Waits
  ask inv = do
    keep_inv topic inv
    group ← req_state o (c.id (text "request")) topic acceptor inv
    enter_as inv group

  unfoldable pub join : Method Node Waits
  join n = if joined topic n.gs then (err already_joined, n) else (lift o.invite >>= ask) n
