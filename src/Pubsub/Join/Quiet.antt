-- ===== src/Pubsub/Join/Quiet.antt =====
-- The calls of Join of pubsub/agent.go that leave the groups of the node, and its name, as they are.
use zero_comm.Prelude.{
  arith, ℕ, Text, Bool, true, false, List, [], ◌∷◌, ◌≡◌, refl, ◌∙◌, Result, ok, err, panic, Error,
  if◌then◌else◌, get_or,
}
use zero_comm.Prelude.Dict.{Dict, lookup}
use zero_comm.Prelude.Method.{Method, proceed, recover, lift}
use zero_comm.Domain.{Member, ResSubscribe, Peer}
use zero_comm.Stores.Group.{Groups}
use zero_comm.Transport.Peers.{Peers}
use zero_comm.Pubsub.Node.{Outside, Node, Call, call}
use zero_comm.Pubsub.Channels.{both_reply}
use zero_comm.Pubsub.Agent.{compress_status, notify_all}
use zero_comm.Pubsub.Waiting.{all_known, all_connected, greet, wait_for_conns}
use zero_comm.Pubsub.Requests.{
  req_state, connect_didcomm, subscribe_to, request, try_member, subscribe_all, connect_unknown,
  no_response, add_subscriber, connect_member, connect_all,
}

-- What these calls keep of a node
abbrev pub face : Node → Groups × Text × Text
face n = (n.gs, n.my_label, n.pub_endpoint)

pub record Kept {A : Type 0} (n : Node) (outcome : Result A × Node) : Type 0 where
  pub same : face outcome.1 ≡ face n

-- A method that keeps it
abbrev pub Quiet : {A : Type 0} → Method Node A → Type 0
Quiet m = (n : Node) → Kept n (m n)

module _ {A B : Type 0} {f : A → Method Node B} {n : Node} where
  pub Kept-proceed :
      {r : Result A} {k : Node} → Kept n (r, k) → ((a : A) → Quiet (f a)) → Kept n (proceed r f k)
  Kept-proceed {r = ok a} {k} h quiet = record { same = (quiet a k).same ∙ h.same }
  Kept-proceed {r = err e} h quiet = record { same = h.same }
  Kept-proceed {r = panic} h quiet = record { same = h.same }

  Kept-recover :
      {g : Error → Method Node B} {r : Result A} {k : Node}
      → Kept n (r, k)
      → ((a : A) → Quiet (f a))
      → ((e : Error) → Quiet (g e))
      → Kept n (recover r f g k)
  Kept-recover {r = ok a} {k} h quiet quiet_else = record { same = (quiet a k).same ∙ h.same }
  Kept-recover {r = err e} {k} h quiet quiet_else = record { same = (quiet_else e k).same ∙ h.same }
  Kept-recover {r = panic} h quiet quiet_else = record { same = h.same }

module _ {A : Type 0} where
  pub Quiet-lift : (r : Result A) → Quiet (lift r)
  Quiet-lift r n = record { same = refl }

  Quiet-if : (b : Bool) {m k : Method Node A} → Quiet m → Quiet k → Quiet (if b then m else k)
  Quiet-if true h i = h
  Quiet-if false h i = i

  Kept-if :
      (b : Bool) {n : Node} {p q : Result A × Node}
      → Kept n p
      → Kept n q
      → Kept n (if b then p else q)
  Kept-if true h i = h
  Kept-if false h i = i

module _ (o : Outside) where
  Quiet-call : (c : Call) → Quiet (call o c)
  Quiet-call c n = record { same = refl }

  Quiet-both_reply : (c : Call) → Quiet (both_reply o c)
  Quiet-both_reply c n = record {
    same =
        (Kept-proceed (Quiet-lift (o.state_reply c) (record n { calls = c ∷ n.calls }))
          λ u k. Quiet-lift (o.data_reply c) k).same;
  }

  Quiet-request : (typ : ℕ) (content endpoint : Text) → Quiet (request o typ content endpoint)
  Quiet-request typ content endpoint n = record { same = refl }

  pub Quiet-req_state : (id topic accptr inv : Text) → Quiet (req_state o id topic accptr inv)
  unfolding req_state
  Quiet-req_state id topic accptr inv n = record { same = ground arith }

  Quiet-connect_unknown : (m : Member) (r : Result Peer) → Quiet (connect_unknown o m r)
  Quiet-connect_unknown m (ok pr) n = Quiet-lift _ n
  Quiet-connect_unknown m (err e) n = Kept-proceed (Quiet-lift _ n) λ inv k. Quiet-call _ k
  Quiet-connect_unknown m panic n = Quiet-lift _ n

  Quiet-connect_didcomm : (m : Member) → Quiet (connect_didcomm o m)
  unfolding connect_didcomm
  Quiet-connect_didcomm m n = Quiet-connect_unknown m (o.peer_of m.label) n

  Quiet-subscribe_to :
      (id topic : Text) (publisher : Bool) (m : Member)
      → Quiet (subscribe_to o id topic publisher m)
  unfolding subscribe_to
  Quiet-subscribe_to id topic publisher m n = record { same = ground arith }

  Quiet-try_member :
      (id topic : Text) (publisher : Bool) (m : Member) → Quiet (try_member o id topic publisher m)
  unfolding try_member
  Quiet-try_member id topic publisher m n =
      Quiet-if m.active
        (λ n.
          Kept-recover
            (Kept-proceed (Quiet-connect_didcomm m n)
              λ u k. Quiet-subscribe_to id topic publisher m k)
            (λ r k. Quiet-lift _ k) λ e k. Quiet-lift _ k)
        (λ n. Quiet-lift _ n) n

  pub Quiet-subscribe_all :
      (id : Text → Text) (topic : Text) (publisher : Bool) (ms : List Member)
      → Quiet (subscribe_all o id topic publisher ms)
  unfolding subscribe_all
  Quiet-subscribe_all id topic publisher [] n = Quiet-lift _ n
  Quiet-subscribe_all id topic publisher (m ∷ ms) n =
      Kept-proceed (Quiet-try_member (id m.label) topic publisher m n)
        λ r k. Kept-proceed (Quiet-subscribe_all id topic publisher ms k) λ res k. Quiet-lift _ k

  Quiet-add_subscriber :
      (topic : Text) (m : Member) (publisher : Bool) → Quiet (add_subscriber o topic m publisher)
  Quiet-add_subscriber topic m false n = Quiet-lift _ n
  Quiet-add_subscriber topic m true n = record { same = ground arith }

  Quiet-connect_member :
      (topic : Text) (publisher : Bool) (m : Member) (res : ResSubscribe)
      → Quiet (connect_member o topic publisher m res)
  unfolding connect_member
  Quiet-connect_member topic publisher m res n =
      Kept-proceed (Quiet-both_reply _ n)
        λ u k. Kept-proceed (Quiet-both_reply _ k) λ u k. Quiet-add_subscriber topic m publisher k

  pub Quiet-connect_all :
      (topic : Text) (publisher : Bool) (res : Dict ResSubscribe) (ms : List Member)
      (hashes : Dict Text)
      → Quiet (connect_all o topic publisher res ms hashes)
  unfolding connect_all
  Quiet-connect_all topic publisher res [] hashes n = Quiet-lift _ n
  Quiet-connect_all topic publisher res (m ∷ ms) hashes n =
      Kept-if m.active
        (Kept-proceed
          (Quiet-connect_member topic publisher m (get_or (lookup m.label res) no_response) n)
          λ u k. Quiet-connect_all topic publisher res ms _ k)
        (Quiet-connect_all topic publisher res ms hashes n)

  Quiet-greet :
      (topic cmprsd : Text) (grp : List Member) (polls : List Peers)
      → Quiet (greet o topic cmprsd grp polls)
  unfolding greet
  Quiet-greet topic cmprsd grp [] n = Quiet-lift _ n
  Quiet-greet topic cmprsd grp (seen ∷ polls) n = Kept-proceed (Quiet-call _ n) λ u k.
      Quiet-if (all_connected seen grp) (λ k. Quiet-lift _ k) (Quiet-greet topic cmprsd grp polls) k

  pub Quiet-wait_for_conns :
      (id topic : Text) (grp : List Member) (polls : List Peers)
      → Quiet (wait_for_conns o id topic grp polls)
  unfolding wait_for_conns
  Quiet-wait_for_conns id topic grp polls n =
      Quiet-if (all_known o grp)
        (λ n. Kept-proceed (Quiet-lift _ n) λ cmprsd k. Quiet-greet topic cmprsd grp polls k)
        (λ n. Quiet-lift _ n) n

  Quiet-compress_status :
      (id topic : Text) (active publisher : Bool)
      → Quiet (compress_status o id topic active publisher)
  unfolding compress_status
  Quiet-compress_status id topic active publisher n = record { same = ground arith }

  pub Quiet-notify_all :
      (id topic : Text) (active publisher : Bool) → Quiet (notify_all o id topic active publisher)
  unfolding notify_all
  Quiet-notify_all id topic active publisher n =
      Kept-proceed (Quiet-compress_status id topic active publisher n) λ comprsd k. Quiet-call _ k
