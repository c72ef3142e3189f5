-- ===== src/Pubsub/Joining.antt =====
-- A Join of pubsub/agent.go at one node, whose request the handler of pubsub/processor.go answers at the
-- acceptor.
mod Examples
use zero_comm.Prelude.{
  Text, text, Bool, true, List, [], ◌∷◌, ◌++◌, Option, none, some, ◌≡◌, refl, ap, sym, ◌∙◌, ok,
  ◌==◌, eq_refl, if◌then◌else◌,
}
use zero_comm.Domain.{Member, GroupParams, Service, ResGroupJoin}
use zero_comm.Domain.MsgType.{group_join}
use zero_comm.Validator.Checksum.{IsDigest}
use zero_comm.Stores.Group.{membrs, members_at, params}
use zero_comm.Stores.Group.View.{view, added}
use zero_comm.Stores.Group.Members.{IsShaped, or_else, added-values-one}
use zero_comm.Stores.Group.Invariant.{IsStore}
use zero_comm.Pubsub.Node.{Outside, Node, reply_call}
use zero_comm.Pubsub.Agent.{own_member}
use zero_comm.Pubsub.Processor.{join_reqs}
use zero_comm.Pubsub.Requests.{req_state}
use zero_comm.Pubsub.Admission.{Asking, request_of, answer_of, state_shared}
use zero_comm.Pubsub.Join.{join, keep_inv, Course, Waits}
use zero_comm.Pubsub.Join.Entered.{join_enters}

module _ (o q : Outside) (c : Course) (s : Service)
    (acceptor asked sent answer replied rid topic inv : Text) (publisher : Bool) (n a : Node)
    (gp : GroupParams) (m : Member) (ms : List Member) where
  -- Where an acceptor with a well-formed store answers the request of a Join, and the Join returns
  -- no error, the newcomer has itself under its label in the group, under every other label the
  -- member that the acceptor has there, and the acceptor's parameters; its store stays well
  -- formed, and the acceptor sends this one reply. This holds of a Join that still waits for its
  -- connections, too. A label that the acceptor does not have keeps the member that the newcomer
  -- had.
  pub joined_view :
      (w : Waits)
      → Asking o q s n.my_label acceptor asked sent answer replied
      → params topic a.gs ≡ some gp
      → membrs topic a.gs ≡ m ∷ ms
      → o.invite ≡ ok inv
      → o.join_requests.marshal (request_of (c.id (text "request")) topic inv n) ≡ ok asked
      → q.join_responses.marshal (answer_of rid gp (m ∷ ms)) ≡ ok answer
      → IsDigest o.digest
      → IsShaped a.gs
      → (join o c topic acceptor publisher n).0 ≡ ok w
      → let after = (join o c topic acceptor publisher n).1 in
        (join_reqs q rid group_join sent a
          ≡ (ok tt, record a { calls = reply_call replied ∷ a.calls }))
        × ((l : Text)
            → view after.gs topic l ≡ (
                if n.my_label == l
                then some (own_member n true publisher inv)
                else or_else (view a.gs topic l) (view n.gs topic l)))
        × (params topic after.gs ≡ some gp)
        × (IsStore o.digest n.gs → IsStore o.digest after.gs)
  unfolding membrs view
  joined_view w k set full invited written answered digests shaped h =
      let (inv', group, invited', got, has, sets, keeps) =
        join_enters o c topic acceptor publisher n w digests h in
      let same_inv : inv' ≡ inv = cc in
      let (answers, gets) =
        state_shared o q s acceptor asked sent answer replied (c.id (text "request")) rid topic inv
          (keep_inv topic inv n).1 a gp m ms k set full written answered in
      let here : (req_state o (c.id (text "request")) topic acceptor inv (keep_inv topic inv n).1).0
          ≡ ok group =
        rw (← same_inv) got in
      let both : ok group ≡ ok (answer_of rid gp (m ∷ ms)) = sym here ∙ ap (λ r. r.0) gets in
      let same_group : group ≡ answer_of rid gp (m ∷ ms) = cc in
      let joiner : Text → Member = own_member n true publisher in
      (
        answers,
        (λ l.
            has topic l
            ∙ ap (λ g. added topic (g.members ++ joiner inv' ∷ []) (view n.gs) topic l) same_group
            ∙ ap (λ xs. added topic (xs ++ joiner inv' ∷ []) (view n.gs) topic l) (sym full)
            ∙ ap (λ i. added topic (membrs topic a.gs ++ joiner i ∷ []) (view n.gs) topic l)
                same_inv
            ∙ added-values-one topic (members_at a.gs topic) (joiner inv) (view n.gs) l
                (shaped.roster topic)),
        sets topic ∙ rw (eq_refl topic) (ap (λ g. some g.params) same_group),
        keeps,
      )
