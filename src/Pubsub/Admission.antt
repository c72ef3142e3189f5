-- ===== src/Pubsub/Admission.antt =====
-- The group-join request of pubsub/agent.go on one node, answered by the handler of
-- pubsub/processor.go on another.
use zero_comm.Prelude.{
  Text, List, ◌∷◌, some, none, ◌≡◌, refl, arith, ok, RoundTrips, unmarshal-marshalled,
}
use zero_comm.Domain.{
  Member, GroupParams, Service, ReqGroupJoin, ResGroupJoin, servc_group_join, join_request_v1,
  join_response_v1,
}
use zero_comm.Domain.MsgType.{group_join}
use zero_comm.Stores.Group.{Groups, membrs, params, mode, order_enabled, join_consistent}
use zero_comm.Pubsub.Node.{Outside, Node, reply_call, request_call}
use zero_comm.Pubsub.Packer.{pack}
use zero_comm.Pubsub.Processor.{join_reqs}
use zero_comm.Pubsub.Requests.{req_state}

params_parts :
    (topic : Text) (gs : Groups) (gp : GroupParams)
    → params topic gs ≡ some gp
    → (order_enabled topic gs ≡ ok gp.order_enabled)
      × (join_consistent topic gs ≡ ok gp.join_consistent)
      × (mode topic gs ≡ ok gp.mode)
unfolding params order_enabled join_consistent mode
params_parts topic gs gp e = ground arith

abbrev pub request_of : Text → Text → Text → Node → ReqGroupJoin
request_of id topic inv n = record {
  id = id;
  typ = join_request_v1;
  label = n.my_label;
  topic = topic;
  requester_inv = inv;
}

abbrev pub answer_of : Text → GroupParams → List Member → ResGroupJoin
answer_of id gp mems = record { id = id; typ = join_response_v1; params = gp; members = mems }

-- The connection between a newcomer and an acceptor: each reads what the other packed for it, the
-- response to the request is what the acceptor replied, and JSON reads what it wrote.
pub record Asking (o q : Outside) (s : Service) (me acceptor asked sent answer replied : Text)
    : Type 0 where
  pub service : o.sync_service servc_group_join acceptor ≡ ok s
  pub request : pack o acceptor (some s.pub_key) asked ≡ ok sent
  pub request_read : q.read_message group_join sent ≡ ok (me, asked)
  pub reply : pack q me none answer ≡ ok replied
  pub responds : o.respond group_join sent s.endpoint ≡ ok replied
  pub reply_read : o.read_message group_join replied ≡ ok (acceptor, answer)
  pub requests_trip : RoundTrips o.join_requests
  pub same_requests : q.join_requests ≡ o.join_requests
  pub responses_trip : RoundTrips q.join_responses
  pub same_responses : o.join_responses ≡ q.join_responses

module _ (o q : Outside) (s : Service) (acceptor asked sent answer replied id rid topic inv : Text)
    (n a : Node) (gp : GroupParams) (m : Member) (ms : List Member) where
  -- A newcomer that asks an acceptor for the state of a group, of which the acceptor knows members and
  -- parameters, gets these members and these parameters; the acceptor sends this one reply, and neither
  -- node changes but for the trace of its calls.
  pub state_shared :
      Asking o q s n.my_label acceptor asked sent answer replied
      → params topic a.gs ≡ some gp
      → membrs topic a.gs ≡ m ∷ ms
      → o.join_requests.marshal (request_of id topic inv n) ≡ ok asked
      → q.join_responses.marshal (answer_of rid gp (m ∷ ms)) ≡ ok answer
      → (join_reqs q rid group_join sent a
          ≡ (ok tt, record a { calls = reply_call replied ∷ a.calls }))
        × (req_state o id topic acceptor inv n ≡ (
          ok (answer_of rid gp (m ∷ ms)),
          record n { calls = request_call group_join sent s.endpoint ∷ n.calls },
        ))
  unfolding join_reqs req_state
  state_shared k set full written answered =
      let (ordered, consistent, how) = params_parts topic a.gs gp set in
      let read =
        unmarshal-marshalled o.join_requests q.join_requests (request_of id topic inv n) asked
          k.requests_trip k.same_requests written in
      let back =
        unmarshal-marshalled q.join_responses o.join_responses (answer_of rid gp (m ∷ ms)) answer
          k.responses_trip k.same_responses answered in
      (
        rw k.request_read (
            rw read
              (rw full (rw ordered (rw consistent (rw how (rw answered (rw k.reply refl))))))),
        rw k.service (rw written (rw k.request (rw k.responds (rw k.reply_read (rw back refl))))),
      )
