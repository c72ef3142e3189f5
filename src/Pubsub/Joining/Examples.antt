-- ===== src/Pubsub/Joining/Examples.antt =====
-- carol joins a group in which alice is alone.
use zero_comm.Prelude.{
  Text, text, true, false, [], ◌∷◌, ◌++◌, some, ◌≡◌, refl, ok, ◌==◌, if◌then◌else◌,
}
use zero_comm.Prelude.Dict.{lookup, insert}
use zero_comm.Prelude.Base64.{encode}
use zero_comm.Prelude.Sort.{sort}
use zero_comm.Domain.{Group}
use zero_comm.Domain.MsgType as Types
use zero_comm.Validator.{calculate, order}
use zero_comm.Validator.Examples.{sample, sample-IsDigest, member, alice}
use zero_comm.Samples.Json.{
  join_requests, join_responses, join_requests-RoundTrips, join_responses-RoundTrips,
}
use zero_comm.Stores.Group.{Groups, params, membrs}
use zero_comm.Stores.Group.View.{view}
use zero_comm.Stores.Group.Members.{IsShaped, IsShaped-insert, or_else}
use zero_comm.Stores.Group.Invariant.{IsStore, IsStore-new}
use zero_comm.Transport.Peers.{connected}
use zero_comm.Pubsub.Node.{Outside, Node, reply_call}
use zero_comm.Pubsub.Agent.{own_member, compress_status, pack_each, pack_entry, notify_all}
use zero_comm.Pubsub.Agent.Examples.{speaker, single}
use zero_comm.Pubsub.Packer.{pack}
use zero_comm.Pubsub.Processor.{join_reqs}
use zero_comm.Pubsub.Requests.{
  req_state, subscribe_all, subscribe_to, try_member, connect_didcomm, connect_member, connect_all,
}
use zero_comm.Pubsub.Waiting.{wait_for_conns, compress_hellos, pack_hellos, greet}
use zero_comm.Pubsub.Admission.{Asking, request_of, answer_of}
use zero_comm.Pubsub.Scenarios.{chess, value, world, key_service, carol_node}
use zero_comm.Pubsub.Join.{join, enter, subscribe_members, verified, Course}
use zero_comm.Pubsub.Joining.{joined_view}

abbrev alone : Group
alone = record {
  topic = chess;
  checksum = [];
  members = some ((alice, member alice) ∷ []);
  group_params = some single;
  last_updated = 0;
}

abbrev host : Node
host = record speaker { gs = insert chess alone [] }

abbrev asked : Text
asked = value (join_requests.marshal (request_of (text "request") chess (text "inv") carol_node))

abbrev answer : Text
answer = value (join_responses.marshal (answer_of (text "2") single (member alice ∷ [])))

abbrev carol_world : Outside
carol_world = world (text "ca") alice (text "k" ++ answer)

abbrev host_world : Outside
host_world = world alice (text "ca") []

abbrev course : Course
course = record {
  now = 5;
  id = λ t. t;
  range_mems = λ m. m;
  later = carol_world;
  polls = ((alice, true) ∷ []) ∷ [];
}

asking :
    Asking carol_world host_world key_service
      (text "ca")
      alice
      asked
      (text "k" ++ asked)
      answer
      (text "k" ++ answer)
unfolding pack
asking = record {
  service = refl;
  request = refl;
  request_read = refl;
  reply = refl;
  responds = refl;
  reply_read = refl;
  requests_trip = join_requests-RoundTrips;
  same_requests = refl;
  responses_trip = join_responses-RoundTrips;
  same_responses = refl;
}

shaped : IsShaped host.gs
unfolding lookup
shaped =
    IsShaped-insert chess alone [] (record { labelled = (refl, tt); unique = (refl, tt) })
      (IsStore-new sample).shaped

joined_alone : (join carol_world course chess alice false carol_node).0 ≡ ok (some tt)
unfolding join enter req_state subscribe_members subscribe_all subscribe_to try_member
    connect_didcomm connect_member connect_all verified calculate order sort encode compress_status
    pack_each pack_entry notify_all pack wait_for_conns compress_hellos pack_hellos greet connected
    lookup insert zero_comm.Stores.Group.joined zero_comm.Stores.Group.set_params
    zero_comm.Stores.Group.add_membrs zero_comm.Stores.Group.membrs
    zero_comm.Stores.Group.recalculate zero_comm.Stores.Group.add_members
joined_alone = refl

joined_view_example :
    let after = (join carol_world course chess alice false carol_node).1 in
    (join_reqs host_world (text "2") Types.group_join (text "k" ++ asked) host
      ≡ (ok tt, record host { calls = reply_call (text "k" ++ answer) ∷ host.calls }))
    × ((l : Text)
        → view after.gs chess l ≡ (
            if text "ca" == l
            then some (own_member carol_node true false (text "inv"))
            else or_else (view host.gs chess l) (view carol_node.gs chess l)))
    × (params chess after.gs ≡ some single)
    × (IsStore sample carol_node.gs → IsStore sample after.gs)
unfolding params membrs lookup insert
joined_view_example =
    joined_view carol_world host_world course key_service alice asked (text "k" ++ asked) answer
      (text "k" ++ answer) (text "2") chess (text "inv") false carol_node host single (member alice)
      [] (some tt) asking refl refl refl refl refl sample-IsDigest shaped joined_alone
