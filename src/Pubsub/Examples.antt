-- ===== src/Pubsub/Examples.antt =====
-- Tests of pubsub/processor.go, and its theorems at a concrete node.
use zero_comm.Prelude.{
  Text, text, true, false, [], ◌∷◌, none, some, ◌≡◌, refl, ok, err, marshalling, no_peer,
  no_service, ◌++◌, Codec, ne_of_test, ◌==◌, ◌&&◌, if◌then◌else◌,
}
use zero_comm.Domain.{Member, Status, hello_prefix}
use zero_comm.Validator.Examples.{sample, sample-IsDigest, member, bob, carol}
use zero_comm.Stores.Group.View.{view}
use zero_comm.Stores.Group.Invariant.{IsStore}
use zero_comm.Stores.Group.Examples.{two}
use zero_comm.Stores.Subscriber.{key_of}
use zero_comm.Pubsub.Node.{Outside, Node}
use zero_comm.Pubsub.Processor.{state, intended, extract_status}
use zero_comm.Pubsub.Processor.Membership.{Carries, state_admits, state_expels}

abbrev pub chess_status : Status
chess_status = record {
  id = text "1";
  typ = [];
  topic = text "ch";
  auth_msgs = (text "x", text "sealed") ∷ [];
}

abbrev pub nothing : {A : Type 0} → Codec A
nothing = record { marshal = λ a. err marshalling; unmarshal = λ t. err marshalling }

-- Everything that is reached outside works, and a status holds the given member.
abbrev pub outside : Member → Outside
outside m = record {
  digest = sample;
  clocks = nothing;
  read_message = λ t c. ok (text "al", text "member");
  valid_conn = λ t. true;
  outcome = λ c. ok tt;
  state_reply = λ c. ok tt;
  data_reply = λ c. ok tt;
  seal = λ t k own prv. ok (record { protected = k; iv = []; ciphertext = t; tag = [] });
  envelopes = record {
    marshal = λ a. ok (a.protected ++ a.ciphertext);
    unmarshal = λ t. err marshalling;
  };
  invite = ok (text "inv");
  peer_of = λ l. err no_peer;
  service = λ s l. err no_service;
  sync_service = λ s l. err no_service;
  public_key = λ l. ok (text "k");
  private_key = λ l. ok (text "p");
  respond = λ t c e. ok c;
  oob_of = λ u. ok u;
  encode_all = λ t. t;
  base58_encode = λ t. t;
  decode_all = λ t. ok t;
  base58_decode = λ t. t;
  statuses = record { marshal = λ s. ok []; unmarshal = λ t. ok chess_status };
  members = record { marshal = λ x. ok []; unmarshal = λ t. ok m };
  subscribes = nothing;
  sub_responses = nothing;
  join_requests = nothing;
  join_responses = nothing;
}

abbrev pub node : Node
node = record {
  my_label = text "me";
  pub_endpoint = text "tcp";
  servr_pub_key = [];
  client_pub_key = [];
  gs = two;
  subs = [];
  syncr = record { id = 1; ts_map = [] };
  invs = [];
  ack_chans = [];
  acked = [];
  calls = [];
  out = [];
}

carries : (m : Member) → Carries (outside m) (text "z") chess_status (text "al") (text "member")
unfolding extract_status intended
carries m = record { extracted = refl; present = ne_of_test (text "sealed") [] refl; reads = refl }

abbrev carol_in : Member
carol_in = record (member carol) { active = true }

state_admits_example :
    let after = (state (outside carol_in) (text "z") node).1 in
    ((state (outside carol_in) (text "z") node).0 ≡ ok tt)
    × ((t l : Text)
        → view after.gs t l
          ≡ (if text "ch" == t && carol_in.label == l then some carol_in else view two t l))
    × (IsStore sample two → IsStore sample after.gs)
    × (after.calls ≡ [])
state_admits_example =
    state_admits (outside carol_in) (text "z") chess_status (text "al") (text "member") carol_in
      node sample-IsDigest (carries carol_in) (ne_of_test (text "member") hello_prefix refl) refl
      refl

abbrev bob_out : Member
bob_out = record (member bob) { active = false }

state_expels_example :
    let after = (state (outside bob_out) (text "z") node).1 in
    ((t l : Text)
      → view after.gs t l ≡ (if text "ch" == t && bob_out.label == l then none else view two t l))
    × ((t l : Text)
        → key_of t l after.subs
          ≡ (if text "ch" == t && bob_out.label == l then none else key_of t l []))
    × (IsStore sample two → IsStore sample after.gs)
state_expels_example =
    state_expels (outside bob_out) (text "z") chess_status (text "al") (text "member") bob_out node
      sample-IsDigest (carries bob_out) (ne_of_test (text "member") hello_prefix refl) refl refl
      (λ c. (refl, refl))
