-- ===== src/Pubsub/Greeting/Examples.antt =====
-- carol greets alice and bob, and alice answers.
use zero_comm.Prelude.{Text, text, true, [], ◌∷◌, ◌++◌, List, ◌≡◌, refl, ok, inl, ne_of_test}
use zero_comm.Prelude.Dict.{lookup}
use zero_comm.Domain.{Member, hello_prefix}
use zero_comm.Domain.MsgType.{status_ack}
use zero_comm.Validator.Examples.{member, alice, bob}
use zero_comm.Samples.Json.{statuses, statuses-RoundTrips}
use zero_comm.Transport.Peers.{Peers, acked, connected}
use zero_comm.Pubsub.Node.{Outside, message_call}
use zero_comm.Pubsub.Packer.{pack}
use zero_comm.Pubsub.Processor.{state}
use zero_comm.Pubsub.Agent.{pack_entry}
use zero_comm.Pubsub.Agent.Examples.{speaker}
use zero_comm.Pubsub.Waiting.{compress_hellos}
use zero_comm.Pubsub.Scenarios.{chess, value, world}
use zero_comm.Pubsub.Greeting.{Greeted, hello_of, hello_acknowledged}

abbrev pair : List Member
pair = member alice ∷ member bob ∷ []

abbrev sealed : Text → Text
sealed l = text "k" ++ hello_prefix

abbrev hello : Text
hello = value (statuses.marshal (hello_of (text "1") chess (text "ca") (λ l. l) sealed pair))

abbrev newcomer_world : Outside
newcomer_world = world (text "ca") alice []

abbrev alice_world : Outside
alice_world = world alice (text "ca") []

greeted : Greeted newcomer_world alice_world (λ l. l) sealed alice (text "ca")
unfolding pack_entry pack lookup
greeted = record {
  works = λ c. refl;
  packs = λ x. refl;
  statuses_trip = statuses-RoundTrips;
  same_statuses = refl;
  inflates = λ t. refl;
  own = λ l. refl;
  full = ne_of_test (sealed alice) [] refl;
  reads = refl;
  other = ne_of_test alice (text "ca") refl;
}

hello_acknowledged_example :
    (compress_hellos newcomer_world (text "1") chess pair ≡ ok hello)
    × (state alice_world hello speaker
        ≡ (ok tt, record speaker { calls = message_call status_ack (text "ca") (text "tcp") ∷ [] }))
    × ((seen : Peers) → connected (text "tcp") (acked (ok (alice, text "tcp")) seen) ≡ true)
hello_acknowledged_example =
    hello_acknowledged newcomer_world alice_world (λ l. l) sealed alice (text "ca") hello (text "1")
      chess pair speaker greeted
      (ne_of_test alice (text "ca") refl, (ne_of_test bob (text "ca") refl, tt)) (inl refl) refl
