-- ===== src/Lib.antt =====
-- A verification library for ZeroComm, a DIDComm agent with group messaging over ZeroMQ, in Go.
--
-- An agent invites peers and connects to them by DID exchange (didcomm, prober), sends and reads
-- encrypted messages (crypto, prober), serves requests over a pair of sockets (reqrep/zmq), and is a
-- member of groups, whose state and data messages go over publisher and subscriber sockets (pubsub).
-- Group members agree on checksums of their views (pubsub/validator) and order messages by
-- timestamps (pubsub/syncer.go).
--
-- The modules and the code that they model:
--   Prelude: lists, bytes, results, maps as association lists, sorting, base64, byte buffers, and
--     methods that pass a state on; Samples: stand-ins for the tests.
--   Domain: domain/definitions.go, domain/models and domain/messages, field by field.
--   Validator: pubsub/validator/init.go. Order, Checksum, Majority, Verdict and Joiner are proofs.
--   Stores: pubsub/stores. Group has the invariant and an abstract view, a partial function from a
--     topic and a label to a member, which the operations implement, also in a row (History);
--     Subscriber has the keys.
--   Syncer: pubsub/syncer.go; Clocks is about one agent, Causality about two.
--   Transport: pubsub/transport. Topics are the topic names; Auth is auth.go; Sockets, Listeners and
--     Publisher are the functions of zmq.go; Replies and Closing, below Listeners, and Harmless, below
--     Publisher, are about the messages from the one to the other. Peers is peers.go, Messages is
--     messages.go.
--   Crypto: crypto. Keys is keys.go, Cipher is cipher.go, Packer is packer.go.
--   Didcomm: didcomm/did, didcomm/connection, didcomm/invitation and didcomm/discovery. Discovery
--     has the handler of queries, and Answers, below it, is about two agents.
--   Reqrep: reqrep/zmq/server.go and reqrep/zmq/client.go, which Exchange puts together; Mock is
--     reqrep/mock, with the goroutine of a callback in Mock.Callback; Http is reqrep/http/http.go.
--   Prober: prober. Peers is peers.go and dids.go; Agent, Connect, Recipient and Messaging are
--     agent.go. Handshake puts the two ends of a connection together.
--   Pubsub: the state is in Node. Processor has the handlers of pubsub/processor.go, Channels the
--     functions there that send on its internal channels, and Packer is pubsub/packer.go. Of
--     pubsub/agent.go, Agent has Create, Send, Leave and Info, Requests the calls that Join makes to
--     other members, Waiting its wait for connections, and Join the rest. Delivery, Departure,
--     Admission, Subscription, Joining and Greeting put two nodes together, at the runs in Scenarios.
--   Cli: cli/runner.go. Console reads and prints, Commands are the commands of the menu over the
--     interfaces of domain/services/core.go (Domain.Services), and Menu is the loop that reads them;
--     Creation puts a command and the group agent together.
--   Bootstrap: setConfigs of bootstrap.go, domain/container/init.go, log/init.go and the flags.
--
-- How the code is read. A string or a byte slice is the list of its bytes. A map is an association
-- list, and a range over it follows the list; what must not depend on the order is stated for all
-- orders. A nil pointer is `none`, and its dereference the result `panic`. An error is known by its
-- cause, without its text. A method takes the state and returns it beside the result, on every path;
-- a lock makes a method one step, and a goroutine's loop is one step for each message. An int64 is a
-- number that is raised by 2 ^ 63 and wraps.
--
-- What is not under the repository is a parameter: libsodium, SHA-256, base58, JSON, zstd and libzmq;
-- what they are documented to do stands as hypotheses of the theorems that need it (IsDigest, Opens,
-- RoundTrips, Counts, IsWorld, IsJson), and is met by stand-ins in the modules named Examples and in
-- Samples. Random values, uuids, the clock and the answers of the network are arguments. Where two
-- nodes meet, a record of hypotheses (Parting, Asking, Subscribing, Greeted) says which keys and
-- connections they have with one another, that a message is read as it was packed, and which calls
-- of the transport succeed.
--
-- Loops over lists are structural. The padding of a nonce runs on fuel of 25 rounds, which is enough
-- for its 24 bytes; the wait for a peer makes one attempt and the 10 retries of
-- domain/definitions.go. The wait for the connections of a group runs over a list of what it polls,
-- and waits on where the list ends. A session of the command line runs on fuel, of which one more than
-- the number of its input events is enough.
--
-- Not modelled: the scripts, which test the program from outside; the compactor, which makes an
-- encoder and a decoder of zstd; and the wiring of main.go and initContainer. Of pubsub/agent.go, what
-- the wait for connections polls is an argument of Join (the record Course), and the goroutines of
-- Join run in the order of the members. Log calls are left out, but for the logger itself. url.Parse
-- is a parameter, with the values of `oob` for its result. The functions of libsodium return for all
-- arguments: that their wrapper panics on a key of a wrong size is left out. A key that base64 or
-- base58 decoded is not nil, so that a call with one packs for it, whatever its length.
pub mod Prelude
mod Samples
pub mod Domain
pub mod Validator
pub mod Stores
pub mod Syncer
pub mod Transport
pub mod Crypto
pub mod Didcomm
pub mod Reqrep
pub mod Prober
pub mod Pubsub
pub mod Cli
pub mod Bootstrap
