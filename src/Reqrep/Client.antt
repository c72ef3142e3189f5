-- ===== src/Reqrep/Client.antt =====
-- reqrep/zmq/client.go. A sender is a goroutine with a channel of its own, known by its endpoint:
-- the map says whether it still receives. One Send is one step; what the socket does is an argument.
use zero_comm.Prelude.{
  ℕ, Text, Bool, true, false, List, [], ◌∷◌, Option, none, some, Result, ok, Error, sending,
  receiving, marshalling, decoding, ◌==◌, if◌then◌else◌, map,
}
use zero_comm.Prelude.Dict.{Dict, lookup, insert}
use zero_comm.Domain.{msg_terminate}
use zero_comm.Domain.MsgType.{terminate}
use zero_comm.Reqrep.Server.{failed_res}

abbrev pub Client : Type 0
Client = Dict Bool

abbrev pub new_client : Client
new_client = []

-- What Send returns, or that it never does.
pub data Sent : Type 0 where
  response : Text → Sent
  failed : Error → Sent
  hung : Sent

-- What RecvMessage returns, call after call.
pub data Received : Type 0 where
  temp_unavail : Received
  broken : Received
  parts : List Text → Received

abbrev pub first_part : List Text → Sent
first_part [] = failed decoding
first_part (m ∷ ms) = if m == failed_res then failed receiving else response m

-- The loop at the label `receive`: it runs on while the socket is temporarily unavailable.
unfoldable pub receive : List Received → Sent
receive [] = hung
receive (temp_unavail ∷ rs) = receive rs
receive (broken ∷ rs) = failed receiving
receive (parts ms ∷ rs) = first_part ms

-- The socket: the frames that were sent to an endpoint give an error or the messages received.
abbrev pub Socket : Type 0
Socket = Text → List Text → Result (List Received)

abbrev pub ended : Option Bool → Bool
ended none = false
ended (some alive) = if alive then false else true

module _ (metadata : ℕ → Result Text) (skt : Socket) where
  abbrev pub received : Result (List Received) → Sent
  received (ok rs) = receive rs
  received r = failed sending

  abbrev pub exchanged : Text → Text → Result Text → Sent
  exchanged endpoint content (ok meta) = received (skt endpoint (meta ∷ content ∷ []))
  exchanged endpoint content r = failed marshalling

  -- A round of initSendr, of a message that does not end the sender
  unfoldable pub round : ℕ → Text → Text → Sent
  unfolding receive
  round typ content endpoint = exchanged endpoint content (metadata typ)

  -- The sender of a new endpoint is started by the first Send to it; no one receives from the
  -- channel of a sender that has returned.
  unfoldable pub send : ℕ → Text → Text → Client → Sent × Client
  unfolding round
  send typ content endpoint c =
      if ended (lookup endpoint c)
      then (hung, c)
      else if content == msg_terminate
      then (hung, insert endpoint false c)
      else (round typ content endpoint, insert endpoint true c)

  -- Server.Stop
  unfoldable pub stop : Text → Client → Sent × Client
  unfolding send
  stop endpoint c = send terminate msg_terminate endpoint c

-- Close ends every sender that still receives.
unfoldable pub close : Client → Client
close = map (λ e. (e.0, false))
