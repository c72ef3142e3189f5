-- ===== src/Reqrep/Examples.antt =====
-- Tests of reqrep/zmq, and its theorems at a concrete client and server.
use zero_comm.Prelude.{
  ℕ, Text, text, true, false, [], ◌∷◌, Option, some, ◌≡◌, refl, Result, ok, err, receiving, eqb,
  if◌then◌else◌,
}
use zero_comm.Domain.MsgType.{Message, conn_req, query}
use zero_comm.Reqrep.Server.{Handlers, add_handler, remove_handler, handlr_by_typ}
use zero_comm.Reqrep.Client.{response, hung, receive, temp_unavail, parts, send, stop}
use zero_comm.Reqrep.Exchange.{wired, handlers_only_grow, stop_hangs}

abbrev meta_of : ℕ → Result Text
meta_of t = ok (t ∷ [])

abbrev type_in : Text → Result ℕ
type_in [] = err receiving
type_in (t ∷ ts) = ok t

abbrev echo : Message → Option Text
echo m = some m.payload

abbrev handlers : Handlers
handlers = add_handler query (text "q") false (add_handler conn_req (text "c") true [])

abbrev hello : Message
hello = record { typ = conn_req; payload = text "hi" }

handlers_only_grow_example :
    (handlr_by_typ query (add_handler query (text "n") true handlers) ≡ (
      if eqb query query
      then some (record { async = true; notifier = text "n" })
      else handlr_by_typ query handlers))
    × (handlr_by_typ query (remove_handler (text "query-message") handlers)
        ≡ handlr_by_typ query handlers)
handlers_only_grow_example =
    handlers_only_grow query query (text "n") (text "query-message") true handlers

stop_hangs_example :
    ((stop meta_of (wired type_in echo handlers) (text "tcp") []).0 ≡ hung)
    × ((send meta_of
          (wired type_in echo handlers)
          conn_req
          (text "hi")
          (text "tcp")
          (stop meta_of (wired type_in echo handlers) (text "tcp") []).1).0
        ≡ hung)
stop_hangs_example =
    stop_hangs meta_of (wired type_in echo handlers) (wired type_in echo handlers) (text "tcp")
      (text "hi") conn_req []

-- A socket that is unavailable for a while
retries : receive (temp_unavail ∷ temp_unavail ∷ parts (text "x" ∷ []) ∷ []) ≡ response (text "x")
unfolding receive
retries = refl
