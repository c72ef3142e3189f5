-- ===== src/Reqrep/Exchange.antt =====
-- A client of reqrep/zmq/client.go against a server of reqrep/zmq/server.go.
use zero_comm.Prelude.{
  ℕ, Text, Bool, List, [], ◌∷◌, Option, some, ◌≡◌, refl, arith, Result, ok, eq_refl, eqb,
  if◌then◌else◌, Bool-cases, inl, inr,
}
use zero_comm.Prelude.Dict.{lookup, lookup-insert}
use zero_comm.Domain.MsgType.{Message}
use zero_comm.Reqrep.Server.{
  Handler, Handlers, of_type, of_name, find, store, discard, add_handler, remove_handler,
  handlr_by_typ, Served, responded, stopped, waiting, start,
}
use zero_comm.Reqrep.Client.{Client, hung, Received, parts, Socket, send, stop, ended}

-- The response of a server, as a client's socket receives it.
abbrev pub carried : Served → List Received
carried (responded seen r) = parts (r ∷ []) ∷ []
carried stopped = []
carried (waiting seen) = []

-- The socket of a client that is connected to a server with these handlers.
abbrev pub wired : (Text → Result ℕ) → (Message → Option Text) → Handlers → Socket
wired metadata reply hs endpoint frames = ok (carried (start metadata reply hs (ok frames)))

find-discard :
    (t : ℕ) (name : Text) (hs : Handlers)
    → find (of_type t) (discard (of_name name) hs) ≡ find (of_type t) hs
unfolding find discard
find-discard t name [] = refl
find-discard t name ((of_type a, h) ∷ hs) = ground (arith, find-discard t name hs)
find-discard t name ((of_name s, h) ∷ hs) = ground (arith, find-discard t name hs)

find-store :
    (t u : ℕ) (h : Handler) (hs : Handlers)
    → find (of_type u) (store (of_type t) h hs) ≡ (if eqb t u then some h else find (of_type u) hs)
unfolding find store
find-store t u h [] = refl
find-store t u h ((of_type a, g) ∷ hs) = ground (arith, find-store t u h hs)
find-store t u h ((of_name s, g) ∷ hs) = find-store t u h hs

-- AddHandler sets the handler of its type and no other; RemoveHandler removes none, for any name.
pub handlers_only_grow :
    (t u : ℕ) (notifier name : Text) (async : Bool) (hs : Handlers)
    → (handlr_by_typ u (add_handler t notifier async hs) ≡ (
        if eqb t u
        then some (record { async = async; notifier = notifier })
        else handlr_by_typ u hs))
      × (handlr_by_typ u (remove_handler name hs) ≡ handlr_by_typ u hs)
unfolding handlr_by_typ add_handler remove_handler
handlers_only_grow t u notifier name async hs =
    (find-store t u (record { async = async; notifier = notifier }) hs, find-discard u name hs)

-- Stop never returns, whatever the socket does and whichever endpoints the client knows: the
-- client's own sender takes the message for the signal to end. A later Send to this endpoint never
-- returns either.
pub stop_hangs :
    (write : ℕ → Result Text) (skt other : Socket) (endpoint content : Text) (typ : ℕ) (c : Client)
    → ((stop write skt endpoint c).0 ≡ hung)
      × ((send write other typ content endpoint (stop write skt endpoint c).1).0 ≡ hung)
unfolding stop send
stop_hangs write skt other endpoint content typ c = elim (Bool-cases (ended (lookup endpoint c))) [
  | inl dead ↦ rw (dead, stop, send) (refl, rw dead refl)
  | inr live ↦ rw (live, stop, send) (refl, rw (lookup-insert, eq_refl endpoint) refl)
]
