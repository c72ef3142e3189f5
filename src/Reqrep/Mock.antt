-- ===== src/Reqrep/Mock.antt =====
-- reqrep/mock: the HTTP handlers that the test scripts call, and the goroutine of initCallback. The
-- body of a request is the outcome of ioutil.ReadAll; log calls are left out.
pub mod Callback
mod Examples
use zero_comm.Prelude.{ℕ, ◌+◌, Text, text, Bool, List, [], ◌∷◌, Result, ok, err, panic, Codec}
use zero_comm.Prelude.Method.{Method, ◌>>=◌, ◌>>◌, attempt, recover, modify, pure}
use zero_comm.Prelude.Integer.{ℤ}
use zero_comm.Prelude.Spaces.{trim_space}
use zero_comm.Domain.{GroupParams}
use zero_comm.Domain.Services.{Agent, GroupAgent}

pub record ReqCreate : Type 0 where
  pub topic : Text
  pub publisher : Bool
  pub params : GroupParams

pub record ReqJoin : Type 0 where
  pub topic : Text
  pub acceptor : Text
  pub publisher : Bool

pub record ReqRegAck : Type 0 where
  pub peer : Text
  pub msg : Text
  pub count : ℤ
  pub callback_endpoint : Text
  pub timeout_ms : ℤ

-- What the handlers use: the agents, JSON, and the values of `oob` in the query of a URL that parses
pub record Container (S : Type 0) : Type 0 where
  pub prober : Agent S
  pub pubsub : GroupAgent S
  pub stop : Method S (Unit {0})
  pub creations : Codec ReqCreate
  pub joins : Codec ReqJoin
  pub acks : Codec ReqRegAck
  pub oob_values : Text → Result (List Text)

-- The agents, the texts written to responses, and the callbacks that wait, each under the number of
-- its channel; the newest is first.
pub record Mocker (S : Type 0) : Type 0 where
  pub agents : S
  pub written : List Text
  pub waiting : List (ℕ × ReqRegAck)
  pub next_chan : ℕ

module _ {S : Type 0} where
  abbrev pub on_agents : {A : Type 0} → Method S A → Method (Mocker S) A
  on_agents f m = ((f m.agents).0, record m { agents = (f m.agents).1 })

  abbrev pub write : Text → Method (Mocker S) (Unit {0})
  write t = modify (λ m. record m { written = t ∷ m.written })

  -- a branch that logs an error and returns
  abbrev pub logged : {E : Type 0} → E → Method (Mocker S) (Unit {0})
  logged e = pure tt

  unfoldable pub handle_ping : Method (Mocker S) (Unit {0})
  handle_ping m = write (text "ok") m

module _ {S : Type 0} (c : Container S) where
  unfoldable pub handle_inv : Method (Mocker S) (Unit {0})
  handle_inv = attempt (on_agents c.prober.invite) write logged

  abbrev pub sync_accept_first : List Text → Method (Mocker S) (Unit {0})
  sync_accept_first [] = pure tt
  sync_accept_first (inv ∷ invs) = attempt (on_agents (c.prober.sync_accept inv)) pure logged

  unfoldable pub handle_connect : Result Text → Method (Mocker S) (Unit {0})
  handle_connect body =
      recover body (λ bytes. recover (c.oob_values (trim_space bytes)) sync_accept_first logged)
        logged

  unfoldable pub handle_create : Result Text → Method (Mocker S) (Unit {0})
  handle_create body =
      recover body
        (λ bytes.
          recover (c.creations.unmarshal bytes)
            (λ req.
              attempt (on_agents (c.pubsub.create req.topic req.publisher req.params)) pure logged)
            logged)
        logged

  unfoldable pub handle_join : Result Text → Method (Mocker S) (Unit {0})
  handle_join body =
      recover body
        (λ bytes.
          recover (c.joins.unmarshal bytes)
            (λ req.
              attempt (on_agents (c.pubsub.join req.topic req.acceptor req.publisher)) pure logged)
            logged)
        logged

  -- RegisterAck returns nothing; the goroutine is the entry of waiting.
  unfoldable pub init_callback : ReqRegAck → Method (Mocker S) (Unit {0})
  init_callback req m =
      (do
        on_agents (c.pubsub.register_ack req.peer m.next_chan)
        modify (λ m. record m {
          waiting = (m.next_chan, req) ∷ m.waiting;
          next_chan = m.next_chan + 1;
        }))
        m

  unfoldable pub handle_grp_msg_listnr : Result Text → Method (Mocker S) (Unit {0})
  handle_grp_msg_listnr body =
      recover body (λ bytes. recover (c.acks.unmarshal bytes) init_callback logged) logged

  unfoldable pub handle_kill : Method (Mocker S) (Unit {0})
  handle_kill = attempt (on_agents c.stop) pure logged
