-- ===== src/Domain/Services.antt =====
-- domain/services/core.go: what the agent, the group agent and the discoverer offer to the command
-- line and to the mock server, as methods on a state that all of them share.
use zero_comm.Prelude.{ℕ, Text, Bool, List, Option}
use zero_comm.Prelude.Method.{Method}
use zero_comm.Domain.Models.{Peer, Service, Feature, Member, GroupParams}
use zero_comm.Domain.Messages.{DiscloseFeature}
use zero_comm.Domain.MsgType.{Message}

pub record Agent (S : Type 0) : Type 0 where
  pub invite : Method S Text
  pub sync_accept : Text → Method S (Unit {0})
  pub accept : Text → Method S Text
  pub send_message : ℕ → Text → Text → Method S (Unit {0})
  pub read_message : Message → Method S (Text × Text)
  pub peer : Text → Method S Peer
  pub service : Text → Text → Method S (Option Service)
  pub sync_service : Text → Text → ℕ → Method S (Option Service)
  pub valid_conn : Text → Method S (Peer × Bool)

pub record Discoverer (S : Type 0) : Type 0 where
  pub query : Text → Text → Text → Method S (List Feature)
  pub disclose : Text → Text → Method S DiscloseFeature

-- A channel for acknowledgements is the number that it was registered under.
pub record GroupAgent (S : Type 0) : Type 0 where
  pub create : Text → Bool → GroupParams → Method S (Unit {0})
  pub join : Text → Text → Bool → Method S (Unit {0})
  pub send : Text → Text → Method S (List ℕ)
  pub leave : Text → Method S (Unit {0})
  pub info : Text → Method S (GroupParams × List Member)
  pub register_ack : Text → ℕ → Method S (Unit {0})
  pub unregister_ack : Text → Method S (Unit {0})
  pub close : Method S (Unit {0})
