-- ===== src/Cli/Examples.antt =====
-- Sessions at a console, and the theorems at them.
use zero_comm.Prelude.{
  Text, text, true, false, List, [], ◌∷◌, ◌++◌, some, ◌≡◌, refl, ok, no_peer, ◌==◌, ◌&&◌,
  if◌then◌else◌, arith,
}
use zero_comm.Prelude.Method.{Method, raise, pure}
use zero_comm.Prelude.Spaces.{trim_space, strip, decimal, digits}
use zero_comm.Domain.{single_queue_mode}
use zero_comm.Domain.Services.{Agent, Discoverer, GroupAgent}
use zero_comm.Validator.Examples.{bob, member, sample-IsDigest}
use zero_comm.Stores.Group.{params}
use zero_comm.Stores.Group.View.{view}
use zero_comm.Pubsub.Node.{Node}
use zero_comm.Pubsub.Agent.{create, own_member, info}
use zero_comm.Pubsub.Examples.{node, outside}
use zero_comm.Cli.Console.{
  Event, line, failed, heard, Runner, Turn, blocked, exited, done, newline, valid_bool, Shown, put,
}
use zero_comm.Cli.Commands.{Services}
use zero_comm.Cli.Menu.{enabled, basic, session, one_call}
use zero_comm.Cli.Menu.Ends.{Ended, session_ends}
use zero_comm.Cli.Creation.{Entry, entered, command_creates}

abbrev absent : {A : Type 0} → Method Node A
absent = raise no_peer

abbrev agent : Agent Node
agent = record {
  invite = pure (text "inv");
  sync_accept = λ i. absent;
  accept = λ i. absent;
  send_message = λ t to m. absent;
  read_message = λ m. absent;
  peer = λ l. absent;
  service = λ name l. absent;
  sync_service = λ name l ms. absent;
  valid_conn = λ l. absent;
}

abbrev discoverer : Discoverer Node
discoverer = record { query = λ to q c. absent; disclose = λ i q. absent }

-- The group agent of pubsub/agent.go, where only Create and Info are called.
abbrev group_agent : GroupAgent Node
group_agent = record {
  create = create (outside (member bob)) 5;
  join = λ topic acceptor publisher. absent;
  send = λ topic msg. absent;
  leave = λ topic. absent;
  info = λ topic n. (ok (info topic n), n);
  register_ack = λ l ch. absent;
  unregister_ack = λ l. absent;
  close = absent;
}

abbrev services : Services Node
services = record {
  prober = agent;
  disc = discoverer;
  pubsub = group_agent;
  oob_values = λ url. ok [];
}

abbrev entry : Entry
entry = record {
  opens = text "c" ++ newline;
  number = text "4" ++ newline;
  topic = text " go" ++ newline;
  publisher = text "Y" ++ newline;
  mode = text "s" ++ newline;
  join_consist = text "n" ++ newline;
  ordrd = text "y" ++ newline;
}

abbrev runner : List Event → Runner Node
runner es = record { events = es; shown = []; dis_cmds = 0; verbose = true; agents = node }

abbrev leaving : List Event
leaving = heard (text "hi") ∷ line (text "C") ∷ failed [] ∷ line (text "e") ∷ line (text "x") ∷ []

trimmed : trim_space (9 ∷ 194 ∷ 160 ∷ 97 ∷ 32 ∷ 98 ∷ 227 ∷ 128 ∷ 128 ∷ 10 ∷ []) ≡ text "a b"
unfolding trim_space strip
trimmed = refl

printed_number : decimal 120 ≡ text "120"
unfolding decimal digits
printed_number = refl

answers : (valid_bool (text "Y") ≡ some true) × (valid_bool (text "n") ≡ some false)
unfolding valid_bool
answers = (refl, refl)

session_ends_example : Ended (session services 9 enabled (runner leaving))
session_ends_example = session_ends services 9 enabled (runner leaving) (omega arith)

command_creates_example :
    let (turn, after) = entered services entry leaving (runner []) in
    let m = own_member node true true (text "inv") in
    (turn ≡ done enabled)
    × (after.events ≡ leaving)
    × ((t l : Text)
        → view after.agents.gs t l
          ≡ (if text "go" == t && node.my_label == l then some m else view node.gs t l))
    × ((t : Text)
        → params t after.agents.gs ≡ (
            if text "go" == t
            then some
                (record { order_enabled = true; join_consistent = false; mode = single_queue_mode })
            else params t node.gs))
unfolding trim_space strip valid_bool
command_creates_example =
    command_creates (outside (member bob)) sample-IsDigest 5 services refl entry refl refl leaving
      (text "inv") (runner []) true false true refl refl refl refl

-- The session of `leaving` prints what comes in, opens the menu twice and exits.
left_session : (session services 9 enabled (runner leaving)).0 ≡ exited
unfolding session zero_comm.Cli.Menu.basic_commands zero_comm.Cli.Menu.enable_commands
    zero_comm.Cli.Console.read_from zero_comm.Cli.Menu.by_command trim_space strip
left_session = refl

-- After a wrong command the count of menus is two, so that listen leaves the menu's line as it is.
counted_twice :
    (session services 9 enabled
      (runner (line (text "c") ∷ line (text "z") ∷ heard (text "hi") ∷ []))).1.dis_cmds
    ≡ 2
unfolding session zero_comm.Cli.Menu.basic_commands zero_comm.Cli.Menu.enable_commands
    zero_comm.Cli.Console.listen zero_comm.Cli.Console.read_from zero_comm.Cli.Menu.by_command
    trim_space strip
counted_twice = refl
