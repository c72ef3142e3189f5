-- ===== src/Cli/Creation.antt =====
-- The fourth command of the menu of cli/runner.go over Create of pubsub/agent.go.
use zero_comm.Prelude.{
  arith, ℕ, Text, text, Bool, true, false, List, ◌∷◌, none, some, ◌≡◌, refl, ◌⊎◌, inl, inr, ok,
  ◌==◌, ◌&&◌, if◌then◌else◌,
}
use zero_comm.Prelude.Spaces.{trim_space}
use zero_comm.Domain.{GroupParams, valid_mode, single_queue_mode, multiple_queue_mode}
use zero_comm.Validator.Checksum.{IsDigest}
use zero_comm.Stores.Group.{params}
use zero_comm.Stores.Group.View.{view}
use zero_comm.Pubsub.Node.{Outside, Node}
use zero_comm.Pubsub.Agent.{create, own_member}
use zero_comm.Pubsub.Agent.Sending.{create_outcome, params-create}
use zero_comm.Cli.Console.{
  Event, line, Runner, Turn, Run, done, ◌>>=◌, input, valid_bool, Shown, show, prompt, newline,
  output_line, put,
}
use zero_comm.Cli.Commands.{Services, group_mode, create_with, create_group}
use zero_comm.Cli.Menu.{Loop, enabled, is_c, one_call, by_command, basic_commands, enable_commands}

-- The lines that a user enters: a command that opens the menu, one in it, and the answers
pub record Entry : Type 0 where
  pub opens : Text
  pub number : Text
  pub topic : Text
  pub publisher : Text
  pub mode : Text
  pub join_consist : Text
  pub ordrd : Text

abbrev pub lines : Entry → List Event → List Event
lines e rest =
    line e.opens
    ∷ line e.number
    ∷ line e.topic
    ∷ line e.publisher
    ∷ line e.mode
    ∷ line e.join_consist
    ∷ line e.ordrd
    ∷ rest

-- Any text for the mode makes a valid one.
group_mode-valid : (mode : Text) → valid_mode (group_mode mode) ≡ true
unfolding valid_mode
group_mode-valid mode = by_tests (mode == text "s") (mode == text "S")
  where
    by_tests :
        (a b : Bool)
        → valid_mode (
            if a then single_queue_mode else (if b then single_queue_mode else multiple_queue_mode))
          ≡ true
    by_tests true b = refl
    by_tests false true = refl
    by_tests false false = refl

-- What the entered command does, in one call of enableCommands and one of basicCommands
abbrev pub entered :
    {S : Type 0} → Services S → Entry → List Event → Runner S → Turn Loop × Runner S
entered s e rest r = (one_call s enabled >>= one_call s) (record r { events = lines e rest })

-- What is shown by the time of the last answer
abbrev pub asked : {S : Type 0} → List Event → Runner S → Runner S
asked rest r = record r { events = rest }

-- An answer that is neither yes nor no
abbrev pub Unclear : Entry → Type 0
Unclear e =
    (valid_bool (trim_space e.publisher) ≡ none)
    ⊎ (valid_bool (trim_space e.ordrd) ≡ none)
    ⊎ (valid_bool (trim_space e.join_consist) ≡ none)

module _ {S : Type 0} (s : Services S) (e : Entry) (opens : is_c e.opens ≡ true)
    (fourth : trim_space e.number ≡ text "4") where
  entered_lem :
      (rest : List Event) (r : Runner S)
      → (shown : List Shown) × (n : ℕ) × (entered s e rest r
          ≡ (create_with s
                  (trim_space e.topic)
                  (trim_space e.publisher)
                  (trim_space e.mode)
                  (trim_space e.join_consist)
                  (trim_space e.ordrd)
                >>= λ u q. (done enabled, record q { dis_cmds = 0 }))
              (record r { events = rest; shown = shown; dis_cmds = n }))
  unfolding basic_commands enable_commands zero_comm.Cli.Console.read_from by_command create_group
      input zero_comm.Cli.Console.ask_from
  entered_lem rest r = rw opens (rw fourth (_, _, refl))

  -- With an answer that is neither yes nor no, no agent is called.
  no_agent_called :
      (rest : List Event) (r : Runner S)
      → Unclear e
      → let (turn, after) = entered s e rest r in
        (turn ≡ done enabled) × (after.events ≡ rest) × (after.agents ≡ r.agents)
  unfolding create_with
  no_agent_called rest r unclear =
      let (shown, n, same) = entered_lem rest r in rw same (by_answer unclear shown n)
    where
      by_answer :
          Unclear e
          → (shown : List Shown) (n : ℕ)
          → let (turn, after) =
              (create_with s
                    (trim_space e.topic)
                    (trim_space e.publisher)
                    (trim_space e.mode)
                    (trim_space e.join_consist)
                    (trim_space e.ordrd)
                  >>= λ u q. (done enabled, record q { dis_cmds = 0 }))
                (record r { events = rest; shown = shown; dis_cmds = n }) in
            (turn ≡ done enabled) × (after.events ≡ rest) × (after.agents ≡ r.agents)
      by_answer (inl p) shown n = rw p (refl, refl, refl)
      by_answer (inr (inl d)) shown n = ground arith
      by_answer (inr (inr j)) shown n = ground arith

module _ (o : Outside) (k : IsDigest o.digest) (now : ℕ) (s : Services Node)
    (creates : s.pubsub.create ≡ create o now) (e : Entry) (opens : is_c e.opens ≡ true)
    (fourth : trim_space e.number ≡ text "4") where
  -- A user who opens the menu, enters 4 there and answers its five questions, creates a group: the
  -- node has its own member in it, under the topic without the white space round it, with the role
  -- that was asked for, beside the members it knew; the group has the order, the consistency and the
  -- mode that were asked for, and no other group is set; the session goes on with the input after
  -- the answers. Three answers are yes or no, the group agent is that of pubsub/agent.go, and the
  -- prober makes an invitation.
  pub command_creates :
      (rest : List Event) (inv : Text) (r : Runner Node) (publisher join_consist ordrd : Bool)
      → o.invite ≡ ok inv
      → valid_bool (trim_space e.publisher) ≡ some publisher
      → valid_bool (trim_space e.join_consist) ≡ some join_consist
      → valid_bool (trim_space e.ordrd) ≡ some ordrd
      → let (turn, after) = entered s e rest r in
        let m = own_member r.agents true publisher inv in
        let topic = trim_space e.topic in
        (turn ≡ done enabled)
        × (after.events ≡ rest)
        × ((t l : Text)
            → view after.agents.gs t l
              ≡ (if topic == t && r.agents.my_label == l then some m else view r.agents.gs t l))
        × ((t : Text)
            → params t after.agents.gs ≡ (
                if topic == t
                then some (record {
                  order_enabled = ordrd;
                  join_consistent = join_consist;
                  mode = group_mode (trim_space e.mode);
                })
                else params t r.agents.gs))
  unfolding create_with
  command_creates rest inv r publisher join_consist ordrd made p j d =
      let (shown, n, same) = entered_lem s e opens fourth rest r in
      let gp : GroupParams = record {
        order_enabled = ordrd;
        join_consistent = join_consist;
        mode = group_mode (trim_space e.mode);
      } in
      let valid = group_mode-valid (trim_space e.mode) in
      let outcome =
        (create_outcome o now (trim_space e.topic) inv publisher gp r.agents k made).0 valid in
      rw same (
        rw p (
          rw d (
            rw j (
              rw creates (
                rw outcome.0 (
                  refl,
                  refl,
                  outcome.1,
                  λ t.
                      params-create o now (trim_space e.topic) inv publisher gp r.agents t k made
                        valid,
                ))))))
