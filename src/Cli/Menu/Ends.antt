-- ===== src/Cli/Menu/Ends.antt =====
-- A session of cli/runner.go consumes an event for each of its calls, so it stops only where there is
-- none, where the user leaves, or where an agent panics.
use zero_comm.Prelude.{
  ℕ, zero, suc, Text, Bool, true, false, List, [], ◌∷◌, Option, none, some, ◌≡◌, ◌<◌, arith, length,
  Result, ok, err, panic, if◌then◌else◌, ltb,
}
use zero_comm.Domain.{Member, GroupParams}
use zero_comm.Cli.Console.{
  Runner, Turn, Run, input, print, show, Shown, read_string, valid_bool, ◌>>=◌, ◌>>◌, blocked,
  exited, crashed, out_of_fuel, done, Line, got, broken, continue,
}
use zero_comm.Cli.Console.Reading.{
  Within, Keeps, Reads, Keeps->>=, Reads->>=, Keeps-attempt, Keeps-print, Keeps-input, Reads-read,
}
use zero_comm.Cli.Commands.{
  Services, succeed, accept_value, with_url, with_bool, describe, generate_invitation,
  connect_with_inv, send_msg, discover, create_with, create_group, join_group, group_msg, leave,
  group_info,
}
use zero_comm.Cli.Menu.{
  Loop, basic, enabled, reset_menu, unknown_command, by_command, by_line, basic_commands,
  after_line, enable_commands, one_call, session,
}

-- A session that has stopped: it waits for input and has read all, or the process is over.
abbrev pub Ended : {S : Type 0} → Turn (Unit {0}) × Runner S → Type 0
Ended (done u, r) = ⊥
Ended (blocked, r) = r.events ≡ []
Ended (exited, r) = Unit
Ended (crashed, r) = Unit
Ended (out_of_fuel, r) = ⊥

module _ {S A : Type 0} where
  Keeps-if : (b : Bool) (m k : Run S A) → Keeps m → Keeps k → Keeps (λ r. (if b then m else k) r)
  Keeps-if true m k h i = h
  Keeps-if false m k h i = i

module _ {S : Type 0} where
  Keeps-with_bool :
      (b : Option Bool) (f : Bool → Run S (Unit {0}))
      → ((c : Bool) → Keeps (f c))
      → Keeps (with_bool b f)
  Keeps-with_bool none f h = Keeps-print _
  Keeps-with_bool (some b) f h = h b

  Keeps-basic : Keeps {S = S} (λ r. (done basic, r))
  Keeps-basic = record { within = λ n r few. few }

  Keeps-exit : (t : Shown) → Keeps {S = S} {A = Loop} (λ r. (exited, show t r))
  Keeps-exit t = record { within = λ n r few. tt }

  Keeps-succeed : Keeps {S = S} succeed
  Keeps-succeed = record { within = λ n r few. few }

  Keeps-reset_menu : Keeps {S = S} reset_menu
  Keeps-reset_menu = record { within = λ n r few. few }

  Keeps-describe : (params : GroupParams) (ms : List Member) → Keeps {S = S} (describe params ms)
  Keeps-describe params [] = Keeps-print _
  Keeps-describe params (m ∷ ms) = record { within = λ n r few. few }

  -- a question, and what is done with the answer
  Keeps-question :
      {B : Type 0} (label : Text) (f : Text → Run S B)
      → ((t : Text) → Keeps (f t))
      → Keeps (λ r. (input label >>= f) r)
  Keeps-question label f h = Keeps->>= f h (input label) (Keeps-input label)

module _ {S : Type 0} (s : Services S) where
  Keeps-accept_value : (invs : List Text) → Keeps (accept_value s invs)
  Keeps-accept_value [] = Keeps-print _
  Keeps-accept_value (inv ∷ invs) =
      Keeps-attempt _ _ (λ a. Keeps-succeed) (Keeps-print _) (s.prober.accept inv)

  Keeps-with_url : (res : Result (List Text)) → Keeps (with_url s res)
  Keeps-with_url (ok invs) = Keeps-accept_value invs
  Keeps-with_url (err e) = Keeps-print _
  Keeps-with_url panic = record { within = λ n r few. tt }

  Keeps-generate_invitation : Keeps (generate_invitation s)
  unfolding generate_invitation
  Keeps-generate_invitation =
      Keeps-attempt _ _ (λ inv. Keeps-print _) (Keeps-print _) s.prober.invite

  Keeps-connect_with_inv : Keeps (connect_with_inv s)
  unfolding connect_with_inv
  Keeps-connect_with_inv = Keeps-question _ _ λ url. Keeps-with_url (s.oob_values url)

  Keeps-send_msg : Keeps (send_msg s)
  unfolding send_msg
  Keeps-send_msg =
      Keeps-question _ _
        λ peer. Keeps-question _ _ λ msg. Keeps-attempt _ _ (λ u. Keeps-succeed) (Keeps-print _) _

  Keeps-discover : Keeps (discover s)
  unfolding discover
  Keeps-discover = Keeps-question _ _ λ endpoint. Keeps-question _ _ λ query.
      Keeps-question _ _ λ comment. Keeps-attempt _ _ (λ fs. Keeps-print _) (Keeps-print _) _

  Keeps-create_group : Keeps (create_group s)
  unfolding create_group create_with
  Keeps-create_group = Keeps-question _ _ λ topic. Keeps-question _ _ λ str_pub.
      Keeps-question _ _ λ mode. Keeps-question _ _ λ str_join_consist.
        Keeps-question _ _ λ str_ordrd. Keeps-with_bool (valid_bool str_pub) _ λ publisher.
          Keeps-with_bool (valid_bool str_ordrd) _ λ ordrd.
            Keeps-with_bool (valid_bool str_join_consist) _
              λ join_consist. Keeps-attempt _ _ (λ u. Keeps-print _) (Keeps-print _) _

  Keeps-join_group : Keeps (join_group s)
  unfolding join_group
  Keeps-join_group = Keeps-question _ _ λ topic. Keeps-question _ _ λ acceptor.
      Keeps-question _ _ λ str_pub.
        Keeps-with_bool (valid_bool str_pub) _
          λ publisher. Keeps-attempt _ _ (λ u. Keeps-print _) (Keeps-print _) _

  Keeps-group_msg : Keeps (group_msg s)
  unfolding group_msg
  Keeps-group_msg =
      Keeps-question _ _
        λ topic. Keeps-question _ _ λ msg. Keeps-attempt _ _ (λ n. Keeps-succeed) (Keeps-print _) _

  Keeps-leave : Keeps (leave s)
  unfolding leave
  Keeps-leave = Keeps-question _ _ λ topic. Keeps-attempt _ _ (λ u. Keeps-succeed) (Keeps-print _) _

  Keeps-group_info : Keeps (group_info s)
  unfolding group_info
  Keeps-group_info = Keeps-question _ _ λ topic.
      Keeps-attempt {A = GroupParams × List Member} _ _ (λ i. Keeps-describe i.0 i.1) Keeps-succeed
        _

  Keeps-unknown : Keeps {S = S} unknown_command
  Keeps-unknown = record {
    within = λ n r few.
        (Keeps-if (ltb 0 r.dis_cmds) _ _ (Keeps->>= _ (λ u. Keeps-basic) (print _) (Keeps-print _))
            Keeps-reset_menu).within
          n r few;
  }

  -- a command, and the return to enableCommands
  Keeps-then :
      (b : Bool) (m : Run S (Unit {0})) (k : Run S Loop)
      → Keeps m
      → Keeps k
      → Keeps (λ r. (if b then m >> reset_menu else k) r)
  Keeps-then b m k h i = Keeps-if b _ k (Keeps->>= _ (λ u. Keeps-reset_menu) m h) i

  Keeps-by_command : (cmd : Text) → Keeps (by_command s cmd)
  unfolding by_command
  Keeps-by_command cmd = Keeps-then _ _ _ Keeps-generate_invitation (
      Keeps-then _ _ _ Keeps-connect_with_inv (
        Keeps-then _ _ _ Keeps-send_msg (
          Keeps-then _ _ _ Keeps-create_group (
            Keeps-then _ _ _ Keeps-join_group (
              Keeps-then _ _ _ Keeps-group_msg (
                Keeps-then _ _ _ Keeps-leave (
                  Keeps-then _ _ _ Keeps-group_info (
                    Keeps-then _ _ _ Keeps-discover (
                      Keeps-if _ _ _ Keeps-reset_menu
                        (Keeps-if _ _ _ (Keeps-exit _) Keeps-unknown))))))))))

  Keeps-by_line : (l : Line) → Keeps (by_line s l)
  Keeps-by_line (got t) = Keeps-by_command _
  Keeps-by_line (broken t) = record { within = λ n r few. few }

  Keeps-after_line : (l : Line) → Keeps {S = S} (after_line l)
  Keeps-after_line (got t) = record { within = λ n r few. few }
  Keeps-after_line (broken t) = record { within = λ n r few. few }

  Reads-one_call : (l : Loop) → Reads (one_call s l)
  unfolding basic_commands enable_commands
  Reads-one_call basic n r few = Reads->>= (by_line s) Keeps-by_line read_string Reads-read n _ few
  Reads-one_call enabled n r few =
      Reads->>= after_line Keeps-after_line read_string Reads-read n r few

  -- What is left after one call of the two ends if all shorter sessions do.
  Ended-continue :
      (n : ℕ) (t : Turn Loop) (r : Runner S) (next : Loop → Run S (Unit {0}))
      → ((l : Loop) (q : Runner S) → length q.events < n → Ended (next l q))
      → Within n (t, r)
      → Ended (continue t next r)
  Ended-continue n (done l) r next h few = h l r few
  Ended-continue n blocked r next h none_left = none_left
  Ended-continue n exited r next h w = tt
  Ended-continue n crashed r next h w = tt
  Ended-continue n out_of_fuel r next h w = w

  -- A session never needs more calls of basicCommands and enableCommands than it has events, and one:
  -- with so many it has read all of them and waits for input, or the process is over.
  pub session_ends :
      (n : ℕ) (l : Loop) (r : Runner S) → length r.events < n → Ended (session s n l r)
  unfolding session
  session_ends zero l r few = omega arith
  session_ends (suc n) l r few =
      Ended-continue n (one_call s l r).0 (one_call s l r).1 (session s n)
        (λ m q fewer. session_ends n m q fewer) (Reads-one_call l n r (omega arith))
