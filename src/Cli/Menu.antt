-- ===== src/Cli/Menu.antt =====
-- basicCommands and enableCommands of cli/runner.go, which call one another without end. Each call
-- reads a line, so that a session takes no more calls than it has events, and one.
pub mod Ends
use zero_comm.Prelude.{
  ℕ, zero, suc, Text, text, Bool, true, false, List, [], ◌∷◌, ◌++◌, ◌==◌, ◌||◌, ltb, length,
  if◌then◌else◌, ◌+◌, ◌%◌, ◌^◌,
}
use zero_comm.Prelude.Spaces.{trim_space}
use zero_comm.Cli.Console.{
  Event, Runner, Run, Turn, done, exited, out_of_fuel, Line, got, broken, Shown, put, newline,
  ◌>>=◌, ◌>>◌, print, show, read_string, error,
}
use zero_comm.Cli.Commands.{
  Services, succeed, generate_invitation, connect_with_inv, send_msg, discover, create_group,
  join_group, group_msg, leave, group_info,
}

-- Which of the two reads next
pub data Loop : Type 0 where
  basic enabled : Loop

-- uint64
abbrev pub uint64_mod : ℕ
uint64_mod = 2 ^ 64

abbrev pub menu : Shown
menu = put (
    newline
    ++ text "-> Enter the corresponding number of a command to proceed;"
    ++ newline
    ++ text "\t[1] Generate invitation"
    ++ newline
    ++ text "\t[2] Connect via invitation"
    ++ newline
    ++ text "\t[3] Send a message"
    ++ newline
    ++ text "\t[4] Create a group"
    ++ newline
    ++ text "\t[5] Join a group"
    ++ newline
    ++ text "\t[6] Send group message"
    ++ newline
    ++ text "\t[7] Leave group"
    ++ newline
    ++ text "\t[8] Group Info"
    ++ newline
    ++ text "\t[9] Discover Features"
    ++ newline
    ++ text "\t[b] Back"
    ++ newline
    ++ text "\t[e] Exit"
    ++ newline
    ++ text "   Command: ")

-- The print of a command that goes back to its menu
abbrev pub retry_text : Text → Shown
retry_text t = put (text "   Error: " ++ t ++ newline)

abbrev pub is_c : Text → Bool
is_c t = trim_space t == text "c" || trim_space t == text "C"

module _ {S : Type 0} where
  abbrev pub count_menu : Run S (Unit {0})
  count_menu r = (done tt, record r { dis_cmds = (r.dis_cmds + 1) % uint64_mod })

  abbrev pub reset_menu : Run S Loop
  reset_menu r = (done enabled, record r { dis_cmds = 0 })

  -- the default of the switch
  abbrev pub unknown_command : Run S Loop
  unknown_command r =
      (if ltb 0 r.dis_cmds
          then print (retry_text (text "invalid command number, please try again"))
            >> (λ r. (done basic, r))
          else reset_menu)
        r

  abbrev pub after_line : Line → Run S Loop
  after_line (got t) r = (done (if is_c t then basic else enabled), r)
  after_line (broken t) r = (
    done (if is_c t then basic else enabled),
    show (retry_text (text "reading instruction failed, please try again")) r,
  )

  -- One call of enableCommands
  unfoldable pub enable_commands : Run S Loop
  enable_commands r = (read_string >>= after_line) r

module _ {S : Type 0} (s : Services S) where
  -- the switch of basicCommands
  unfoldable pub by_command : Text → Run S Loop
  by_command cmd r =
      (if cmd == text "1"
          then generate_invitation s >> reset_menu
          else if cmd == text "2"
          then connect_with_inv s >> reset_menu
          else if cmd == text "3"
          then send_msg s >> reset_menu
          else if cmd == text "4"
          then create_group s >> reset_menu
          else if cmd == text "5"
          then join_group s >> reset_menu
          else if cmd == text "6"
          then group_msg s >> reset_menu
          else if cmd == text "7"
          then leave s >> reset_menu
          else if cmd == text "8"
          then group_info s >> reset_menu
          else if cmd == text "9"
          then discover s >> reset_menu
          else if cmd == text "b"
          then reset_menu
          else if cmd == text "e"
          then (λ r. (exited, show (put (text "program exited" ++ newline)) r))
          else unknown_command)
        r

  abbrev pub by_line : Line → Run S Loop
  by_line (got t) = by_command (trim_space t)
  by_line (broken t) =
      print (retry_text (text "reading command number failed, please try again"))
      >> (λ r. (done basic, r))

  -- One call of basicCommands, or one round of its goto
  unfoldable pub basic_commands : Run S Loop
  basic_commands r = (print menu >> count_menu >> read_string >>= by_line) r

  abbrev pub one_call : Loop → Run S Loop
  one_call basic = basic_commands
  one_call enabled = enable_commands

  -- The calls of the two, from the first that Init makes
  unfoldable pub session : ℕ → Loop → Run S (Unit {0})
  session zero l r = (out_of_fuel, r)
  session (suc n) l r = (one_call l >>= session n) r
