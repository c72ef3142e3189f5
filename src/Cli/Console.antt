-- ===== src/Cli/Console.antt =====
-- The reading and printing of cli/runner.go. What happens at the console is a list of events, which a
-- read consumes: the lines of the standard input, and the texts on outChan, which listen prints.
pub mod Reading
use zero_comm.Prelude.{
  ℕ, Text, text, Bool, true, false, List, [], ◌∷◌, ◌++◌, Option, none, some, ◌+◌, eqb, ◌==◌,
  if◌then◌else◌, Result, ok, err, panic,
}
use zero_comm.Prelude.Method.{Method}
use zero_comm.Prelude.Spaces.{trim_space, to_lower, decimal}

-- A read of a line, with its end; a read that fails, with what it read; a text on outChan
pub data Event : Type 0 where
  line failed heard : Text → Event

-- A text that is printed as it is, or one that is handed to Printf as the format
pub data Shown : Type 0 where
  put format : Text → Shown

-- What shown has is newest first.
pub record Runner (S : Type 0) : Type 0 where
  pub events : List Event
  pub shown : List Shown
  pub dis_cmds : ℕ
  pub verbose : Bool
  pub agents : S

-- A run waits for input when there are no more events.
pub data Turn (A : Type 0) : Type 0 where
  blocked exited crashed out_of_fuel : Turn A
  done : A → Turn A

abbrev pub Run : Type 0 → Type 0 → Type 0
Run S A = Runner S → Turn A × Runner S

module _ {S A B : Type 0} where
  abbrev pub continue : Turn A → (A → Run S B) → Run S B
  continue (done a) f r = f a r
  continue blocked f r = (blocked, r)
  continue exited f r = (exited, r)
  continue crashed f r = (crashed, r)
  continue out_of_fuel f r = (out_of_fuel, r)

  infixl 5 ◌>>◌ ◌>>=◌
  abbrev pub ◌>>=◌ : Run S A → (A → Run S B) → Run S B
  ◌>>=◌ m f r = continue (m r).0 f (m r).1

  abbrev pub ◌>>◌ : Run S A → Run S B → Run S B
  m >> n = m >>= λ _. n

module _ {S A B : Type 0} where
  abbrev pub settle : Result A → (A → Run S B) → Run S B → Run S B
  settle (ok a) f g r = f a r
  settle (err e) f g r = g r
  settle panic f g r = (crashed, r)

  -- A call of one of the agents, and what is done with its value, or where it returns an error
  abbrev pub attempt : Method S A → (A → Run S B) → Run S B → Run S B
  attempt m f g r = settle (m r.agents).0 f g (record r { agents = (m r.agents).1 })

abbrev pub newline : Text
newline = 10 ∷ []

abbrev pub output_line : Text → Bool → Shown
output_line t first_line = put ((if first_line then text "-> " else text "   ") ++ t ++ newline)

-- The outcome of reader.ReadString, with the text that it returns in either case
pub data Line : Type 0 where
  got broken : Text → Line

abbrev pub prompt : Text → Shown
prompt label = put (text "   ? " ++ label ++ text ": ")

module _ {S : Type 0} where
  abbrev pub show : Shown → Runner S → Runner S
  show s r = record r { shown = s ∷ r.shown }

  abbrev pub print : Shown → Run S (Unit {0})
  print s r = (done tt, show s r)

  abbrev pub output : Text → Bool → Run S (Unit {0})
  output t first_line = print (output_line t first_line)

  abbrev pub error : Text → Run S (Unit {0})
  error t = print (put (text "   ! Error: " ++ t ++ newline))

  -- one round of listen
  unfoldable pub listen : Text → Runner S → Runner S
  listen t r =
      if r.verbose
      then (let r =
            (if eqb r.dis_cmds 1 then show (put newline) (record r { dis_cmds = 0 }) else r) in
          show (output_line t true) r)
      else r

  unfoldable pub read_from : List Event → Run S Line
  read_from [] r = (blocked, record r { events = [] })
  read_from (line t ∷ es) r = (done (got t), record r { events = es })
  read_from (failed t ∷ es) r = (done (broken t), record r { events = es })
  read_from (heard t ∷ es) r = read_from es (listen t r)

  abbrev pub read_string : Run S Line
  read_string r = read_from r.events r

  -- The loop of input, after a prompt
  unfoldable pub ask_from : Text → List Event → Run S Text
  ask_from label [] r = (blocked, record r { events = [] })
  ask_from label (line t ∷ es) r = (done (trim_space t), record r { events = es })
  ask_from label (failed t ∷ es) r =
      let failure =
        put (text "   ! Error: reading " ++ label ++ text " failed, please try again" ++ newline) in
      ask_from label es (show (prompt label) (show failure r))
  ask_from label (heard t ∷ es) r = ask_from label es (listen t r)

  unfoldable pub input : Text → Run S Text
  unfolding ask_from
  input label r = ask_from label r.events (show (prompt label) r)

-- The lines of outputList
abbrev pub numbered : ℕ → List Text → Text
numbered i [] = []
numbered i (t ∷ ts) = text "    " ++ decimal i ++ text ". " ++ t ++ newline ++ numbered (i + 1) ts

abbrev pub output_list : {S : Type 0} → Text → List Text → Run S (Unit {0})
output_list title ts =
    print (format (text "-> " ++ title ++ text ":" ++ newline ++ numbered 1 ts ++ newline))

-- validBool; `none` is the error
unfoldable pub valid_bool : Text → Option Bool
valid_bool t =
    if to_lower t == text "y"
    then some true
    else if to_lower t == text "n"
    then some false
    else none

abbrev pub cancel_cmd : Text → Bool
cancel_cmd t =
    if trim_space t == text "b" then true else if trim_space t == text "B" then true else false
