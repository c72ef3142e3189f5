-- ===== src/Bootstrap.antt =====
-- bootstrap.go, domain/container/init.go, log/init.go and ParseArgs of cli/runner.go: the settings of an
-- agent, its logger, and how it stops. What the system answers to the calls of os and net is an argument.
use zero_comm.Prelude.{
  Text, text, Bool, List, [], ◌∷◌, ◌++◌, ◌+◌, Option, none, some, Result, ok, err, panic, ◌&&◌,
  if◌then◌else◌, Error,
}
use zero_comm.Prelude.Method.{Method}
use zero_comm.Prelude.Integer.{ℤ, pos, negsuc, equals}
use zero_comm.Prelude.Spaces.{decimal}

pub record Args : Type 0 where
  pub name : Text
  pub port : ℤ
  pub pub_port : ℤ
  pub mocker : Bool
  pub mock_port : ℤ
  pub verbose : Bool

-- ParseArgs with the flags that were given; `none` is the exit after its message
unfoldable pub parse_args : Args → Option Args
parse_args flags = if flags.mocker && equals 0 flags.mock_port then none else some flags

pub record Config : Type 0 where
  pub args : Args
  pub hostname : Text
  pub inv_endpoint : Text
  pub pub_endpoint : Text
  pub log_level : Text

-- strconv.Itoa
abbrev pub itoa : ℤ → Text
itoa (pos n) = decimal n
itoa (negsuc n) = text "-" ++ decimal (n + 1)

abbrev pub config_at : Args → Text → Config
config_at args ip = record {
  args = args;
  hostname = ip;
  inv_endpoint = ip ++ itoa args.port;
  pub_endpoint = ip ++ itoa args.pub_port;
  log_level = text "DEBUG";
}

abbrev pub with_ips : Args → Result (List Text) → Option Config
with_ips args (ok []) = none
with_ips args (ok (ip ∷ ips)) = some (config_at args (text "tcp://" ++ ip ++ text ":"))
with_ips args (err e) = none
with_ips args panic = none

-- setConfigs; `none` is log.Fatal
unfoldable pub set_configs : Args → Result Text → (Text → Result (List Text)) → Option Config
set_configs args (ok hn) lookup_ip = with_ips args (lookup_ip hn)
set_configs args (err e) lookup_ip = none
set_configs args panic lookup_ip = none

-- A stop that ended the process, or one that returned an error
pub data Stopped : Type 0 where
  exited : Stopped
  failed : Error → Stopped
  panicked : Stopped

-- Stop of the container, over Close of the group agent and of the client
unfoldable pub stop : {S : Type 0} → Method S (Unit {0}) → Method S (Unit {0}) → S → Stopped × S
stop close_pubsub close_client s =
    let (first, t) = close_pubsub s in
    let (second, u) = close_client t in
    elim first [
      | panic ↦ (panicked, t)
      | err e ↦ (failed e, t)
      | ok v ↦ elim second [ panic ↦ (panicked, u) | err e ↦ (failed e, u) | ok w ↦ (exited, u) ]
    ]

-- The methods of the library's logger that Logger replaces
pub data Level : Type 0 where
  error trace debug info : Level

-- A logger, with what it handed to the library's, the newest first
pub record Logger : Type 0 where
  pub log_enabled : Bool
  pub lines : List (Level × Text)

-- Error, Trace, Debug and Info
unfoldable pub log : Level → Text → Logger → Logger
log level message l = if l.log_enabled then record l { lines = (level, message) ∷ l.lines } else l
