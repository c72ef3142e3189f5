-- ===== src/Reqrep/Http.antt =====
-- reqrep/http/http.go: the client, and the handlers of the server. The outcome of a post is the status
-- of its response; the body of a request is the outcome of ioutil.ReadAll.
use zero_comm.Prelude.{
  ℕ, Text, Option, none, some, Result, ok, err, panic, sending, eqb, ◌||◌, if◌then◌else◌, ◌≡◌, refl,
  List, ◌∷◌,
}

-- The channel inChan, with the texts that were sent on it, the newest first; `none` is nil.
pub record Http : Type 0 where
  pub port : ℕ
  pub in_chan : Option (List Text)

-- NewHTTP sets no channel.
abbrev pub new_http : ℕ → Http
new_http port = record { port = port; in_chan = none }

abbrev pub status_accepted : ℕ
status_accepted = 202

abbrev pub status_ok : ℕ
status_ok = 200

unfoldable pub send : Result ℕ → Result (Unit {0})
send (ok status) = if eqb status status_accepted || eqb status status_ok then ok tt else err sending
send (err e) = err e
send panic = panic

-- A handler that returned, or one that waits
pub data Handled : Type 0 where
  returned : Http → Handled
  waits : Handled

abbrev pub send_in : Option (List Text) → Text → Http → Handled
send_in none bytes h = waits
send_in (some ts) bytes h = returned (record h { in_chan = some (bytes ∷ ts) })

unfoldable pub handle_conn_reqs : Result Text → Http → Handled
handle_conn_reqs (ok bytes) h = send_in h.in_chan bytes h
handle_conn_reqs (err e) h = returned h
handle_conn_reqs panic h = returned h

unfoldable pub handle_inbound : Result Text → Http → Handled
handle_inbound (ok bytes) h = send_in h.in_chan bytes h
handle_inbound (err e) h = returned h
handle_inbound panic h = returned h

abbrev pub stop : Http → Result (Unit {0})
stop h = ok tt

-- No request with a body that can be read is answered.
nil_channel_waits :
    (port : ℕ) (bytes : Text)
    → (handle_conn_reqs (ok bytes) (new_http port) ≡ waits)
      × (handle_inbound (ok bytes) (new_http port) ≡ waits)
unfolding handle_conn_reqs handle_inbound
nil_channel_waits port bytes = (refl, refl)
