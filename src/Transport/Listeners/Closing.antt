-- ===== src/Transport/Listeners/Closing.antt =====
-- Which messages make the listeners of pubsub/transport/zmq.go close their sockets.
use zero_comm.Prelude.{
  Text, Option, none, some, Option-cases, Bool-cases, inl, inr, ◌≡◌, ◌≢◌, refl, Result, ok, err,
  panic, Error, unmarshalling, ◌==◌,
}
use zero_comm.Prelude.Dict.{Dict, lookup}
use zero_comm.Stores.Group.{Groups}
use zero_comm.Transport.Messages.{
  ConnectMsg, SubscribeMsg, AuthMsg, topic_connect, topic_subscribe, topic_authenticate, topic_term,
}
use zero_comm.Transport.Auth.{Zmq, Side, on_zmq}
use zero_comm.Transport.Listeners.{
  Reaction, closed, reply_err, frames, Readers, listen_state, listen_data, state_connect,
  state_subscribe, state_auth, data_connect, data_subscribe, data_auth, answer, on_read, dispatch,
}
use zero_comm.Transport.Listeners.Replies.{other_text}
use zero_comm.Transport.Publisher.Harmless.{IsHarmless, IsSent, IsSent-IsHarmless}
use zero_comm.Transport.Publisher.{frame}

-- The listener's socket stays open.
abbrev pub StaysOpen {ℓ} : {S : Type ℓ} → Reaction × S → Type 0
StaysOpen r = r.0 ≢ closed

reply_err-StaysOpen :
    (chans : Dict Text) (id : Text) (e : Option Error) → reply_err chans id e ≢ closed
unfolding reply_err
reply_err-StaysOpen chans id e = elim (Option-cases (lookup id chans)) [
  | inl n ↦ rw (n, reply_err) (λ h. cc)
  | inr c ↦ rw (c.1, reply_err) (λ h. cc)
]

module _ {S : Type 0} (z : Zmq S) (gs : Groups) (chans : Dict Text) (js : Readers) where
  answer-StaysOpen :
      (id : Text) (r : Result (Unit {0}) × Side S) → StaysOpen (answer z gs chans js id r)
  answer-StaysOpen id (ok u, a) = reply_err-StaysOpen chans id none
  answer-StaysOpen id (err e, a) = reply_err-StaysOpen chans id (some e)
  answer-StaysOpen id (panic, a) = λ h. cc

  on_read-StaysOpen :
      {A : Type 0} (r : Result A) (left : Text) (f : A → Side S → Reaction × Side S)
      → ((m : A) (a : Side S) → StaysOpen (f m a))
      → (a : Side S) → StaysOpen (on_read z gs chans js r left f a)
  on_read-StaysOpen (ok m) left f h a = h m a
  on_read-StaysOpen (err e) left f h a = reply_err-StaysOpen chans left (some unmarshalling)
  on_read-StaysOpen panic left f h a = λ e. cc

  -- What a listener does with a message of another topic than that of the end, if the calls for the
  -- three kinds of internal messages leave it open.
  dispatch-StaysOpen :
      (connects : ConnectMsg → Side S → Reaction × Side S)
      → (subscribes : SubscribeMsg → Side S → Reaction × Side S)
      → (auths : AuthMsg → Side S → Reaction × Side S)
      → ((m : ConnectMsg) (a : Side S) → StaysOpen (connects m a))
      → ((m : SubscribeMsg) (a : Side S) → StaysOpen (subscribes m a))
      → ((m : AuthMsg) (a : Side S) → StaysOpen (auths m a))
      → (topic content : Text) (a : Side S) → topic ≢ topic_term
      → StaysOpen (dispatch z gs chans js connects subscribes auths topic content a)
  dispatch-StaysOpen connects subscribes auths c s u topic content a n =
      elim (Bool-cases (topic == topic_connect)) [
        | inl e ↦ rw e (on_read-StaysOpen _ _ connects c a)
        | inr n1 ↦ elim (Bool-cases (topic == topic_subscribe)) [
          | inl e ↦ rw n1 (rw e (on_read-StaysOpen _ _ subscribes s a))
          | inr n2 ↦ elim (Bool-cases (topic == topic_authenticate)) [
            | inl e ↦ rw n1 (rw n2 (rw e (on_read-StaysOpen _ _ auths u a)))
            | inr n3 ↦ rw n1 (rw n2 (rw n3 (rw (other_text topic topic_term n) (λ h. cc))))
          ]
        ]
      ]

  state-StaysOpen :
      (topic content msg : Text) (a : Side S)
      → frames msg ≡ some (topic, content)
      → topic ≢ topic_term
      → StaysOpen (listen_state z gs chans js (ok msg) a)
  unfolding listen_state state_connect state_subscribe state_auth
  state-StaysOpen topic content msg a e n = rw e (
      dispatch-StaysOpen _ _ _ (λ m b. answer-StaysOpen _ _) (λ m b. answer-StaysOpen _ _)
        (λ m b. answer-StaysOpen _ _) topic content a n)

  data-StaysOpen :
      (topic content msg : Text) (a : Side S)
      → frames msg ≡ some (topic, content)
      → topic ≢ topic_term
      → StaysOpen (listen_data z gs chans js (ok msg) a)
  unfolding listen_data data_connect data_subscribe data_auth
  data-StaysOpen topic content msg a e n = rw e (
      dispatch-StaysOpen _ _ _ (λ m b. answer-StaysOpen _ _) (λ m b. answer-StaysOpen _ _)
        (λ m b. answer-StaysOpen _ _) topic content a n)

  both-StayOpen :
      (msg : Text) (a b : Side S)
      → IsHarmless msg
      → StaysOpen (listen_state z gs chans js (ok msg) a)
        × StaysOpen (listen_data z gs chans js (ok msg) b)
  unfolding listen_state listen_data IsHarmless
  both-StayOpen msg a b (inl e) = (rw e (λ h. cc), rw e (λ h. cc))
  both-StayOpen msg a b (inr (topic, content, e, n)) =
      (state-StaysOpen topic content msg a e n, data-StaysOpen topic content msg b e n)

term_closes :
    {S : Type 0} (z : Zmq S) (gs : Groups) (chans : Dict Text) (js : Readers) (content : Text)
    (a : Side S)
    → (on_zmq z.close a).0 ≡ ok tt
    → ((listen_state z gs chans js (ok (frame topic_term content)) a).0 ≡ closed)
      × ((listen_data z gs chans js (ok (frame topic_term content)) a).0 ≡ closed)
unfolding listen_state listen_data frames
term_closes z gs chans js content a e = (rw e refl, rw e refl)

-- No message that the publishers send makes a listener close its socket, whatever is registered and
-- whatever the sockets and JSON do; not the one that the internal publisher sends when the transport
-- closes, either. A message on the topic of the end with a content would, if the socket can be closed.
-- The topics of the other publisher have no space.
pub sent_never_closes :
    {S : Type 0} (z : Zmq S) (gs : Groups) (chans : Dict Text) (js : Readers) (msg : Text)
    (a b : Side S)
    → IsSent msg
    → ((listen_state z gs chans js (ok msg) a).0 ≢ closed)
      × ((listen_data z gs chans js (ok msg) b).0 ≢ closed)
      × ((content : Text) (c : Side S)
          → (on_zmq z.close c).0 ≡ ok tt
          → ((listen_state z gs chans js (ok (frame topic_term content)) c).0 ≡ closed)
            × ((listen_data z gs chans js (ok (frame topic_term content)) c).0 ≡ closed))
sent_never_closes z gs chans js msg a b sent_by =
    let (at_state, at_data) = both-StayOpen z gs chans js msg a b (IsSent-IsHarmless msg sent_by) in
    (at_state, at_data, term_closes z gs chans js)
