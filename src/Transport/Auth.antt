-- ===== src/Transport/Auth.antt =====
-- pubsub/transport/auth.go. libzmq with its authenticator is a parameter: `S` is its state, as far
-- as the agent's sockets reach it.
pub mod Allowance
use zero_comm.Prelude.{
  Text, text, Option, none, some, [], Result, ok, err, panic, no_transport_key, generating,
}
use zero_comm.Prelude.Dict.{Dict, lookup, insert, delete}
use zero_comm.Prelude.Method.{Method, ◌>>=◌, ◌>>◌, modify, lift, pure}

abbrev pub domain_global : Text
domain_global = text "global"

-- the outcomes of AuthStart: one of its errors has a text that is compared
pub data Started : Type 0 where
  started already_running not_started : Started

pub record Zmq (S : Type 0) : Type 0 where
  pub auth_start : Method S Started
  pub set_identity : Text → Method S (Unit {0})
  pub server_auth_curve : Text → Text → Method S (Unit {0})
  pub client_auth_curve : Text → Text → Text → Method S (Unit {0})
  pub auth_curve_add : Text → Text → S → S
  pub auth_curve_remove : Text → Text → S → S
  pub connect : Text → Method S (Unit {0})
  pub disconnect : Text → Method S (Unit {0})
  pub set_subscribe : Text → Method S (Unit {0})
  pub set_unsubscribe : Text → Method S (Unit {0})
  pub close : Method S (Unit {0})

-- zmqPeerKeys
pub record PeerKeys : Type 0 where
  pub servr : Text
  pub client : Text

pub record Pair : Type 0 where
  pub public : Text
  pub prvt : Text

-- `keys` holds values of one type only, so the type assertion of RemvKeys cannot fail.
pub record Auth : Type 0 where
  pub id : Text
  pub servr : Pair
  pub client : Pair
  pub keys : Dict PeerKeys

-- A side of the agent: a socket's library state and the keys, which the two listeners share.
pub record Side (S : Type 0) : Type 0 where
  pub zmq : S
  pub auth : Auth

abbrev pub on_zmq : {S : Type 0} {A : Type 0} → Method S A → Method (Side S) A
on_zmq f a = ((f a.zmq).0, record a { zmq = (f a.zmq).1 })

abbrev no_pair : Pair
no_pair = record { public = []; prvt = [] }

abbrev start_error : Started → Result (Unit {0})
start_error started = ok tt
start_error already_running = ok tt
start_error not_started = err generating

module _ {S : Type 0} (z : Zmq S) where
  -- generateCerts: the two key pairs are what NewCurveKeypair returned, in turn.
  abbrev pub generate_certs : Result Pair → Result Pair → Auth → Method S Auth
  generate_certs servr client a = do
    s ← lift servr
    c ← lift client
    pure (record a { servr = s; client = c })

  -- authenticator: an authenticator that already runs is no error
  unfoldable pub authenticator : Text → Result Pair → Result Pair → Method S Auth
  authenticator label servr client = do
    how ← z.auth_start
    lift (start_error how)
    generate_certs servr client
        (record { id = label; servr = no_pair; client = no_pair; keys = [] })

  unfoldable pub set_pub_authn : Auth → Method S (Unit {0})
  set_pub_authn a = do z.set_identity a.id; z.server_auth_curve domain_global a.servr.prvt

  abbrev pub add_client_pub_key : Text → S → S
  add_client_pub_key key = z.auth_curve_add domain_global key

  abbrev store_keys : Text → PeerKeys → Side S → Side S
  store_keys peer ks a = record a { auth = record a.auth { keys = insert peer ks a.auth.keys } }

  -- The client's key is allowed first, and stays so if the socket refuses the server's key.
  unfoldable pub set_peer_state_authn : Text → Text → Text → Method (Side S) (Unit {0})
  set_peer_state_authn peer serv_pub_key client_pub_key a =
      (do
        modify (λ b. record b { zmq = add_client_pub_key client_pub_key b.zmq })
        on_zmq (z.client_auth_curve serv_pub_key a.auth.client.public a.auth.client.prvt)
        modify (store_keys peer (record { servr = serv_pub_key; client = client_pub_key })))
        a

  unfoldable pub set_peer_data_authn : Text → Method (Side S) (Unit {0})
  set_peer_data_authn serv_pub_key a =
      on_zmq (z.client_auth_curve serv_pub_key a.auth.client.public a.auth.client.prvt) a

  abbrev pub forget : Text → Option PeerKeys → Method (Side S) (Unit {0})
  forget peer none a = (err no_transport_key, a)
  forget peer (some ks) a = (
    ok tt,
    record {
      zmq = z.auth_curve_remove domain_global ks.client a.zmq;
      auth = record a.auth { keys = delete peer a.auth.keys };
    },
  )

  unfoldable pub remv_keys : Text → Method (Side S) (Unit {0})
  remv_keys peer a = forget peer (lookup peer a.auth.keys) a
