-- ===== src/Transport/Auth/Allowance.antt =====
-- The transport keys of pubsub/transport/auth.go over their life.
use zero_comm.Prelude.{
  Text, none, some, ◌≡◌, refl, arith, ok, err, no_transport_key, ◌==◌, eq_refl, if◌then◌else◌, ap,
}
use zero_comm.Prelude.Dict.{lookup, insert, delete, lookup-insert, lookup-delete}
use zero_comm.Prelude.Method.{>>=-ok, modify}
use zero_comm.Transport.Auth.{
  Zmq, Side, PeerKeys, set_peer_state_authn, remv_keys, domain_global, on_zmq,
}

module _ {S : Type 0} (z : Zmq S) where
  set_keeps_keys :
      (peer servr client : Text) (a : Side S)
      → (set_peer_state_authn z peer servr client a).0 ≡ ok tt
      → (set_peer_state_authn z peer servr client a).1.auth.keys
        ≡ insert peer (record { servr = servr; client = client }) a.auth.keys
  unfolding set_peer_state_authn
  set_keeps_keys peer servr client a h =
      let allowed : Side S = record a { zmq = z.auth_curve_add domain_global client a.zmq } in
      let (_, _, step) =
        >>=-ok (on_zmq (z.client_auth_curve servr a.auth.client.public a.auth.client.prvt))
          (λ _. modify λ b. record b {
            auth = record b.auth {
              keys = insert peer (record { servr = servr; client = client }) b.auth.keys;
            };
          })
          allowed h in
      ap (λ r. r.1.auth.keys) step

  removed_known :
      (peer q : Text) (ks : PeerKeys) (b a : Side S)
      → b.auth.keys ≡ insert peer ks a.auth.keys
      → let removed = remv_keys z peer b in
        (removed.0 ≡ ok tt)
        × (removed.1.zmq ≡ z.auth_curve_remove domain_global ks.client b.zmq)
        × (lookup q removed.1.auth.keys ≡ (if peer == q then none else lookup q a.auth.keys))
        × ((remv_keys z peer removed.1).0 ≡ err no_transport_key)
  unfolding remv_keys
  removed_known peer q ks b a e =
      let found : lookup peer b.auth.keys ≡ some ks = rw (e, lookup-insert, eq_refl peer) refl in
      let gone : lookup peer (delete peer b.auth.keys) ≡ none =
        rw (lookup-delete, eq_refl peer) refl in
      let others : lookup q (delete peer b.auth.keys)
          ≡ (if peer == q then none else lookup q a.auth.keys) =
        ground (
          arith,
          lookup-delete peer q b.auth.keys,
          ap (lookup q) e,
          lookup-insert peer q ks a.auth.keys,
        ) in
      rw found (refl, refl, others, rw gone refl)

  -- The keys that were set for a peer can be removed: the call succeeds, takes the peer's client key
  -- from the authenticator and the peer's entry from the keys, and leaves the other peers' entries;
  -- removing them once more is an error.
  pub remv_keys_after_set :
      (peer servr client q : Text) (a : Side S)
      → (set_peer_state_authn z peer servr client a).0 ≡ ok tt
      → let set = (set_peer_state_authn z peer servr client a).1 in
        let removed = remv_keys z peer set in
        (removed.0 ≡ ok tt)
        × (removed.1.zmq ≡ z.auth_curve_remove domain_global client set.zmq)
        × (lookup q removed.1.auth.keys ≡ (if peer == q then none else lookup q a.auth.keys))
        × ((remv_keys z peer removed.1).0 ≡ err no_transport_key)
  remv_keys_after_set peer servr client q a h =
      removed_known peer q (record { servr = servr; client = client })
        (set_peer_state_authn z peer servr client a).1 a (set_keeps_keys peer servr client a h)
