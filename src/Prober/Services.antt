-- ===== src/Prober/Services.antt =====
-- The queries of prober/agent.go, and its wait for a peer.
use zero_comm.Prelude.{
  ℕ, zero, suc, ◌≤◌, Text, List, [], ◌∷◌, ◌≡◌, ◌≢◌, ◌↔◌, refl, arith, Option, none, some, ok, err,
  panic, no_service, no_peer, All, ◌++◌, ◌==◌, eq_iff, if◌then◌else◌,
}
use zero_comm.Prelude.Dict.{lookup}
use zero_comm.Domain.{Peer, Service}
use zero_comm.Prober.Peers.{PeerStore, peer_by_exch_id, peer_by_label}
use zero_comm.Prober.Agent.{Prober, peer_of, service_named, service}
use zero_comm.Prober.Connect.{await_peer, with_store, or_next}

-- No service of the list has this name.
abbrev pub LacksService : Text → List Service → Type 0
LacksService name = All (λ s. s.typ ≢ name)

service_named-first :
    (name : Text) (front : List Service) (s : Service) (back : List Service)
    → LacksService name front
    → s.typ ≡ name
    → service_named name (front ++ s ∷ back) ≡ some s
unfolding service_named
service_named-first name [] s back h e = rw ((eq_iff s.typ name).1 e) refl
service_named-first name (t ∷ front) s back h e =
    ground (arith, eq_iff t.typ name, h.0, service_named-first name front s back h.1 e)

service_named-LacksService :
    (name : Text) (svcs : List Service) → LacksService name svcs → service_named name svcs ≡ none
unfolding service_named
service_named-LacksService name [] h = refl
service_named-LacksService name (t ∷ svcs) h =
    ground (arith, eq_iff t.typ name, h.0, service_named-LacksService name svcs h.1)

-- Service of a peer that is not in the store returns the error of an unknown peer. Of a known peer it
-- returns the first service that has the name, and an error where the name is empty. Where the peer
-- has no such service it reads the type through a nil pointer, which panics, and does not return the
-- error that stands for it in the code.
pub service_outcome :
    (name label : Text) (p : Prober)
    → (lookup label p.peers ≡ none → service name label p ≡ err no_peer)
      × ((pr : Peer) (front : List Service) (s : Service) (back : List Service)
          → lookup label p.peers ≡ some pr
          → pr.services ≡ front ++ s ∷ back
          → LacksService name front
          → s.typ ≡ name
          → service name label p ≡ (if name == [] then err no_service else ok s))
      × ((pr : Peer)
          → lookup label p.peers ≡ some pr
          → LacksService name pr.services
          → service name label p ≡ panic)
unfolding service peer_of peer_by_label
service_outcome name label p = (
  (λ unknown. rw unknown refl),
  (λ pr front s back known split missing named.
      rw known
        (rw split (rw (service_named-first name front s back missing named) (rw named refl)))),
  λ pr known missing. rw known (rw (service_named-LacksService name pr.services missing) refl),
)

with_store-none : (s : PeerStore) (o : Option (Text × Peer)) → (with_store s o ≡ none) ↔ (o ≡ none)
with_store-none s none = (λ e. refl, λ e. refl)
with_store-none s (some r) = (λ e. cc, λ e. cc)

or_next-none : {A : Type 0} (a b : Option A) → (or_next a b ≡ none) ↔ ((a ≡ none) × (b ≡ none))
or_next-none none b = (λ e. (refl, e), λ h. h.1)
or_next-none (some a) b = (λ e. cc, λ h. cc (h.0))

upto_zero : (P : ℕ → Type 0) → P 0 → (k : ℕ) → k ≤ 0 → P k
upto_zero P h zero le = h
upto_zero P h (suc k) le = absurd (omega arith)

upto_suc :
    (P : ℕ → Type 0) (n : ℕ) → P 0 → ((k : ℕ) → k ≤ n → P (suc k)) → (k : ℕ) → k ≤ suc n → P k
upto_suc P n h next zero le = h
upto_suc P n h next (suc k) le = next k (omega arith)

-- The wait for the peer of a connection response fails exactly when none of its first attempt and
-- its `n` retries finds a peer with the exchange id in the store.
pub await_peer-none :
    (n : ℕ) (seen : ℕ → PeerStore) (exch_id : Text)
    → (await_peer n seen exch_id ≡ none)
      ↔ ((k : ℕ) → k ≤ n → peer_by_exch_id exch_id (seen k) ≡ none)
unfolding await_peer
await_peer-none zero seen exch_id = (
  (λ e. upto_zero _ ((with_store-none (seen 0) _).0 e)),
  λ h. (with_store-none (seen 0) _).1 (h 0 (omega arith)),
)
await_peer-none (suc n) seen exch_id =
    let first_one = with_store-none (seen 0) (peer_by_exch_id exch_id (seen 0)) in
    let later = await_peer-none n (λ k. seen (suc k)) exch_id in
    (
      (λ e. let (a, b) = (or_next-none _ _).0 e in upto_suc _ n (first_one.0 a) (later.0 b)),
      λ h.
          (or_next-none _ _).1
            (first_one.1 (h 0 (omega arith)), later.1 (λ k le. h (suc k) (omega arith))),
    )
