-- ===== src/Crypto/Keys.antt =====
-- crypto/keys.go. The key pair that box.GenerateKey returns is an argument of the methods that call
-- it. The field invKeys is used by no method and is left out.
use zero_comm.Prelude.{
  Text, Option, none, some, [], ◌∷◌, ◌≡◌, ◌≢◌, arith, Result, ok, err, panic, deref, or_err, ◌>>=◌,
  no_key, ◌==◌, eq_iff, if◌then◌else◌, true, false, ◌&&◌, Bool, is_some, Bool-cases, Option-cases,
  inl, inr, All,
}
use zero_comm.Prelude.Dict.{Dict, lookup, insert, lookup-insert, IsMap, IsMap-lookup}
use zero_comm.Prelude.Method.{Method}

pub record Keys : Type 0 where
  pub public : Text
  pub private : Text

pub record KeyManager : Type 0 where
  pub inv_pub_key : Option Text
  pub inv_prv_key : Option Text
  pub key_store : Dict Keys

abbrev pub new_key_manager : KeyManager
new_key_manager = record { inv_pub_key = none; inv_prv_key = none; key_store = [] }

abbrev store_keys : Text → Result Keys → Method KeyManager (Unit {0})
store_keys peer (ok ks) k = (ok tt, record k { key_store = insert peer ks k.key_store })
store_keys peer (err e) k = (err e, k)
store_keys peer panic k = (panic, k)

unfoldable pub generate_keys : Text → Result Keys → Method KeyManager (Unit {0})
generate_keys peer generated k = store_keys peer generated k

unfoldable pub private_key : Text → KeyManager → Result Text
private_key peer k = do ks ← or_err (lookup peer k.key_store) no_key; ok ks.private

unfoldable pub public_key : Text → KeyManager → Result Text
public_key peer k = do ks ← or_err (lookup peer k.key_store) no_key; ok ks.public

-- Range stops at the first peer with the key; the entries come in the order of the list.
abbrev pub peer_with : Text → Dict Keys → Text
peer_with pub_key [] = []
peer_with pub_key ((n, ks) ∷ m) = if ks.public == pub_key then n else peer_with pub_key m

abbrev pub is_named : Text → Bool
is_named [] = false
is_named (c ∷ s) = true

unfoldable pub peer : Text → KeyManager → Result Text
peer pub_key k =
    let name = peer_with pub_key k.key_store in if is_named name then ok name else err no_key

abbrev store_inv_keys : Result Keys → Method KeyManager (Unit {0})
store_inv_keys (ok ks) k =
    (ok tt, record k { inv_pub_key = some ks.public; inv_prv_key = some ks.private })
store_inv_keys (err e) k = (err e, k)
store_inv_keys panic k = (panic, k)

unfoldable pub generate_inv_keys : Result Keys → Method KeyManager (Unit {0})
generate_inv_keys generated k =
    if is_some k.inv_prv_key && is_some k.inv_pub_key
    then (ok tt, k)
    else store_inv_keys generated k

unfoldable pub inv_private_key : KeyManager → Result Text
inv_private_key k = deref k.inv_prv_key

unfoldable pub inv_public_key : KeyManager → Result Text
inv_public_key k = deref k.inv_pub_key

-- After its keys were generated a peer has them, and no other peer's keys changed.
pub keys_after_generate_keys :
    (p q : Text) (ks : Keys) (k : KeyManager)
    → let after = (generate_keys p (ok ks) k).1 in
      (public_key q after ≡ (if p == q then ok ks.public else public_key q k))
      × (private_key q after ≡ (if p == q then ok ks.private else private_key q k))
unfolding generate_keys public_key private_key
keys_after_generate_keys p q ks k = (
  ground (arith, lookup-insert p q ks k.key_store),
  ground (arith, lookup-insert p q ks k.key_store),
)

peer_with_found :
    (store m : Dict Keys) (p : Text) (ks : Keys)
    → All (λ e. lookup e.0 store ≡ some e.1) m
    → lookup p m ≡ some ks
    → (x : Keys) × (lookup (peer_with ks.public m) store ≡ some x) × (x.public ≡ ks.public)
unfolding lookup
peer_with_found store [] p ks h e = cc
peer_with_found store ((j, w) ∷ m) p ks h e = elim (Bool-cases (w.public == ks.public)) [
  | inl hit ↦ rw (hit, peer_with) (w, h.0, (eq_iff w.public ks.public).0 hit)
  | inr miss ↦
      rw (miss, peer_with)
        (peer_with_found store m p ks h.1 (ground (arith, eq_iff w.public ks.public)))
]

-- Two peers never have one public key.
abbrev pub DistinctKeys : KeyManager → Type 0
DistinctKeys k =
    (p q : Text) (x y : Keys)
    → lookup p k.key_store ≡ some x
    → lookup q k.key_store ≡ some y
    → x.public ≡ y.public
    → p ≡ q

-- A public key leads back to the peer whose connection it belongs to, if keys are distinct and the
-- peer's label is not empty.
pub peer-public_key :
    (k : KeyManager) (p : Text) (x : Text)
    → IsMap k.key_store
    → DistinctKeys k
    → p ≢ []
    → public_key p k ≡ ok x
    → peer x k ≡ ok p
unfolding public_key peer
peer-public_key k p x u d named e = elim (Option-cases (lookup p k.key_store)) [
  | inl missing ↦ cc (rw missing at e)
  | inr (ks, found) ↦ named_peer ks found (rw found at e)
]
  where
    named_peer :
        (ks : Keys)
        → lookup p k.key_store ≡ some ks
        → ok ks.public ≡ ok x
        → (if is_named (peer_with x k.key_store) then ok (peer_with x k.key_store) else err no_key)
          ≡ ok p
    named_peer ks found q =
        let (y, at, same) =
          peer_with_found k.key_store k.key_store p ks (IsMap-lookup k.key_store u) found in
        let here : peer_with ks.public k.key_store ≡ p = d _ p y ks at found same in
        let key : ks.public ≡ x = cc q in rw (← key, here) (ground (arith, named))

-- The keys of invitations are generated once: after they were, another call keeps them, whatever
-- the generator would give.
pub generate_inv_keys_once :
    (a b : Keys) (k : KeyManager)
    → let first_call = (generate_inv_keys (ok a) k).1 in
      (generate_inv_keys (ok b) first_call ≡ (ok tt, first_call))
      × (is_some first_call.inv_pub_key ≡ true)
      × (is_some first_call.inv_prv_key ≡ true)
unfolding generate_inv_keys
generate_inv_keys_once a b k = (ground arith, ground arith, ground arith)
