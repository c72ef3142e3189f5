-- ===== src/Samples/Json.antt =====
-- Stand-ins for JSON at the group messages of domain/messages/pubsub.go: a record is the list of its
-- fields.
use zero_comm.Prelude.{
  Text, text, Bool, true, false, List, [], ◌∷◌, ◌≡◌, refl, ap, ◌∙◌, Result, ok, err, unmarshalling,
  Codec, RoundTrips,
}
use zero_comm.Prelude.Dict.{Dict}
use zero_comm.Domain.{Member, Status, Subscribe, ResSubscribe, ReqGroupJoin, ResGroupJoin}
use zero_comm.Samples.{fields, unfields, unfields-fields}

abbrev bit : Bool → Text
bit true = text "t"
bit false = []

abbrev read_bit : Text → Bool
read_bit [] = false
read_bit (b ∷ bs) = true

read_bit-bit : (b : Bool) → read_bit (bit b) ≡ b
read_bit-bit true = refl
read_bit-bit false = refl

-- A codec from the fields of the values
abbrev codec : {A : Type 0} → (A → List Text) → (List Text → Result A) → Codec A
codec write read = record {
  marshal = λ a. ok (fields (write a));
  unmarshal = λ t. read (unfields t);
}

codec-RoundTrips :
    {A : Type 0} (write : A → List Text) (read : List Text → Result A)
    → ((a : A) → read (write a) ≡ ok a)
    → RoundTrips (codec write read)
codec-RoundTrips write read h = record {
  trips = λ a. (fields (write a), refl, ap read (unfields-fields (write a)) ∙ h a);
}

abbrev member_texts : Member → List Text → List Text
member_texts m rest = bit m.active ∷ bit m.publisher ∷ m.label ∷ m.inv ∷ m.pub_endpoint ∷ rest

abbrev member_of : Text → Text → Text → Text → Text → Member
member_of a p l i e = record {
  active = read_bit a;
  publisher = read_bit p;
  label = l;
  inv = i;
  pub_endpoint = e;
}

member_of-texts :
    (m : Member) → member_of (bit m.active) (bit m.publisher) m.label m.inv m.pub_endpoint ≡ m
member_of-texts m = rw (read_bit-bit m.active) (rw (read_bit-bit m.publisher) refl)

abbrev read_member : List Text → Result Member
read_member (a ∷ p ∷ l ∷ i ∷ e ∷ rest) = ok (member_of a p l i e)
read_member _ = err unmarshalling

abbrev pub members : Codec Member
members = codec (λ m. member_texts m []) read_member

pub members-RoundTrips : RoundTrips members
members-RoundTrips =
    codec-RoundTrips (λ m. member_texts m []) read_member (λ m. ap ok (member_of-texts m))

abbrev pairs : Dict Text → List Text
pairs [] = []
pairs ((k, v) ∷ d) = k ∷ v ∷ pairs d

abbrev unpairs : List Text → Dict Text
unpairs (k ∷ v ∷ ts) = (k, v) ∷ unpairs ts
unpairs (k ∷ []) = []
unpairs [] = []

unpairs-pairs : (d : Dict Text) → unpairs (pairs d) ≡ d
unpairs-pairs [] = refl
unpairs-pairs ((k, v) ∷ d) = ap (λ r. (k, v) ∷ r) (unpairs-pairs d)

abbrev status_texts : Status → List Text
status_texts s = s.id ∷ s.typ ∷ s.topic ∷ pairs s.auth_msgs

abbrev read_status : List Text → Result Status
read_status (i ∷ ty ∷ to ∷ rest) =
    ok (record { id = i; typ = ty; topic = to; auth_msgs = unpairs rest })
read_status _ = err unmarshalling

abbrev pub statuses : Codec Status
statuses = codec status_texts read_status

pub statuses-RoundTrips : RoundTrips statuses
statuses-RoundTrips =
    codec-RoundTrips status_texts read_status
      (λ s. ap (λ d. ok (record s { auth_msgs = d })) (unpairs-pairs s.auth_msgs))

abbrev subscribe_texts : Subscribe → List Text
subscribe_texts s =
    s.id
    ∷ s.typ
    ∷ bit s.subscribe
    ∷ s.pub_key
    ∷ s.topic
    ∷ s.transport.servr_pub_key
    ∷ s.transport.client_pub_key
    ∷ member_texts s.member []

abbrev read_subscribe : List Text → Result Subscribe
read_subscribe (i ∷ ty ∷ su ∷ k ∷ to ∷ sk ∷ ck ∷ a ∷ p ∷ l ∷ v ∷ e ∷ rest) = ok (record {
  id = i;
  typ = ty;
  subscribe = read_bit su;
  pub_key = k;
  topic = to;
  member = member_of a p l v e;
  transport = record { servr_pub_key = sk; client_pub_key = ck };
})
read_subscribe _ = err unmarshalling

abbrev pub subscribes : Codec Subscribe
subscribes = codec subscribe_texts read_subscribe

pub subscribes-RoundTrips : RoundTrips subscribes
subscribes-RoundTrips = codec-RoundTrips subscribe_texts read_subscribe (λ s.
    rw (read_bit-bit s.subscribe)
      (ap (λ m. ok (record s { member = m })) (member_of-texts s.member)))

abbrev sub_response_texts : ResSubscribe → List Text
sub_response_texts r =
    bit r.publisher ∷ r.transport.servr_pub_key ∷ r.transport.client_pub_key ∷ r.checksum ∷ []

abbrev read_sub_response : List Text → Result ResSubscribe
read_sub_response (p ∷ sk ∷ ck ∷ c ∷ rest) = ok (record {
  publisher = read_bit p;
  transport = record { servr_pub_key = sk; client_pub_key = ck };
  checksum = c;
})
read_sub_response _ = err unmarshalling

abbrev pub sub_responses : Codec ResSubscribe
sub_responses = codec sub_response_texts read_sub_response

pub sub_responses-RoundTrips : RoundTrips sub_responses
sub_responses-RoundTrips =
    codec-RoundTrips sub_response_texts read_sub_response
      (λ r. ap (λ b. ok (record r { publisher = b })) (read_bit-bit r.publisher))

abbrev join_request_texts : ReqGroupJoin → List Text
join_request_texts r = r.id ∷ r.typ ∷ r.label ∷ r.topic ∷ r.requester_inv ∷ []

abbrev read_join_request : List Text → Result ReqGroupJoin
read_join_request (i ∷ ty ∷ l ∷ to ∷ v ∷ rest) =
    ok (record { id = i; typ = ty; label = l; topic = to; requester_inv = v })
read_join_request _ = err unmarshalling

abbrev pub join_requests : Codec ReqGroupJoin
join_requests = codec join_request_texts read_join_request

pub join_requests-RoundTrips : RoundTrips join_requests
join_requests-RoundTrips = codec-RoundTrips join_request_texts read_join_request (λ r. refl)

abbrev all_members : List Member → List Text
all_members [] = []
all_members (m ∷ ms) = member_texts m (all_members ms)

abbrev read_members : List Text → List Member
read_members (a ∷ p ∷ l ∷ i ∷ e ∷ ts) = member_of a p l i e ∷ read_members ts
read_members _ = []

read_members-texts : (ms : List Member) → read_members (all_members ms) ≡ ms
read_members-texts [] = refl
read_members-texts (m ∷ ms) = rw (member_of-texts m) (rw (read_members-texts ms) refl)

abbrev join_response_texts : ResGroupJoin → List Text
join_response_texts r =
    r.id
    ∷ r.typ
    ∷ bit r.params.order_enabled
    ∷ bit r.params.join_consistent
    ∷ r.params.mode
    ∷ all_members r.members

abbrev read_join_response : List Text → Result ResGroupJoin
read_join_response (i ∷ ty ∷ o ∷ j ∷ md ∷ rest) = ok (record {
  id = i;
  typ = ty;
  params = record { order_enabled = read_bit o; join_consistent = read_bit j; mode = md };
  members = read_members rest;
})
read_join_response _ = err unmarshalling

abbrev pub join_responses : Codec ResGroupJoin
join_responses = codec join_response_texts read_join_response

pub join_responses-RoundTrips : RoundTrips join_responses
join_responses-RoundTrips = codec-RoundTrips join_response_texts read_join_response (λ r.
    rw (read_bit-bit r.params.order_enabled)
      (rw (read_bit-bit r.params.join_consistent) (rw (read_members-texts r.members) refl)))
