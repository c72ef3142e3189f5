-- ===== src/Pubsub/Agent.antt =====
-- Create, Send, Leave and Info of pubsub/agent.go. Uuids and the clock are arguments.
pub mod Sending
pub mod Examples
use zero_comm.Prelude.{
  ℕ, Text, text, Bool, true, false, List, [], ◌∷◌, ◌++◌, Option, none, some, Result, ok, err, panic,
  Error, no_member, not_publisher, or_err, ◌==◌, if◌then◌else◌, length, map, first, get_or,
}
use zero_comm.Prelude.{◌>>=◌ as bind}
use zero_comm.Prelude.Dict.{Dict, lookup, insert}
use zero_comm.Prelude.Method.{Method, modify, ◌>>=◌, ◌>>◌, lift, pure, raise}
use zero_comm.Domain.{Member, GroupParams, Status, servc_group_join, member_status_v1}
use zero_comm.Stores.Group.{Groups, add_membrs, set_params, membrs, membr, delete_topic, params}
use zero_comm.Stores.Subscriber.{query_by_topic}
use zero_comm.Syncer.{init, message}
use zero_comm.Transport.Topics.{data_topic, state_topic}
use zero_comm.Pubsub.Channels.{send_publish, send_subscribe}
use zero_comm.Pubsub.Packer.{pack}
use zero_comm.Pubsub.Node.{Outside, Node, Call, call, print, on_groups, ask_groups, on_syncer}

-- The entry of this node in a group
abbrev pub own_member : Node → Bool → Bool → Text → Member
own_member n active publisher inv = record {
  active = active;
  publisher = publisher;
  label = n.my_label;
  inv = inv;
  pub_endpoint = n.pub_endpoint;
}

-- A missing key of invs reads as the empty text.
abbrev pub inv_of : Option Text → Text
inv_of none = []
inv_of (some inv) = inv

abbrev pub nobody : Member
nobody = record { active = false; publisher = false; label = []; inv = []; pub_endpoint = [] }

abbrev pub is_publisher : Text → List Member → Bool
is_publisher me ms = elim (first (λ m. m.label == me) ms) [ none ↦ false | some m ↦ m.publisher ]

module _ (o : Outside) where
  unfoldable pub create : ℕ → Text → Bool → GroupParams → Method Node (Unit {0})
  create now topic publisher gp n =
      (do
        inv ← lift o.invite
        modify (λ k. record k { invs = insert topic inv k.invs })
        on_groups (set_params topic gp)
        on_groups (add_membrs o.digest topic (own_member n true publisher inv ∷ []))
        modify (λ k. record k {
          syncr = if gp.order_enabled then init topic now k.syncr else k.syncr;
        }))
        n

  -- The loop of Send: the lengths of what was published
  unfoldable pub send_each : Text → Text → Dict Text → Method Node (List ℕ)
  send_each topic msg [] n = (ok [], n)
  send_each topic msg ((sub, key) ∷ subs) n =
      (do
        packed ← lift (pack o sub (some key) msg)
        dt ← lift (data_topic n.gs topic n.my_label sub)
        send_publish o dt packed
        sizes ← send_each topic msg subs
        pure (length packed ∷ sizes))
        n

  abbrev pub publisher_only : Member → Method Node (Unit {0})
  publisher_only m = if m.publisher then pure tt else raise not_publisher

  abbrev pub report : Text → Text → List ℕ → Method Node (List ℕ)
  report topic msg [] = pure []
  report topic msg (s ∷ sizes) = do
    print (text "Published '" ++ (msg ++ (text "' to '" ++ (topic ++ text "'"))))
    pure (s ∷ sizes)

  unfoldable pub send : ℕ → Text → Text → Method Node (List ℕ)
  send now topic msg n =
      (do
        curnt_membr ← lift (or_err (membr topic n.my_label n.gs) no_member)
        publisher_only curnt_membr
        subs ← lift (query_by_topic topic n.subs)
        syncd_msg ← on_syncer (message o.clocks topic msg now)
        sizes ← send_each topic syncd_msg subs
        report topic msg sizes)
        n

  -- A message for a member, under the id of the connection with it
  unfoldable pub pack_entry : Member → Text → Result (Text × Text)
  pack_entry m byts = bind (o.peer_of m.label) (λ pr.
      bind (o.service servc_group_join m.label) (λ s.
        bind (pack o m.label (some s.pub_key) byts) (λ packed. ok (pr.exchange_th_id, packed))))

  -- The loop of compressStatus, for each other member
  unfoldable pub pack_each : Text → Text → List Member → Dict Text → Result (Dict Text)
  pack_each me byts [] msgs = ok msgs
  pack_each me byts (m ∷ ms) msgs =
      if m.label == me
      then pack_each me byts ms msgs
      else bind (pack_entry m byts) (λ e. pack_each me byts ms (insert e.0 e.1 msgs))

  unfoldable pub compress_status : Text → Text → Bool → Bool → Method Node Text
  compress_status id topic active publisher n =
      (do
        byts ←
            lift (o.members.marshal (own_member n active publisher (inv_of (lookup topic n.invs))))
        msgs ← lift (pack_each n.my_label byts (membrs topic n.gs) [])
        encoded_status ← lift (
            o.statuses.marshal
              (record { id = id; typ = member_status_v1; topic = topic; auth_msgs = msgs }))
        pure (o.encode_all encoded_status))
        n

  unfoldable pub notify_all : Text → Text → Bool → Bool → Method Node (Unit {0})
  notify_all id topic active publisher = do
    comprsd ← compress_status id topic active publisher
    send_publish o (state_topic topic) comprsd

  abbrev pub leave_group : Text → Text → List Member → Method Node (Unit {0})
  leave_group id topic [] n = (err no_member, n)
  leave_group id topic (m ∷ ms) n =
      (do
        notify_all id topic false (is_publisher n.my_label (m ∷ ms))
        modify (λ k. record k {
          subs = zero_comm.Stores.Subscriber.delete_topic topic k.subs;
          gs = delete_topic topic k.gs;
        })
        print (text "Left group " ++ topic))
        n

  unfoldable pub leave : Text → Text → Method Node (Unit {0})
  leave id topic n =
      (do
        send_subscribe o false true true true topic n.my_label nobody
        leave_group id topic (membrs topic n.gs))
        n

abbrev no_params : GroupParams
no_params = record { order_enabled = false; join_consistent = false; mode = [] }

abbrev pub without_inv : Member → Member
without_inv m = record m { inv = [] }

-- Info: the parameters, or their zero value, and the members without their invitations
unfoldable pub info : Text → Node → GroupParams × List Member
info topic n = (get_or (params topic n.gs) no_params, map without_inv (membrs topic n.gs))
