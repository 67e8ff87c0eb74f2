-- ===== src/Transaction/Layer/Soundness.antt =====
-- What holds of the layer (pkg/transaction/layer.go) between two events.
pub mod Events
use funsip.Base.{
  ℕ, ◌+◌, ◌≡◌, refl, inl, inr, false, Option, none, some, List, [], ◌∷◌, arith, length, get_elem?,
  lookup, insert, All, All-snoc, All-update, length-update, length-erase_idx, length-append,
  Option-cases, if-both,
}
use funsip.Text.{Text, text_keys}
use funsip.Sip.Message.{Message}
use funsip.Transaction.Keys.{key_text, make_client_key}
use funsip.Transaction.Client.{ClientTx}
use funsip.Transaction.Client as Client
use funsip.Transaction.Client.Invariant as ClientInvariant
use funsip.Transaction.Server.{ServerTx, responds, repeats, acks}
use funsip.Transaction.Server as Server
use funsip.Transaction.Server.Invariant as ServerInvariant
use funsip.Transaction.Layer.State.{
  Watcher, server_end, cancel_end, client_end, InviteTimer, Layer, new_layer, hand, on_server,
  on_client, server_key, find_server, find_server_tx, add_server,
}
use funsip.Transaction.Layer.Branches.{
  some_keys, link, client_tx_for, add_client, new_client_tx, cancel_branches, present,
  cancel_pending, handle_cancel_matched,
}
use funsip.Transaction.Layer.Receive.{
  server_tx_for, start_request, as_request, with_max_forwards, invite_key_of, cancel_or_request,
  handle_ack, receive_request,
}
use funsip.Transaction.Layer.Respond.{
  count_answer, receive_response, respond_to_request, expire, expire_invite,
}
use funsip.Transaction.Layer.Ends.{clean_up, is_over, wake, gc}
use funsip.Transaction.Layer.Steps.{
  LayerEvent, sets_timeout, arrives, opens, answers, cancels, server_fires, client_fires,
  invite_expires, wakes, collects, step, run,
}

pub record AllSound (l : Layer) : Type 0 where
  pub servers : All ServerInvariant.IsSound l.server_heap
  pub clients : All ClientInvariant.IsSound l.client_heap
  pub counted : l.tx_created ≡ length l.server_heap + length l.client_heap
  pub active : l.tx_active ≡ length l.watchers

pub on_server-AllSound :
    (i : ℕ) (f : ServerTx → ServerTx) (l : Layer)
    → ((tx : ServerTx) → ServerInvariant.IsSound tx → ServerInvariant.IsSound (f tx))
    → AllSound l
    → AllSound (on_server i f l)
on_server-AllSound i f l keeps v = record {
  servers = All-update ServerInvariant.IsSound f i l.server_heap keeps v.servers;
  clients = v.clients;
  counted = omega (arith, v.counted, length-update f i l.server_heap);
  active = v.active;
}

pub on_client-AllSound :
    (i : ℕ) (f : ClientTx → ClientTx) (l : Layer)
    → ((tx : ClientTx) → ClientInvariant.IsSound tx → ClientInvariant.IsSound (f tx))
    → AllSound l
    → AllSound (on_client i f l)
on_client-AllSound i f l keeps v = record {
  servers = v.servers;
  clients = All-update ClientInvariant.IsSound f i l.client_heap keeps v.clients;
  counted = omega (arith, v.counted, length-update f i l.client_heap);
  active = v.active;
}

pub add_server-AllSound :
    (key : Text) (tx : ServerTx) (w : Watcher) (l : Layer)
    → ServerInvariant.IsSound tx
    → AllSound l
    → AllSound (add_server key tx w l)
add_server-AllSound key tx w l sound v = record {
  servers = All-snoc ServerInvariant.IsSound l.server_heap sound v.servers;
  clients = v.clients;
  counted = omega (arith, v.counted, length-append l.server_heap (tx ∷ []));
  active = omega (arith, v.active, length-append l.watchers (w ∷ []));
}

pub server_tx_for-IsSound :
    (req : Message) (now : ℕ) → ServerInvariant.IsSound (server_tx_for req now)
server_tx_for-IsSound req now =
    if-both ServerInvariant.IsSound _ (ServerInvariant.new_server_invite_tx-IsSound req now)
      (ServerInvariant.new_server_non_invite_tx-IsSound req now)

client_tx_for-IsSound :
    (fwd : Message) (dest transport : Text) (now : ℕ)
    → ClientInvariant.IsSound (client_tx_for fwd dest transport now)
client_tx_for-IsSound fwd dest transport now =
    if-both ClientInvariant.IsSound _
      (ClientInvariant.new_client_invite_tx-IsSound fwd dest transport now)
      (ClientInvariant.new_client_non_invite_tx-IsSound fwd dest transport now)

add_client-AllSound :
    (tx : ClientTx) (l : Layer)
    → ClientInvariant.IsSound tx
    → AllSound l
    → AllSound (add_client tx l)
add_client-AllSound tx l sound v = record {
  servers = v.servers;
  clients = All-snoc ClientInvariant.IsSound l.client_heap sound v.clients;
  counted = omega (arith, v.counted, length-append l.client_heap (tx ∷ []));
  active =
      omega (arith, v.active, length-append l.watchers (client_end (length l.client_heap) ∷ []));
}

link-AllSound :
    (origin : Option Message) (key : Text) (l : Layer) → AllSound l → AllSound (link origin key l)
link-AllSound none key l v = v
link-AllSound (some req) key l v = record {
  servers = v.servers;
  clients = v.clients;
  counted = v.counted;
  active = v.active;
}

pub new_client_tx-AllSound :
    (origin : Option Message) (fwd : Message) (dest transport : Text) (now : ℕ) (l : Layer)
    → AllSound l
    → AllSound (new_client_tx origin fwd dest transport now l)
unfolding new_client_tx
new_client_tx-AllSound origin fwd dest transport now l v =
    link-AllSound origin _ _
      (add_client-AllSound _ l (client_tx_for-IsSound fwd dest transport now) v)

cancel_branches-AllSound :
    (is : List ℕ) (now : ℕ) (l : Layer) → AllSound l → AllSound (cancel_branches is now l)
cancel_branches-AllSound [] now l v = v
cancel_branches-AllSound (i ∷ is) now l v = elim (Option-cases (get_elem? l.client_heap i)) [
  | inl e ↦ rw e (cancel_branches-AllSound is now l v)
  | inr (tx, e) ↦ rw e (
      cancel_branches-AllSound is now _
        (if-both AllSound _ (new_client_tx-AllSound none _ _ _ now l v) v))
]

pub cancel_pending-AllSound :
    (key : Text) (now : ℕ) (l : Layer) → AllSound l → AllSound (cancel_pending key now l)
unfolding cancel_pending
cancel_pending-AllSound key now l v =
    cancel_branches-AllSound
      (present l.client_txs (some_keys (lookup text_keys key l.server_to_clients))) now l v

pub respond-IsSound :
    (resp : Message) (tx : ServerTx)
    → ServerInvariant.IsSound tx
    → ServerInvariant.IsSound (Server.respond resp tx)
unfolding Server.step
respond-IsSound resp tx v = ServerInvariant.server_step-IsSound tx (responds resp) v

pub repeat-IsSound :
    (req : Message) (tx : ServerTx)
    → ServerInvariant.IsSound tx
    → ServerInvariant.IsSound (Server.receive_request req tx)
unfolding Server.step
repeat-IsSound req tx v = ServerInvariant.server_step-IsSound tx (repeats req) v

pub handle_cancel_matched-AllSound :
    (cancel : Message) (i : ℕ) (key : Text) (now : ℕ) (l : Layer)
    → AllSound l
    → AllSound (handle_cancel_matched cancel i key now l)
unfolding handle_cancel_matched
handle_cancel_matched-AllSound cancel i key now l v =
    elim (Option-cases (find_server_tx cancel l)) [
      | inl e ↦
          rw (handle_cancel_matched, e)
            (on_server-AllSound i _ _
              (λ tx s. if-both ServerInvariant.IsSound _ (respond-IsSound _ tx s) s)
              (cancel_pending-AllSound key now _ (
                on_server-AllSound _ _ _ (respond-IsSound _) (
                  add_server-AllSound _ _ _ l
                    (ServerInvariant.new_server_non_invite_tx-IsSound cancel now) v))))
      | inr (j, e) ↦
          rw (handle_cancel_matched, e) (on_server-AllSound j _ l (repeat-IsSound cancel) v)
    ]

-- The maps, the timers and the records of calls do not count.
pub same_heaps-AllSound :
    (l k : Layer)
    → k.server_heap ≡ l.server_heap
    → k.client_heap ≡ l.client_heap
    → k.watchers ≡ l.watchers
    → k.tx_created ≡ l.tx_created
    → k.tx_active ≡ l.tx_active
    → AllSound l
    → AllSound k
same_heaps-AllSound l k hs hc hw hn ha v = record {
  servers = rw hs v.servers;
  clients = rw hc v.clients;
  counted = rw (hs, hc, hn) v.counted;
  active = rw (hw, ha) v.active;
}

pub hand-AllSound : (req : Message) (l : Layer) → AllSound l → AllSound (hand req l)
hand-AllSound req l = same_heaps-AllSound l (hand req l) refl refl refl refl refl
