-- ===== src/Transaction/Layer/Soundness/Events.antt =====
-- Every event keeps the layer of pkg/transaction/layer.go sound.
use funsip.Base.{
  ℕ, refl, inl, inr, false, List, [], ◌∷◌, arith, length, get_elem?, lookup, insert,
  length-erase_idx, Option-cases, if-both,
}
use funsip.Text.{Text, text_keys}
use funsip.Sip.Message.{Message}
use funsip.Transaction.Keys.{key_text, make_client_key}
use funsip.Transaction.Client.{ClientTx}
use funsip.Transaction.Client as Client
use funsip.Transaction.Client.Invariant as ClientInvariant
use funsip.Transaction.Server.{ServerTx, responds, repeats, acks}
use funsip.Transaction.Server as Server
use funsip.Transaction.Server.Invariant as ServerInvariant
use funsip.Transaction.Layer.State.{
  Watcher, server_end, cancel_end, client_end, InviteTimer, Layer, new_layer, server_key,
  find_server, find_server_tx,
}
use funsip.Transaction.Layer.Receive.{
  server_tx_for, start_request, as_request, with_max_forwards, invite_key_of, cancel_or_request,
  handle_ack, receive_request,
}
use funsip.Transaction.Layer.Respond.{
  count_answer, receive_response, respond_to_request, expire, expire_invite,
}
use funsip.Transaction.Layer.Ends.{clean_up, is_over, wake, gc}
use funsip.Transaction.Layer.Steps.{
  LayerEvent, sets_timeout, arrives, opens, answers, cancels, server_fires, client_fires,
  invite_expires, wakes, collects, step, run,
}
use funsip.Transaction.Layer.Soundness.{
  AllSound, on_server-AllSound, on_client-AllSound, add_server-AllSound, server_tx_for-IsSound,
  new_client_tx-AllSound, cancel_pending-AllSound, respond-IsSound, repeat-IsSound,
  handle_cancel_matched-AllSound, same_heaps-AllSound, hand-AllSound,
}

start_request-AllSound :
    (req : Message) (now : ℕ) (l : Layer) → AllSound l → AllSound (start_request req now l)
start_request-AllSound req now l v =
    let known =
      add_server-AllSound (server_key req) (server_tx_for req now)
        (server_end (length l.server_heap) (server_key req)) l (server_tx_for-IsSound req now) v in
    hand-AllSound req _
      (if-both AllSound _ (same_heaps-AllSound _ _ refl refl refl refl refl known) known)

as_request-AllSound :
    (req : Message) (now : ℕ) (l : Layer) → AllSound l → AllSound (as_request req now l)
as_request-AllSound req now l v = elim (Option-cases (find_server_tx req l)) [
  | inl e ↦ rw (as_request, e) (start_request-AllSound req now l v)
  | inr (i, e) ↦ rw (as_request, e) (on_server-AllSound i _ l (repeat-IsSound req) v)
]

cancel_or_request-AllSound :
    (req : Message) (now : ℕ) (l : Layer) → AllSound l → AllSound (cancel_or_request req now l)
cancel_or_request-AllSound req now l v = elim (Option-cases (find_server (invite_key_of req) l)) [
  | inl e ↦ rw (cancel_or_request, e) (as_request-AllSound req now l v)
  | inr (i, e) ↦
      rw (cancel_or_request, e) (handle_cancel_matched-AllSound req i (invite_key_of req) now l v)
]

handle_ack-AllSound : (ack : Message) (l : Layer) → AllSound l → AllSound (handle_ack ack l)
unfolding handle_ack Server.step
handle_ack-AllSound ack l v = elim (Option-cases (find_server_tx ack l)) [
  | inl e ↦ rw (handle_ack, e) (hand-AllSound ack l v)
  | inr (i, e) ↦
      rw (handle_ack, e)
        (on_server-AllSound i _ l (λ tx s. ServerInvariant.server_step-IsSound tx acks s) v)
]

receive_request-AllSound :
    (req : Message) (now : ℕ) (l : Layer) → AllSound l → AllSound (receive_request req now l)
unfolding receive_request
receive_request-AllSound req now l v = if-both AllSound _ (handle_ack-AllSound req l v) (
    if-both AllSound _ (cancel_or_request-AllSound (with_max_forwards req) now l v)
      (as_request-AllSound (with_max_forwards req) now l v))

count_answer-AllSound :
    (i : ℕ) (resp : Message) (now : ℕ) (l : Layer)
    → AllSound l
    → AllSound (count_answer i resp now l)
count_answer-AllSound i resp now l v =
    if-both AllSound _ (same_heaps-AllSound l _ refl refl refl refl refl v) v

receive_response-AllSound :
    (resp : Message) (now : ℕ) (l : Layer) → AllSound l → AllSound (receive_response resp now l)
unfolding receive_response Client.step
receive_response-AllSound resp now l v =
    elim (Option-cases (lookup text_keys (key_text (make_client_key resp)) l.client_txs)) [
      | inl e ↦ rw (receive_response, e) v
      | inr (i, e) ↦
          rw (receive_response, e)
            (on_client-AllSound i _ _
              (λ tx s. ClientInvariant.client_step-IsSound tx (Client.receives resp) s)
              (count_answer-AllSound i resp now l v))
    ]

respond_to_request-AllSound :
    (req resp : Message) (l : Layer) → AllSound l → AllSound (respond_to_request req resp l)
unfolding respond_to_request
respond_to_request-AllSound req resp l v = elim (Option-cases (find_server_tx req l)) [
  | inl e ↦ rw (respond_to_request, e) (same_heaps-AllSound l _ refl refl refl refl refl v)
  | inr (i, e) ↦ rw (respond_to_request, e) (on_server-AllSound i _ l (respond-IsSound resp) v)
]

expire-AllSound :
    (key : Text) (t : InviteTimer) (now : ℕ) (l : Layer)
    → AllSound l
    → AllSound (expire key t now l)
expire-AllSound key t now l v =
    let fired =
      same_heaps-AllSound l
        (record l {
          invite_timers = insert text_keys key (record t { live = false }) l.invite_timers;
        })
        refl refl refl refl refl v in
    if-both AllSound _
      (on_server-AllSound t.owner _ _ (λ tx s. respond-IsSound _ tx s)
        (cancel_pending-AllSound key now _ fired))
      fired

expire_invite-AllSound :
    (key : Text) (now : ℕ) (l : Layer) → AllSound l → AllSound (expire_invite key now l)
unfolding expire_invite
expire_invite-AllSound key now l v = elim (Option-cases (lookup text_keys key l.invite_timers)) [
  | inl e ↦ rw (expire_invite, e) v
  | inr (t, e) ↦ rw (expire_invite, e) (if-both AllSound t.live (expire-AllSound key t now l v) v)
]

clean_up-AllSound : (w : Watcher) (l : Layer) → AllSound l → AllSound (clean_up w l)
clean_up-AllSound (server_end i key) l v = same_heaps-AllSound l _ refl refl refl refl refl v
clean_up-AllSound (cancel_end i) l v = v
clean_up-AllSound (client_end i) l v = v

wake-AllSound : (n : ℕ) (l : Layer) → AllSound l → AllSound (wake n l)
unfolding wake
wake-AllSound n l v = elim (Option-cases (get_elem? l.watchers n)) [
  | inl e ↦ rw (wake, e) v
  | inr (w, e) ↦
      rw (wake, e)
        (if-both AllSound (is_over w l)
          (clean_up-AllSound w _ (record {
            servers = v.servers;
            clients = v.clients;
            counted = v.counted;
            active = omega (arith, v.active, length-erase_idx l.watchers n w e);
          }))
          v)
]

gc-AllSound : (l : Layer) → AllSound l → AllSound (gc l)
unfolding gc
gc-AllSound l v = same_heaps-AllSound l _ refl refl refl refl refl v

-- Every event keeps the layer sound: every transaction it ever made is sound, `txCreated` is their
-- number, and `txActive` is the number of the goroutines that still wait for the end of a transaction.
pub layer_step-AllSound : (l : Layer) (c : LayerEvent) → AllSound l → AllSound (step l c)
unfolding step Server.step Client.step
layer_step-AllSound l (sets_timeout timeout) v = same_heaps-AllSound l _ refl refl refl refl refl v
layer_step-AllSound l (arrives msg now) v =
    if-both AllSound _ (receive_request-AllSound msg now l v)
      (receive_response-AllSound msg now l v)
layer_step-AllSound l (opens origin fwd dest transport now) v =
    new_client_tx-AllSound origin fwd dest transport now l v
layer_step-AllSound l (answers req resp) v = respond_to_request-AllSound req resp l v
layer_step-AllSound l (cancels origin now) v = cancel_pending-AllSound (server_key origin) now l v
layer_step-AllSound l (server_fires i n) v =
    on_server-AllSound i _ l (λ tx s. ServerInvariant.server_step-IsSound tx (Server.fires n) s) v
layer_step-AllSound l (client_fires i n) v =
    on_client-AllSound i _ l (λ tx s. ClientInvariant.client_step-IsSound tx (Client.fires n) s) v
layer_step-AllSound l (invite_expires key now) v = expire_invite-AllSound key now l v
layer_step-AllSound l (wakes n) v = wake-AllSound n l v
layer_step-AllSound l collects v = gc-AllSound l v

pub layer_run-AllSound : (l : Layer) (cs : List LayerEvent) → AllSound l → AllSound (run l cs)
unfolding run
layer_run-AllSound l [] v = v
layer_run-AllSound l (c ∷ cs) v = layer_run-AllSound (step l c) cs (layer_step-AllSound l c v)

pub new_layer-AllSound : AllSound new_layer
unfolding new_layer
new_layer-AllSound = record { servers = tt; clients = tt; counted = refl; active = refl }
