-- ===== src/Transaction/Layer/Kept.antt =====
-- Which events of pkg/transaction/layer.go leave a server transaction in the map.
use funsip.Base.{
  ℕ, ◌≡◌, refl, sym, subst, ◌&&◌, inl, inr, Bool, true, false, Option, none, some, some-injective,
  List, [], ◌∷◌, length, get_elem?, lookup, insert, lookup-insert, if-both, Option-cases,
  Bool-cases,
}
use funsip.Base.Int.{gt_const, ge_const}
use funsip.Text.{Text, lit, text_eq, text_keys}
use funsip.Sip.Message.{Message}
use funsip.Transaction.Keys.{key_text, make_client_key}
use funsip.Transaction.Server.{ServerTx, new_server_non_invite_tx}
use funsip.Transaction.Layer.State.{
  Layer, InviteTimer, Watcher, server_end, cancel_end, client_end, server_key, find_server,
  find_server_tx, add_server,
}
use funsip.Transaction.Layer.Branches.{
  cancel_pending, handle_cancel_matched, answered_cancel, new_cancel, new_client_tx,
}
use funsip.Transaction.Layer.Receive.{
  as_request, with_max_forwards, invite_key_of, cancel_or_request, dispatch, receive_request,
  handle_ack, server_tx_for, is_invite,
}
use funsip.Transaction.Layer.Respond.{
  receive_response, receive_message, respond_to_request, expire, expire_invite, server_proceeds,
  count_answer,
}
use funsip.Transaction.Layer.Ends.{server_done, open_servers, wake, gc, is_over, clean_up}
use funsip.Transaction.Layer.Servers.{cancel_pending-SameServers, new_client_tx-SameServers}
use funsip.Transaction.Layer.Steps.{
  LayerEvent, sets_timeout, arrives, opens, answers, cancels, server_fires, client_fires,
  invite_expires, wakes, collects, step, run,
}

abbrev pub is_found : Option ℕ → Bool
is_found none = false
is_found (some i) = true

pub false_known : is_found none ≡ true → ⊥
false_known h = cc

-- Whether the map has a transaction under the key.
abbrev pub HasKey : Text → Layer → Type 0
HasKey key l = is_found (find_server key l) ≡ true

-- Whether the transaction under the key has ended.
abbrev ended_at : Option ℕ → Layer → Bool
ended_at none l = false
ended_at (some i) l = server_done (get_elem? l.server_heap i)

abbrev pub has_ended : Text → Layer → Bool
has_ended key l = ended_at (find_server key l) l

abbrev Spares : Text → LayerEvent → Layer → Type 0
Spares key collects l = has_ended key l ≡ false
Spares key _ l = Unit

-- No collection in a run finds the transaction under the key at its end.
abbrev pub Uncollected : Text → Layer → List LayerEvent → Type 0
Uncollected key l [] = Unit
Uncollected key l (e ∷ es) = Spares key e l × Uncollected key (step l e) es

module _ (key : Text) where
  same-HasKey : (l k : Layer) → k.server_txs ≡ l.server_txs → HasKey key l → HasKey key k
  same-HasKey l k e h = rw e h

  add_server-HasKey :
      (other : Text) (tx : ServerTx) (w : Watcher) (l : Layer)
      → HasKey key l
      → HasKey key (add_server other tx w l)
  add_server-HasKey other tx w l h =
      rw (lookup-insert text_keys other key (length l.server_heap) l.server_txs)
        (if-both (λ (o : Option ℕ). is_found o ≡ true) (text_eq other key) refl h)

  as_request-HasKey :
      (req : Message) (now : ℕ) (l : Layer) → HasKey key l → HasKey key (as_request req now l)
  as_request-HasKey req now l h = elim (Option-cases (find_server_tx req l)) [
    | inl e ↦
        rw (as_request, e)
          (let known =
              add_server-HasKey (server_key req) (server_tx_for req now)
                (server_end (length l.server_heap) (server_key req)) l h in
            if-both (HasKey key) (is_invite req && gt_const l.invite_timeout 0) known known)
    | inr (i, e) ↦ rw (as_request, e) h
  ]

  handle_cancel_matched-HasKey :
      (cancel : Message) (i : ℕ) (invite_key : Text) (now : ℕ) (l : Layer)
      → HasKey key l
      → HasKey key (handle_cancel_matched cancel i invite_key now l)
  unfolding handle_cancel_matched
  handle_cancel_matched-HasKey cancel i invite_key now l h =
      elim (Option-cases (find_server_tx cancel l)) [
        | inl e ↦
            rw (handle_cancel_matched, e)
              (same-HasKey (answered_cancel cancel now l) (new_cancel cancel i invite_key now l)
                (cancel_pending-SameServers invite_key now (answered_cancel cancel now l)).txs
                (add_server-HasKey (server_key cancel) (new_server_non_invite_tx cancel now)
                  (cancel_end (length l.server_heap)) l h))
        | inr (j, e) ↦ rw (handle_cancel_matched, e) h
      ]

  dispatch-HasKey :
      (req : Message) (now : ℕ) (l : Layer) → HasKey key l → HasKey key (dispatch req now l)
  dispatch-HasKey req now l h =
      if-both (HasKey key) (text_eq req.method (lit "CANCEL"))
        (elim (Option-cases (find_server (invite_key_of req) l)) [
          | inl e ↦ rw (cancel_or_request, e) (as_request-HasKey req now l h)
          | inr (i, e) ↦
              rw (cancel_or_request, e)
                (handle_cancel_matched-HasKey req i (invite_key_of req) now l h)
        ])
        (as_request-HasKey req now l h)

  handle_ack-HasKey : (ack : Message) (l : Layer) → HasKey key l → HasKey key (handle_ack ack l)
  unfolding handle_ack
  handle_ack-HasKey ack l h = elim (Option-cases (find_server_tx ack l)) [
    | inl e ↦ rw (handle_ack, e) h
    | inr (i, e) ↦ rw (handle_ack, e) h
  ]

  receive_response-HasKey :
      (resp : Message) (now : ℕ) (l : Layer)
      → HasKey key l
      → HasKey key (receive_response resp now l)
  unfolding receive_response
  receive_response-HasKey resp now l h =
      elim (Option-cases (lookup text_keys (key_text (make_client_key resp)) l.client_txs)) [
        | inl e ↦ rw (receive_response, e) h
        | inr (i, e) ↦
            rw (receive_response, e)
              (same-HasKey l (count_answer i resp now l)
                (if-both (λ (k : Layer). k.server_txs ≡ l.server_txs)
                  (ge_const resp.status_code 200) refl refl)
                h)
      ]

  receive_message-HasKey :
      (msg : Message) (now : ℕ) (l : Layer) → HasKey key l → HasKey key (receive_message msg now l)
  unfolding receive_request
  receive_message-HasKey msg now l h =
      if-both (HasKey key) msg.is_request
        (if-both (HasKey key) (text_eq msg.method (lit "ACK")) (handle_ack-HasKey msg l h)
          (dispatch-HasKey (with_max_forwards msg) now l h))
        (receive_response-HasKey msg now l h)

  respond_to_request-HasKey :
      (req resp : Message) (l : Layer) → HasKey key l → HasKey key (respond_to_request req resp l)
  unfolding respond_to_request
  respond_to_request-HasKey req resp l h = elim (Option-cases (find_server_tx req l)) [
    | inl e ↦ rw (respond_to_request, e) h
    | inr (i, e) ↦ rw (respond_to_request, e) h
  ]

  expire-HasKey :
      (timer : Text) (t : InviteTimer) (now : ℕ) (l : Layer)
      → HasKey key l
      → HasKey key (expire timer t now l)
  expire-HasKey timer t now l h =
      let fired : Layer = record l {
        invite_timers = insert text_keys timer (record t { live = false }) l.invite_timers;
      } in
      if-both (HasKey key) (server_proceeds (get_elem? l.server_heap t.owner))
        (same-HasKey fired (cancel_pending timer now fired)
          (cancel_pending-SameServers timer now fired).txs h)
        h

  expire_invite-HasKey :
      (timer : Text) (now : ℕ) (l : Layer) → HasKey key l → HasKey key (expire_invite timer now l)
  unfolding expire_invite
  expire_invite-HasKey timer now l h =
      elim (Option-cases (lookup text_keys timer l.invite_timers)) [
        | inl e ↦ rw (expire_invite, e) h
        | inr (t, e) ↦
            rw (expire_invite, e) (if-both (HasKey key) t.live (expire-HasKey timer t now l h) h)
      ]

  clean_up-HasKey : (w : Watcher) (l : Layer) → HasKey key l → HasKey key (clean_up w l)
  clean_up-HasKey (server_end i other) l h = h
  clean_up-HasKey (cancel_end i) l h = h
  clean_up-HasKey (client_end i) l h = h

  wake-HasKey : (n : ℕ) (l : Layer) → HasKey key l → HasKey key (wake n l)
  unfolding wake
  wake-HasKey n l h = elim (Option-cases (get_elem? l.watchers n)) [
    | inl e ↦ rw (wake, e) h
    | inr (w, e) ↦ rw (wake, e) (if-both (HasKey key) (is_over w l) (clean_up-HasKey w _ h) h)
  ]

  -- The collector takes out only what has ended.
  open_servers-found :
      (heap : List ServerTx) (m : List (Text × ℕ)) (i : ℕ)
      → lookup text_keys key m ≡ some i
      → server_done (get_elem? heap i) ≡ false
      → is_found (lookup text_keys key (open_servers heap m)) ≡ true
  open_servers-found heap [] i h e = absurd cc
  open_servers-found heap ((k, j) ∷ m) i h e = elim (Bool-cases (text_eq k key)) [
    | inl same ↦
        let found : some j ≡ some i = rw same at h in
        let open_yet : server_done (get_elem? heap j) ≡ false =
          subst (λ p. server_done (get_elem? heap p) ≡ false) (sym (some-injective j i found)) e in
        rw (open_yet, same) refl
    | inr other ↦
        let later = open_servers-found heap m i (rw other at h) e in
        if-both (λ (o : List (Text × ℕ)). is_found (lookup text_keys key o) ≡ true)
          (server_done (get_elem? heap j)) {x = open_servers heap m}
          {y = (k, j) ∷ open_servers heap m} later (rw other later)
  ]

  gc-HasKey : (l : Layer) → HasKey key l → has_ended key l ≡ false → HasKey key (gc l)
  unfolding gc
  gc-HasKey l h spared = elim (Option-cases (find_server key l)) [
    | inl e ↦ absurd (false_known (rw e at h))
    | inr (i, e) ↦ open_servers-found l.server_heap l.server_txs i e (rw e at spared)
  ]

  step-HasKey : (l : Layer) (e : LayerEvent) → Spares key e l → HasKey key l → HasKey key (step l e)
  unfolding step
  step-HasKey l (sets_timeout timeout) s h = h
  step-HasKey l (arrives msg now) s h = receive_message-HasKey msg now l h
  step-HasKey l (opens origin fwd dest transport now) s h =
      same-HasKey l (new_client_tx origin fwd dest transport now l)
        (new_client_tx-SameServers origin fwd dest transport now l).txs h
  step-HasKey l (answers req resp) s h = respond_to_request-HasKey req resp l h
  step-HasKey l (cancels origin now) s h =
      same-HasKey l (cancel_pending (server_key origin) now l)
        (cancel_pending-SameServers (server_key origin) now l).txs h
  step-HasKey l (server_fires i n) s h = h
  step-HasKey l (client_fires i n) s h = h
  step-HasKey l (invite_expires timer now) s h = expire_invite-HasKey timer now l h
  step-HasKey l (wakes n) s h = wake-HasKey n l h
  step-HasKey l collects s h = gc-HasKey l h s

  pub run-HasKey :
      (l : Layer) (es : List LayerEvent)
      → Uncollected key l es
      → HasKey key l
      → HasKey key (run l es)
  unfolding run
  run-HasKey l [] u h = h
  run-HasKey l (e ∷ es) u h = run-HasKey (step l e) es u.1 (step-HasKey l e u.0 h)
