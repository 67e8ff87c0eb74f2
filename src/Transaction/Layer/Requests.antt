-- ===== src/Transaction/Layer/Requests.antt =====
-- What receiveRequest (pkg/transaction/layer.go) absorbs.
use funsip.Base.{
  ℕ, ◌≡◌, refl, ◌∙◌, ap, sym, subst, inl, inr, true, false, ◌&&◌, List, length, lookup-insert,
  Option-cases, if-both,
}
use funsip.Base.Int.{gt_const}
use funsip.Text.{Text, lit, text_eq, text_keys, text_eq_iff}
use funsip.Sip.Message.{Message}
use funsip.Transaction.Server.{ServerTx, new_server_non_invite_tx}
use funsip.Transaction.Layer.State.{
  Watcher, server_end, cancel_end, Layer, server_key, find_server, find_server_tx, add_server,
}
use funsip.Transaction.Layer.Branches.{handle_cancel_matched, answered_cancel, new_cancel}
use funsip.Transaction.Layer.Receive.{
  as_request, with_max_forwards, invite_key_of, cancel_or_request, dispatch, receive_request,
  server_tx_for, is_invite,
}
use funsip.Transaction.Layer.Kept.{is_found, false_known, HasKey, Uncollected, run-HasKey}
use funsip.Transaction.Layer.Steps.{LayerEvent, run}
use funsip.Transaction.Layer.Servers.{cancel_pending-SameServers}

-- Whether the request has a transaction.
abbrev IsKnown : Message → Layer → Type 0
IsKnown req l = HasKey (server_key req) l

add_server-IsKnown :
    (req : Message) (tx : ServerTx) (w : Watcher) (l : Layer)
    → IsKnown req (add_server (server_key req) tx w l)
add_server-IsKnown req tx w l =
    rw
      (
        lookup-insert text_keys (server_key req) (server_key req) (length l.server_heap)
            l.server_txs,
        (text_eq_iff (server_key req) (server_key req)).1 refl,
      )
      refl

as_request-IsKnown : (req : Message) (now : ℕ) (l : Layer) → IsKnown req (as_request req now l)
as_request-IsKnown req now l = elim (Option-cases (find_server_tx req l)) [
  | inl e ↦
      rw (as_request, e)
        (let known =
            add_server-IsKnown req (server_tx_for req now)
              (server_end (length l.server_heap) (server_key req)) l in
          if-both (IsKnown req) (is_invite req && gt_const l.invite_timeout 0) known known)
  | inr (i, e) ↦ rw (as_request, e, e) refl
]

-- A matched CANCEL is never handed to the script, and has a transaction from then on.
pub record IsTaken (req : Message) (l k : Layer) : Type 0 where
  pub known : IsKnown req k
  pub silent : k.handed ≡ l.handed

same_txs-IsKnown :
    (req : Message) (l k : Layer) → k.server_txs ≡ l.server_txs → IsKnown req l → IsKnown req k
same_txs-IsKnown req l k e known = rw e known

new_cancel-IsTaken :
    (cancel : Message) (i : ℕ) (key : Text) (now : ℕ) (l : Layer)
    → IsTaken cancel l (new_cancel cancel i key now l)
new_cancel-IsTaken cancel i key now l =
    let same = cancel_pending-SameServers key now (answered_cancel cancel now l) in
    record {
      known =
          same_txs-IsKnown cancel (answered_cancel cancel now l) (new_cancel cancel i key now l)
            same.txs
            (add_server-IsKnown cancel (new_server_non_invite_tx cancel now)
              (cancel_end (length l.server_heap)) l);
      silent = same.calls;
    }

handle_cancel_matched-IsTaken :
    (cancel : Message) (i : ℕ) (key : Text) (now : ℕ) (l : Layer)
    → IsTaken cancel l (handle_cancel_matched cancel i key now l)
unfolding handle_cancel_matched
handle_cancel_matched-IsTaken cancel i key now l = elim (Option-cases (find_server_tx cancel l)) [
  | inl e ↦ rw (handle_cancel_matched, e) (new_cancel-IsTaken cancel i key now l)
  | inr (j, e) ↦ rw (handle_cancel_matched, e) (record { known = rw e refl; silent = refl })
]

as_request-silent :
    (req : Message) (now : ℕ) (l : Layer) → IsKnown req l → (as_request req now l).handed ≡ l.handed
as_request-silent req now l k = elim (Option-cases (find_server_tx req l)) [
  | inl e ↦ absurd (false_known (subst (λ o. is_found o ≡ true) e k))
  | inr (i, e) ↦ rw (as_request, e) refl
]

dispatch-IsKnown : (req : Message) (now : ℕ) (l : Layer) → IsKnown req (dispatch req now l)
dispatch-IsKnown req now l =
    if-both (IsKnown req) (text_eq req.method (lit "CANCEL"))
      (elim (Option-cases (find_server (invite_key_of req) l)) [
        | inl e ↦ rw (cancel_or_request, e) (as_request-IsKnown req now l)
        | inr (i, e) ↦
            rw (cancel_or_request, e)
              (handle_cancel_matched-IsTaken req i (invite_key_of req) now l).known
      ])
      (as_request-IsKnown req now l)

dispatch-silent :
    (req : Message) (now : ℕ) (l : Layer) → IsKnown req l → (dispatch req now l).handed ≡ l.handed
dispatch-silent req now l known =
    if-both (λ (k : Layer). k.handed ≡ l.handed) (text_eq req.method (lit "CANCEL"))
      (elim (Option-cases (find_server (invite_key_of req) l)) [
        | inl e ↦ rw (cancel_or_request, e) (as_request-silent req now l known)
        | inr (i, e) ↦
            rw (cancel_or_request, e)
              (handle_cancel_matched-IsTaken req i (invite_key_of req) now l).silent
      ])
      (as_request-silent req now l known)

pub receive_request-dispatch :
    (req : Message) (now : ℕ) (l : Layer)
    → text_eq req.method (lit "ACK") ≡ false
    → receive_request req now l ≡ dispatch (with_max_forwards req) now l
unfolding receive_request
receive_request-dispatch req now l h = rw h refl

-- A request that is no ACK is handed to the script at most once. After it was received, let there be any
-- events: other messages, answers and CANCELs, timers and goroutines, and collections, none of which
-- comes when the request's transaction is in the map and has ended. Then, when the request comes again,
-- whatever the state of its transaction, the script is not called. This holds of a CANCEL too.
pub request_handed_once :
    (req : Message) (now later : ℕ) (l : Layer) (events : List LayerEvent)
    → text_eq req.method (lit "ACK") ≡ false
    → Uncollected (server_key (with_max_forwards req)) (receive_request req now l) events
    → let k = run (receive_request req now l) events in
      (receive_request req later k).handed ≡ k.handed
request_handed_once req now later l events h spared =
    let first = receive_request req now l in
    let again = with_max_forwards req in
    let known : IsKnown again first =
      subst (IsKnown again) (sym (receive_request-dispatch req now l h))
        (dispatch-IsKnown again now l) in
    ap (λ (k : Layer). k.handed) (receive_request-dispatch req later (run first events) h)
    ∙ dispatch-silent again later (run first events)
        (run-HasKey (server_key again) first events spared known)
