-- ===== src/Transaction/Layer/Branches.antt =====
-- Client transactions of pkg/transaction/layer.go: their creation, and the CANCELs for pending branches.
use funsip.Base.{
  ℕ, suc, Bool, ◌&&◌, ◌||◌, Option, none, some, List, [], ◌∷◌, ◌++◌, if◌then◌else◌, length,
  get_elem?, lookup, insert,
}
use funsip.Base.Int.{pos}
use funsip.Text.{Text, lit, text_eq, text_keys}
use funsip.Sip.Headers.{get_all, set}
use funsip.Sip.Message.{Message, new_request, create_response, copy_header, add_each, cseq_num}
use funsip.Sip.Message.Wire.{int_text}
use funsip.Transaction.Keys.{is_proceeding, is_ict, key_text}
use funsip.Transaction.Client.{ClientTx, new_client_invite_tx, new_client_non_invite_tx, is_calling}
use funsip.Transaction.Server.{ServerTx, new_server_invite_tx, new_server_non_invite_tx}
use funsip.Transaction.Server as Server
use funsip.Transaction.Layer.State.{
  Layer, on_server, server_key, find_server_tx, add_server, cancel_end, client_end,
}

abbrev pub some_keys : Option (List Text) → List Text
some_keys none = []
some_keys (some ks) = ks

abbrev pub link : Option Message → Text → Layer → Layer
link none key l = l
link (some origin) key l = record l {
  server_to_clients =
      insert text_keys (server_key origin)
        (some_keys (lookup text_keys (server_key origin) l.server_to_clients) ++ key ∷ [])
        l.server_to_clients;
}

abbrev pub client_tx_for : Message → Text → Text → ℕ → ClientTx
client_tx_for fwd dest transport now =
    if text_eq fwd.method (lit "INVITE")
    then new_client_invite_tx fwd dest transport now
    else new_client_non_invite_tx fwd dest transport now

abbrev pub add_client : ClientTx → Layer → Layer
add_client tx l = record l {
  client_heap = l.client_heap ++ tx ∷ [];
  client_txs = insert text_keys (key_text tx.key) (length l.client_heap) l.client_txs;
  watchers = l.watchers ++ client_end (length l.client_heap) ∷ [];
  tx_created = suc l.tx_created;
  tx_active = suc l.tx_active;
}

-- newClientTxWithOrigin: NewClientTx without an origin, NewClientTxFor with one.
unfoldable pub new_client_tx : Option Message → Message → Text → Text → ℕ → Layer → Layer
new_client_tx origin fwd dest transport now l =
    let tx = client_tx_for fwd dest transport now in link origin (key_text tx.key) (add_client tx l)

-- The CANCEL of a client transaction's INVITE.
unfoldable pub cancel_for : Message → Message
unfolding new_request
cancel_for invite =
    let cancel = new_request (lit "CANCEL") invite.request_uri in
    let via = copy_header (lit "Via") invite.headers cancel.headers in
    let from = copy_header (lit "From") invite.headers via in
    let to = copy_header (lit "To") invite.headers from in
    let call = copy_header (lit "Call-ID") invite.headers to in
    let cseq = set call (lit "CSeq") (int_text (cseq_num invite) ++ lit " CANCEL") in
    let forwards = set cseq (lit "Max-Forwards") (lit "70") in
    record cancel {
      headers = add_each (lit "Route") (get_all invite.headers (lit "Route")) forwards;
    }

abbrev pub is_pending : ClientTx → Bool
is_pending tx = is_ict tx.tx_type && (is_calling tx.state || is_proceeding tx.state)

abbrev pub cancel_branch : Option ClientTx → ℕ → Layer → Layer
cancel_branch none now l = l
cancel_branch (some tx) now l =
    if is_pending tx
    then new_client_tx none (cancel_for tx.request) tx.dest tx.transport now l
    else l

-- sendCancelForBranch, under the tests of its caller's loop
abbrev pub cancel_branches : List ℕ → ℕ → Layer → Layer
cancel_branches [] now l = l
cancel_branches (i ∷ is) now l =
    cancel_branches is now (cancel_branch (get_elem? l.client_heap i) now l)

-- The transactions of the keys that are still in the map.
abbrev pub present : List (Text × ℕ) → List Text → List ℕ
present m [] = []
present m (k ∷ ks) = elim (lookup text_keys k m) [ none ↦ present m ks | some i ↦ i ∷ present m ks ]

-- cancelPendingBranchesForServerKey
unfoldable pub cancel_pending : Text → ℕ → Layer → Layer
cancel_pending key now l =
    cancel_branches (present l.client_txs (some_keys (lookup text_keys key l.server_to_clients)))
      now l

-- CancelPendingBranches
abbrev pub cancel_pending_branches : Message → ℕ → Layer → Layer
cancel_pending_branches origin now l = cancel_pending (server_key origin) now l

abbrev pub terminate_proceeding : ServerTx → ServerTx
terminate_proceeding tx =
    if is_proceeding tx.state
    then Server.respond (create_response tx.request (pos 487) (lit "Request Terminated")) tx
    else tx

-- The CANCEL's own transaction, answered.
abbrev pub answered_cancel : Message → ℕ → Layer → Layer
answered_cancel cancel now l =
    on_server (length l.server_heap) (Server.respond (create_response cancel (pos 200) (lit "OK")))
      (add_server (server_key cancel) (new_server_non_invite_tx cancel now)
        (cancel_end (length l.server_heap)) l)

abbrev pub new_cancel : Message → ℕ → Text → ℕ → Layer → Layer
new_cancel cancel i invite_key now l =
    on_server i terminate_proceeding (cancel_pending invite_key now (answered_cancel cancel now l))

-- handleCancelMatched, with the place of the INVITE's transaction
unfoldable pub handle_cancel_matched : Message → ℕ → Text → ℕ → Layer → Layer
handle_cancel_matched cancel i invite_key now l = elim (find_server_tx cancel l) [
  | none ↦ new_cancel cancel i invite_key now l
  | some j ↦ on_server j (Server.receive_request cancel) l
]
