-- ===== src/Transaction/Layer/Cancels.antt =====
-- What a CANCEL does in pkg/transaction/layer.go, and what the branches of a request are sent.
use funsip.Base.{
  ℕ, zero, suc, ◌==◌, ◌≡◌, refl, ◌∙◌, ap, sym, inl, inr, false, Option, none, some, List, [], ◌∷◌,
  ◌++◌, arith, if◌then◌else◌, length, get_elem?, lookup, All, Bool-cases, get_elem?-update_same,
  get_elem?-update_other, get_elem?-append, get_elem?-last, get_elem?-lt, All-join,
}
use mathlib.Core.List.{append-nil, append_assoc}
use funsip.Base.Int.{pos}
use funsip.Text.{Text, lit, text_keys}
use funsip.Sip.Message.{Message, create_response, new_request}
use funsip.Transaction.Keys.{
  State, trying, calling, proceeding, completed, confirmed, terminated, is_proceeding,
}
use funsip.Transaction.Layer.Due.{
  due_cancel, due_cancels, due_cancels-CancelEach, waiting, CancelEach,
}
use funsip.Transaction.Client.{ClientTx, new_client_non_invite_tx}
use funsip.Transaction.Server.{ServerTx, new_server_non_invite_tx}
use funsip.Transaction.Server as Server
use funsip.Transaction.Layer.State.{Layer, find_server_tx}
use funsip.Transaction.Layer.Branches.{
  some_keys, new_client_tx, cancel_branch, cancel_branches, present, cancel_pending,
  handle_cancel_matched, answered_cancel, new_cancel, terminate_proceeding, is_pending, cancel_for,
}
use funsip.Transaction.Layer.Servers.{cancel_pending-SameServers}

-- The places that the key's branches have among the client transactions.
abbrev pub branches_of : Text → Layer → List ℕ
branches_of key l = present l.client_txs (some_keys (lookup text_keys key l.server_to_clients))

abbrev IsIdle : ClientTx → Type 0
IsIdle tx = is_pending tx ≡ false

no_due_cancel :
    (heap : List ClientTx) (i now : ℕ) → All IsIdle heap → due_cancel (get_elem? heap i) now ≡ []
no_due_cancel [] i now h = refl
no_due_cancel (tx ∷ heap) zero now h = rw h.0 refl
no_due_cancel (tx ∷ heap) (suc i) now h = no_due_cancel heap i now h.1

due_cancel-append :
    (heap extra : List ClientTx) (i now : ℕ)
    → All IsIdle extra
    → due_cancel (get_elem? (heap ++ extra) i) now ≡ due_cancel (get_elem? heap i) now
due_cancel-append [] extra i now h = no_due_cancel extra i now h
due_cancel-append (tx ∷ heap) extra zero now h = refl
due_cancel-append (tx ∷ heap) extra (suc i) now h = due_cancel-append heap extra i now h

due_cancel-IsIdle : (o : Option ClientTx) (now : ℕ) → All IsIdle (due_cancel o now)
unfolding new_client_non_invite_tx
due_cancel-IsIdle none now = tt
due_cancel-IsIdle (some tx) now = ground arith

cancel_branch-heap :
    (o : Option ClientTx) (now : ℕ) (l : Layer)
    → (cancel_branch o now l).client_heap ≡ l.client_heap ++ due_cancel o now
unfolding new_client_tx cancel_for new_request
cancel_branch-heap none now l = sym (append-nil _)
cancel_branch-heap (some tx) now l = elim (Bool-cases (is_pending tx)) [
  | inl e ↦ rw e refl
  | inr e ↦ rw e (sym (append-nil _))
]

cancel_branches-heap :
    (is : List ℕ) (now : ℕ) (l : Layer) (heap extra : List ClientTx)
    → l.client_heap ≡ heap ++ extra
    → All IsIdle extra
    → (cancel_branches is now l).client_heap ≡ l.client_heap ++ due_cancels heap is now
cancel_branches-heap [] now l heap extra e h = sym (append-nil _)
cancel_branches-heap (i ∷ is) now l heap extra e h =
    let o = get_elem? l.client_heap i in
    let d = due_cancel (get_elem? heap i) now in
    let due = ap (λ hs. due_cancel (get_elem? hs i) now) e ∙ due_cancel-append heap extra i now h in
    let next = cancel_branch-heap o now l ∙ ap (λ ds. l.client_heap ++ ds) due in
    cancel_branches-heap is now (cancel_branch o now l) heap (extra ++ d)
      (next ∙ ap (λ hs. hs ++ d) e ∙ append_assoc heap extra d)
      (All-join IsIdle extra d h (due_cancel-IsIdle (get_elem? heap i) now))
    ∙ ap (λ hs. hs ++ due_cancels heap is now) next
    ∙ append_assoc l.client_heap d (due_cancels heap is now)

-- CancelPendingBranches opens a CANCEL transaction for each branch of the key that is an INVITE in
-- Calling or Proceeding, to where the INVITE went, in the order in which the branches were opened; no
-- other client transaction is changed or opened, and no server transaction is.
pub cancel_pending-due :
    (key : Text) (now : ℕ) (l : Layer)
    → ((cancel_pending key now l).client_heap
        ≡ l.client_heap ++ due_cancels l.client_heap (branches_of key l) now)
      × ((cancel_pending key now l).server_heap ≡ l.server_heap)
unfolding cancel_pending
cancel_pending-due key now l = (
  cancel_branches-heap (branches_of key l) now l l.client_heap [] (sym (append-nil _)) tt,
  (cancel_pending-SameServers key now l).heap,
)

-- The INVITE's transaction afterwards: an INVITE that has no final response yet is answered with 487.
abbrev pub cancelled : State → ServerTx → ServerTx
cancelled proceeding tx =
    Server.respond (create_response tx.request (pos 487) (lit "Request Terminated")) tx
cancelled _ tx = tx

terminate_proceeding-cancelled : (tx : ServerTx) → terminate_proceeding tx ≡ cancelled tx.state tx
terminate_proceeding-cancelled tx = by_state tx.state
  where
    by_state :
        (s : State)
        → (if is_proceeding s
            then Server.respond (create_response tx.request (pos 487) (lit "Request Terminated")) tx
            else tx)
          ≡ cancelled s tx
    by_state trying = refl
    by_state calling = refl
    by_state proceeding = refl
    by_state completed = refl
    by_state confirmed = refl
    by_state terminated = refl

-- An element's place is not the place behind the last one.
not_last {ℓ} :
    {A : Type ℓ} (xs : List A) (i : ℕ) (a : A)
    → get_elem? xs i ≡ some a
    → ((length xs == i) ≡ false) × ((i == length xs) ≡ false)
not_last xs i a h = ground (arith, get_elem?-lt xs i a h)

new_cancel-invite :
    (cancel : Message) (i : ℕ) (key : Text) (now : ℕ) (l : Layer) (tx : ServerTx)
    → get_elem? l.server_heap i ≡ some tx
    → get_elem? (new_cancel cancel i key now l).server_heap i ≡ some (cancelled tx.state tx)
new_cancel-invite cancel i key now l tx found =
    let same = (cancel_pending-SameServers key now (answered_cancel cancel now l)).heap in
    let there =
      get_elem?-append l.server_heap (new_server_non_invite_tx cancel now ∷ []) i tx found in
    let kept =
      get_elem?-update_other (Server.respond (create_response cancel (pos 200) (lit "OK")))
        (length l.server_heap) i _ tx (not_last l.server_heap i tx found).0 there in
    get_elem?-update_same terminate_proceeding i _ tx (ap (λ heap. get_elem? heap i) same ∙ kept)
    ∙ ap some (terminate_proceeding-cancelled tx)

new_cancel-cancel :
    (cancel : Message) (i : ℕ) (key : Text) (now : ℕ) (l : Layer) (tx : ServerTx)
    → get_elem? l.server_heap i ≡ some tx
    → get_elem? (new_cancel cancel i key now l).server_heap (length l.server_heap)
      ≡ some (
          Server.respond
            (create_response cancel (pos 200) (lit "OK"))
            (new_server_non_invite_tx cancel now))
new_cancel-cancel cancel i key now l tx found =
    let same = (cancel_pending-SameServers key now (answered_cancel cancel now l)).heap in
    let answer = Server.respond (create_response cancel (pos 200) (lit "OK")) in
    let opened = new_server_non_invite_tx cancel now in
    get_elem?-update_other terminate_proceeding i (length l.server_heap) _ (answer opened)
      (not_last l.server_heap i tx found).1
      (ap (λ heap. get_elem? heap (length l.server_heap)) same
        ∙ get_elem?-update_same answer (length l.server_heap) (l.server_heap ++ opened ∷ []) opened
            (get_elem?-last l.server_heap opened))

-- A CANCEL that matches the INVITE transaction at place `i`, in any state, and has no transaction of its
-- own, is given one, which has answered it with 200. Each branch of the INVITE that has no final response
-- yet is sent one CANCEL, which names the INVITE as RFC 3261 has it and goes where the INVITE went; no
-- other client transaction is changed or opened. If the INVITE is in Proceeding, it is answered with 487,
-- and if not, its transaction stays as it was. The script is not called.
pub cancel_matched :
    (cancel : Message) (i : ℕ) (key : Text) (now : ℕ) (l : Layer) (tx : ServerTx)
    → find_server_tx cancel l ≡ none
    → get_elem? l.server_heap i ≡ some tx
    → let k = handle_cancel_matched cancel i key now l in
      (get_elem? k.server_heap i ≡ some (cancelled tx.state tx))
      × (get_elem? k.server_heap (length l.server_heap)
          ≡ some (
              Server.respond
                (create_response cancel (pos 200) (lit "OK"))
                (new_server_non_invite_tx cancel now)))
      × ((opened : List ClientTx) × (k.client_heap ≡ l.client_heap ++ opened)
          × CancelEach now (waiting l.client_heap (branches_of key l)) opened)
      × (k.handed ≡ l.handed)
unfolding handle_cancel_matched
cancel_matched cancel i key now l tx new found =
    rw (handle_cancel_matched, new)
      (
        new_cancel-invite cancel i key now l tx found,
        new_cancel-cancel cancel i key now l tx found,
        (
          due_cancels l.client_heap (branches_of key l) now,
          (cancel_pending-due key now (answered_cancel cancel now l)).0,
          due_cancels-CancelEach l.client_heap (branches_of key l) now,
        ),
        (cancel_pending-SameServers key now (answered_cancel cancel now l)).calls,
      )
