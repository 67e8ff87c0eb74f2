-- ===== src/Transaction/Server/Progress.antt =====
-- What every run of a server transaction (pkg/transaction/server.go) does.
use funsip.Base.{ℕ, ◌≡◌, true, false, List, ◌∷◌, arith}
use funsip.Sip.Message.{Message}
use funsip.Transaction.Keys.{
  State, trying, proceeding, completed, confirmed, terminated, TxType, ist, nist,
}
use funsip.Transaction.Timers.{TimerName, tg, th, ti, tj}
use funsip.Transaction.Server.{
  ServerTx, trying_for, new_server_invite_tx, new_server_non_invite_tx, respond, receive_request,
  receive_ack, fire, ServerEvent, responds, repeats, acks, fires, step, run,
}
use funsip.Transaction.Server.Invariant.{
  IsSound, OneFinal, is_open, running, run-IsSound, new_server_invite_tx-IsSound,
  new_server_non_invite_tx-IsSound,
}

-- The transitions of RFC 3261, figures 7 and 8.
infix 40 ◌⟶◌
pub data ◌⟶◌ : State → State → Type 0 where
  stay : {s : State} → s ⟶ s
  work : trying ⟶ proceeding
  answer : trying ⟶ completed
  refuse : proceeding ⟶ completed
  accept : proceeding ⟶ terminated
  confirm : completed ⟶ confirmed
  give_up : completed ⟶ terminated
  forget : confirmed ⟶ terminated

ruleset edges = (stay, work, answer, refuse, accept, confirm, give_up, forget)

respond-⟶ : (resp : Message) (tx : ServerTx) → IsSound tx → tx.state ⟶ (respond resp tx).state
unfolding respond
respond-⟶ resp tx v = grind (arith, edges)

fire-⟶ : (n : TimerName) (tx : ServerTx) → IsSound tx → tx.state ⟶ (fire n tx).state
unfolding fire
fire-⟶ tg tx v = grind (arith, edges)
fire-⟶ _ tx v = grind (arith, edges)

-- Every call moves a sound server transaction along an edge of the transition diagrams: no state is
-- skipped or entered again, and Terminated is left by none.
pub server_step-⟶ : (tx : ServerTx) (c : ServerEvent) → IsSound tx → tx.state ⟶ (step tx c).state
unfolding step receive_request receive_ack
server_step-⟶ tx (responds resp) v = respond-⟶ resp tx v
server_step-⟶ tx (repeats req) v = grind (arith, edges)
server_step-⟶ tx acks v = grind (arith, edges)
server_step-⟶ tx (fires n) v = fire-⟶ n tx v

-- Whatever responses the code gives, whatever retransmissions and ACKs come and timers run out, in
-- whatever order, all the final responses that an INVITE server transaction ever sends are one response.
pub invite-OneFinal :
    (req : Message) (now : ℕ) (cs : List ServerEvent)
    → OneFinal (run (new_server_invite_tx req now) cs).out
invite-OneFinal req now cs = (run-IsSound _ cs (new_server_invite_tx-IsSound req now)).one_final

-- The same of a non-INVITE server transaction.
non_invite-OneFinal :
    (req : Message) (now : ℕ) (cs : List ServerEvent)
    → OneFinal (run (new_server_non_invite_tx req now) cs).out
non_invite-OneFinal req now cs =
    (run-IsSound _ cs (new_server_non_invite_tx-IsSound req now)).one_final

abbrev pub last_timer : TxType → State → TimerName
last_timer ist completed = th
last_timer ist _ = ti
last_timer _ _ = tj

-- Once a final response is given, a sound transaction ends by itself: unless `done` is closed already,
-- its last timer is running (H in Completed and I in Confirmed of an INVITE, J of another request), and
-- when that runs out `done` is closed.
pub server_last_timer-ends :
    (tx : ServerTx)
    → IsSound tx
    → is_open tx.state ≡ false
    → tx.done ≡ false
    → (running (last_timer tx.tx_type tx.state) tx ≡ true)
      × ((step tx (fires (last_timer tx.tx_type tx.state))).done ≡ true)
unfolding step
server_last_timer-ends tx v s o = (ground arith, ground arith)

-- A retransmission that reaches a sound transaction before its final response changes nothing but what
-- is sent: an INVITE is always answered by a 100 made from the retransmission, also after a later
-- provisional response was sent, and any other request by nothing at all.
pub repeat_before_final :
    (tx : ServerTx) (req : Message)
    → IsSound tx
    → is_open tx.state ≡ true
    → (tx.tx_type ≡ ist
        → step tx (repeats req) ≡ record tx {
          out = record { response = trying_for req; to = tx.dest; over = tx.transport } ∷ tx.out;
        })
      × (tx.tx_type ≡ nist → step tx (repeats req) ≡ tx)
unfolding step receive_request
repeat_before_final tx req v s = (λ t. ground arith, λ t. ground arith)

-- After its ACK an INVITE transaction sends nothing any more, whatever call comes: in Confirmed
-- no step of a sound transaction adds to what was sent.
confirmed_is_silent :
    (tx : ServerTx) (c : ServerEvent) → IsSound tx → tx.state ≡ confirmed → (step tx c).out ≡ tx.out
unfolding step respond receive_request receive_ack fire
confirmed_is_silent tx (responds resp) v s = ground arith
confirmed_is_silent tx (repeats req) v s = ground arith
confirmed_is_silent tx acks v s = ground arith
confirmed_is_silent tx (fires tg) v s = ground arith
confirmed_is_silent tx (fires _) v s = ground arith
