-- ===== src/Transaction/Client/Progress.antt =====
-- What every run of a client transaction (pkg/transaction/client.go) does: transitions, answers and ends.
use funsip.Base.{ℕ, ◌≤◌, ◌≡◌, ◌⊎◌, ◌≢◌, true, false, List, arith}
use funsip.Text.{Text}
use funsip.Sip.Message.{Message}
use funsip.Transaction.Keys.{State, trying, calling, proceeding, completed, terminated, TxType, ict}
use funsip.Transaction.Timers.{TimerName, ta, tb, td, tf, tk}
use funsip.Transaction.Client.{
  ClientTx, new_client_invite_tx, new_client_non_invite_tx, receive_response, fire, ClientEvent,
  receives, fires, step, run,
}
use funsip.Transaction.Client.Invariant.{
  IsSound, running, finals, run-IsSound, new_client_invite_tx-IsSound,
  new_client_non_invite_tx-IsSound, tx_type-run,
}

-- The transitions of RFC 3261, figures 5 and 6, as far as the code makes them.
infix 40 ◌⟶◌
pub data ◌⟶◌ : State → State → Type 0 where
  stay : {s : State} → s ⟶ s
  ring : calling ⟶ proceeding
  work : trying ⟶ proceeding
  reject : calling ⟶ completed
  reject_later : proceeding ⟶ completed
  answer : trying ⟶ completed
  accept : calling ⟶ terminated
  accept_later : proceeding ⟶ terminated
  give_up : trying ⟶ terminated
  forget : completed ⟶ terminated

ruleset edges =
    (stay, ring, work, reject, reject_later, answer, accept, accept_later, give_up, forget)

fire-⟶ : (n : TimerName) (tx : ClientTx) → IsSound tx → tx.state ⟶ (fire n tx).state
unfolding fire
fire-⟶ ta tx v = grind (arith, edges)
fire-⟶ tb tx v = grind (arith, edges)
fire-⟶ td tx v = grind (arith, edges)
fire-⟶ _ tx v = grind (arith, edges)

receive_response-⟶ :
    (resp : Message) (tx : ClientTx) → IsSound tx → tx.state ⟶ (receive_response resp tx).state
unfolding receive_response
receive_response-⟶ resp tx v = grind (arith, edges)

-- Every call moves a sound client transaction along an edge of the transition diagrams: no state is
-- skipped or entered again, and Terminated is left by none.
pub client_step-⟶ : (tx : ClientTx) (c : ClientEvent) → IsSound tx → tx.state ⟶ (step tx c).state
unfolding step
client_step-⟶ tx (receives resp) v = receive_response-⟶ resp tx v
client_step-⟶ tx (fires n) v = fire-⟶ n tx v

-- Whatever responses come and timers run out, in whatever order, an INVITE client transaction hands its
-- caller at most one final response (a timeout's 408 included): none in Calling and Proceeding, and one
-- in every other state.
pub invite_answered_once :
    (req : Message) (dest transport : Text) (now : ℕ) (cs : List ClientEvent)
    → let tx = run (new_client_invite_tx req dest transport now) cs in
      (finals tx.out ≤ 1)
      × ((tx.state ≡ calling) ⊎ (tx.state ≡ proceeding) → finals tx.out ≡ 0)
      × (tx.state ≢ calling → tx.state ≢ proceeding → finals tx.out ≡ 1)
unfolding new_client_invite_tx
invite_answered_once req dest transport now cs =
    let v = run-IsSound _ cs (new_client_invite_tx-IsSound req dest transport now) in
    let t = tx_type-run (new_client_invite_tx req dest transport now) cs in
    (ground arith, ground arith, ground arith)

-- The same of a non-INVITE client transaction, with Trying in place of Calling.
non_invite_answered_once :
    (req : Message) (dest transport : Text) (now : ℕ) (cs : List ClientEvent)
    → let tx = run (new_client_non_invite_tx req dest transport now) cs in
      (finals tx.out ≤ 1)
      × ((tx.state ≡ trying) ⊎ (tx.state ≡ proceeding) → finals tx.out ≡ 0)
      × (tx.state ≢ trying → tx.state ≢ proceeding → finals tx.out ≡ 1)
unfolding new_client_non_invite_tx
non_invite_answered_once req dest transport now cs =
    let v = run-IsSound _ cs (new_client_non_invite_tx-IsSound req dest transport now) in
    let t = tx_type-run (new_client_non_invite_tx req dest transport now) cs in
    (ground arith, ground arith, ground arith)

-- The name of the timer whose end closes the transaction.
abbrev pub last_timer : TxType → State → TimerName
last_timer ict completed = td
last_timer ict _ = tb
last_timer _ completed = tk
last_timer _ _ = tf

-- A sound transaction whose `done` is open can still end by itself, except an INVITE's in Proceeding:
-- its last timer is running, and when that runs out `done` is closed.
pub client_last_timer-ends :
    (tx : ClientTx)
    → IsSound tx
    → tx.done ≡ false
    → (tx.tx_type ≢ ict) ⊎ (tx.state ≢ proceeding)
    → (running (last_timer tx.tx_type tx.state) tx ≡ true)
      × ((step tx (fires (last_timer tx.tx_type tx.state))).done ≡ true)
unfolding step
client_last_timer-ends tx v o p = (ground arith, ground arith)

-- In a sound INVITE transaction in Proceeding no running timer can end it or change its state: it waits
-- for a response as long as none comes.
invite_proceeding_waits :
    (tx : ClientTx) (n : TimerName)
    → IsSound tx
    → tx.tx_type ≡ ict
    → tx.state ≡ proceeding
    → ((step tx (fires n)).state ≡ proceeding) × ((step tx (fires n)).done ≡ false)
unfolding step
invite_proceeding_waits tx ta v t s = ground arith
invite_proceeding_waits tx tb v t s = ground arith
invite_proceeding_waits tx _ v t s = ground arith
