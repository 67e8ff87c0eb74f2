-- ===== src/Transaction/Client/Invariant.antt =====
-- What holds of a client transaction (pkg/transaction/client.go) between two calls.
use funsip.Base.{ℕ, suc, ◌≡◌, refl, ◌∙◌, Bool, true, false, List, [], ◌∷◌, arith, if◌then◌else◌}
use funsip.Base.Int.{ge_const}
use funsip.Text.{Text}
use funsip.Sip.Message.{Message, create_response}
use funsip.Transaction.Keys.{
  State, trying, calling, proceeding, completed, terminated, TxType, ict, nict,
}
use funsip.Transaction.Timers.{TimerName, ta, tb, td, tf, tk, is_live}
use funsip.Transaction.Client.{
  Effect, sent, delivered, ClientTx, is_udp, new_client_invite_tx, new_client_non_invite_tx,
  ict_receive_response, nict_receive_response, receive_response, fire, ClientEvent, receives, fires,
  step, run,
}

abbrev pub running : TimerName → ClientTx → Bool
running n tx = is_live (tx.timers n)

-- How many final responses (code 200 or above) the caller was handed.
abbrev pub finals : List Effect → ℕ
finals [] = 0
finals (sent m dst t ∷ es) = finals es
finals (delivered m ∷ es) = if ge_const m.status_code 200 then suc (finals es) else finals es

abbrev pub final_count : State → ℕ
final_count completed = 1
final_count terminated = 1
final_count _ = 0

abbrev pub has_state : TxType → State → Bool
has_state ict calling = true
has_state ict proceeding = true
has_state ict completed = true
has_state ict terminated = true
has_state nict trying = true
has_state nict proceeding = true
has_state nict completed = true
has_state nict terminated = true
has_state _ _ = false

-- Whether `done` is closed: in Terminated, and in Completed where no retransmission has to be absorbed.
abbrev pub has_ended : State → Text → Bool
has_ended terminated transport = true
has_ended completed transport = if is_udp transport then false else true
has_ended _ transport = false

pub record IsSound (tx : ClientTx) : Type 0 where
  pub typed : has_state tx.tx_type tx.state ≡ true
  pub answered : finals tx.out ≡ final_count tx.state
  pub ended : tx.done ≡ has_ended tx.state tx.transport
  pub calling_deadline : tx.state ≡ calling → running tb tx ≡ true
  pub trying_deadline : tx.state ≡ trying → running tf tx ≡ true
  pub proceeding_deadline : tx.tx_type ≡ nict → tx.state ≡ proceeding → running tf tx ≡ true
  pub ict_linger : tx.tx_type ≡ ict → tx.state ≡ completed → tx.done ≡ false → running td tx ≡ true
  pub nict_linger :
      tx.tx_type ≡ nict → tx.state ≡ completed → tx.done ≡ false → running tk tx ≡ true
  pub no_f : tx.tx_type ≡ ict → running tf tx ≡ false
  pub late_d : running td tx ≡ true → (tx.state ≡ completed) × (tx.tx_type ≡ ict)
  pub late_k : running tk tx ≡ true → (tx.state ≡ completed) × (tx.tx_type ≡ nict)

pub new_client_invite_tx-IsSound :
    (req : Message) (dest transport : Text) (now : ℕ)
    → IsSound (new_client_invite_tx req dest transport now)
unfolding new_client_invite_tx
new_client_invite_tx-IsSound req dest transport now = ground arith

pub new_client_non_invite_tx-IsSound :
    (req : Message) (dest transport : Text) (now : ℕ)
    → IsSound (new_client_non_invite_tx req dest transport now)
unfolding new_client_non_invite_tx
new_client_non_invite_tx-IsSound req dest transport now = ground arith

ict_receive_response-IsSound :
    (resp : Message) (tx : ClientTx)
    → tx.tx_type ≡ ict
    → IsSound tx
    → IsSound (ict_receive_response resp tx)
unfolding ict_receive_response
ict_receive_response-IsSound resp tx t v = ground arith

nict_receive_response-IsSound :
    (resp : Message) (tx : ClientTx)
    → tx.tx_type ≡ nict
    → IsSound tx
    → IsSound (nict_receive_response resp tx)
unfolding nict_receive_response
nict_receive_response-IsSound resp tx t v = ground arith

fire-IsSound : (n : TimerName) (tx : ClientTx) → IsSound tx → IsSound (fire n tx)
unfolding fire create_response
fire-IsSound ta tx v = ground arith
fire-IsSound tb tx v = ground arith
fire-IsSound td tx v = ground arith
fire-IsSound _ tx v = ground arith

tx_type-step : (tx : ClientTx) (c : ClientEvent) → (step tx c).tx_type ≡ tx.tx_type
unfolding step
tx_type-step tx (receives resp) = ground arith
tx_type-step tx (fires ta) = ground arith
tx_type-step tx (fires _) = ground arith

receive_response-IsSound :
    (resp : Message) (tx : ClientTx) → IsSound tx → IsSound (receive_response resp tx)
unfolding receive_response
receive_response-IsSound resp tx v =
    grind (arith, ict_receive_response-IsSound resp tx, nict_receive_response-IsSound resp tx)

-- Every call keeps a client transaction sound: its state is one of its type's, the caller has been
-- handed one final response in Completed and Terminated and none before, `done` is closed exactly in
-- Terminated and, unless the transport is UDP, in Completed, and the timer that bounds the stay in
-- Calling, in Trying, in a non-INVITE's Proceeding and in Completed is running.
pub client_step-IsSound : (tx : ClientTx) (c : ClientEvent) → IsSound tx → IsSound (step tx c)
unfolding step
client_step-IsSound tx (receives resp) v = receive_response-IsSound resp tx v
client_step-IsSound tx (fires n) v = fire-IsSound n tx v

pub tx_type-run : (tx : ClientTx) (cs : List ClientEvent) → (run tx cs).tx_type ≡ tx.tx_type
unfolding run
tx_type-run tx [] = refl
tx_type-run tx (c ∷ cs) = tx_type-run (step tx c) cs ∙ tx_type-step tx c

pub run-IsSound : (tx : ClientTx) (cs : List ClientEvent) → IsSound tx → IsSound (run tx cs)
unfolding run
run-IsSound tx [] v = v
run-IsSound tx (c ∷ cs) v = run-IsSound (step tx c) cs (client_step-IsSound tx c v)
