-- ===== src/Transaction/Server/Invariant.antt =====
-- What holds of a server transaction (pkg/transaction/server.go) between two calls.
use funsip.Base.{ℕ, ◌≡◌, Bool, true, false, Option, none, some, List, [], ◌∷◌, arith, if◌then◌else◌}
use funsip.Base.Int.{ge_const}
use funsip.Text.{Text}
use funsip.Sip.Message.{Message, create_response}
use funsip.Transaction.Keys.{
  State, trying, proceeding, completed, confirmed, terminated, TxType, ist, nist,
}
use funsip.Transaction.Timers.{TimerName, ta, th, ti, tj, is_live}
use funsip.Transaction.Client.{is_udp}
use funsip.Transaction.Server.{
  Sent, ServerTx, new_server_invite_tx, new_server_non_invite_tx, ist_respond, nist_respond,
  respond, receive_request, receive_ack, fire, ServerEvent, responds, repeats, acks, fires, step,
  run,
}

abbrev pub running : TimerName → ServerTx → Bool
running n tx = is_live (tx.timers n)

abbrev pub is_final : Message → Bool
is_final m = ge_const m.status_code 200

-- Every final response in the list is `m`.
abbrev pub FinalsAre : Message → List Sent → Type 0
FinalsAre m [] = Unit
FinalsAre m (s ∷ ss) = (is_final s.response ≡ true → s.response ≡ m) × FinalsAre m ss

-- No response in the list is final.
abbrev pub NoFinals : List Sent → Type 0
NoFinals [] = Unit
NoFinals (s ∷ ss) = (is_final s.response ≡ false) × NoFinals ss

-- All final responses in the list are one response.
abbrev pub OneFinal : List Sent → Type 0
OneFinal [] = Unit
OneFinal (s ∷ ss) = (is_final s.response ≡ true → FinalsAre s.response ss) × OneFinal ss

-- A response is kept, it is final, and it is the only final one in the list.
abbrev pub Kept : Option Message → List Sent → Type 0
Kept none ss = ⊥
Kept (some m) ss = (is_final m ≡ true) × FinalsAre m ss

abbrev pub has_state : TxType → State → Bool
has_state ist proceeding = true
has_state ist completed = true
has_state ist confirmed = true
has_state ist terminated = true
has_state nist trying = true
has_state nist proceeding = true
has_state nist completed = true
has_state nist terminated = true
has_state _ _ = false

-- Whether `done` is closed.
abbrev pub has_ended : TxType → State → Text → Bool
has_ended type terminated transport = true
has_ended nist completed transport = if is_udp transport then false else true
has_ended type confirmed transport = if is_udp transport then false else true
has_ended _ _ transport = false

abbrev pub is_open : State → Bool
is_open trying = true
is_open proceeding = true
is_open _ = false

NoFinals-FinalsAre : (m : Message) (ss : List Sent) → NoFinals ss → FinalsAre m ss
NoFinals-FinalsAre m [] n = tt
NoFinals-FinalsAre m (s ∷ ss) n = ground (arith, NoFinals-FinalsAre m ss)

NoFinals-OneFinal : (ss : List Sent) → NoFinals ss → OneFinal ss
NoFinals-OneFinal [] n = tt
NoFinals-OneFinal (s ∷ ss) n = ground (arith, NoFinals-OneFinal ss)

pub record IsSound (tx : ServerTx) : Type 0 where
  pub typed : has_state tx.tx_type tx.state ≡ true
  pub unanswered : is_open tx.state ≡ true → tx.last_response ≡ none
  pub quiet : is_open tx.state ≡ true → NoFinals tx.out
  pub kept : tx.state ≡ completed → Kept tx.last_response tx.out
  pub one_final : OneFinal tx.out
  pub ended : tx.done ≡ has_ended tx.tx_type tx.state tx.transport
  pub ist_linger : tx.tx_type ≡ ist → tx.state ≡ completed → running th tx ≡ true
  pub nist_linger :
      tx.tx_type ≡ nist → tx.state ≡ completed → tx.done ≡ false → running tj tx ≡ true
  pub confirmed_linger : tx.state ≡ confirmed → tx.done ≡ false → running ti tx ≡ true
  pub late_i : running ti tx ≡ true → tx.state ≡ confirmed
  pub late_j : running tj tx ≡ true → (tx.state ≡ completed) × (tx.tx_type ≡ nist)

pub new_server_invite_tx-IsSound :
    (req : Message) (now : ℕ) → IsSound (new_server_invite_tx req now)
unfolding new_server_invite_tx create_response
new_server_invite_tx-IsSound req now = ground arith

pub new_server_non_invite_tx-IsSound :
    (req : Message) (now : ℕ) → IsSound (new_server_non_invite_tx req now)
unfolding new_server_non_invite_tx
new_server_non_invite_tx-IsSound req now = ground arith

ist_respond-IsSound :
    (resp : Message) (tx : ServerTx) → tx.tx_type ≡ ist → IsSound tx → IsSound (ist_respond resp tx)
unfolding ist_respond
ist_respond-IsSound resp tx t v =
    ground (arith, NoFinals-FinalsAre resp tx.out, NoFinals-OneFinal tx.out)

nist_respond-IsSound :
    (resp : Message) (tx : ServerTx)
    → tx.tx_type ≡ nist
    → IsSound tx
    → IsSound (nist_respond resp tx)
unfolding nist_respond
nist_respond-IsSound resp tx t v =
    ground (arith, NoFinals-FinalsAre resp tx.out, NoFinals-OneFinal tx.out)

receive_request-IsSound :
    (req : Message) (tx : ServerTx) → IsSound tx → IsSound (receive_request req tx)
unfolding receive_request create_response
receive_request-IsSound req tx v = ground arith

receive_ack-IsSound : (tx : ServerTx) → IsSound tx → IsSound (receive_ack tx)
unfolding receive_ack
receive_ack-IsSound tx v = ground arith

fire-IsSound : (n : TimerName) (tx : ServerTx) → IsSound tx → IsSound (fire n tx)
unfolding fire
fire-IsSound ta tx v = ground arith
fire-IsSound _ tx v = ground arith

respond-IsSound : (resp : Message) (tx : ServerTx) → IsSound tx → IsSound (respond resp tx)
unfolding respond
respond-IsSound resp tx v = grind (arith, ist_respond-IsSound resp tx, nist_respond-IsSound resp tx)

-- Every call keeps a server transaction sound: its state is one of its type's; no response is kept and
-- no final one has been sent before a final response is given; in Completed the response that is kept
-- is final; all final responses ever sent are one response; `done` is closed exactly in Terminated and,
-- unless the transport is UDP, in a non-INVITE's Completed and in Confirmed; and a timer that bounds
-- the stay in Completed and in Confirmed is running as long as `done` is open.
pub server_step-IsSound : (tx : ServerTx) (c : ServerEvent) → IsSound tx → IsSound (step tx c)
unfolding step
server_step-IsSound tx (responds resp) v = respond-IsSound resp tx v
server_step-IsSound tx (repeats req) v = receive_request-IsSound req tx v
server_step-IsSound tx acks v = receive_ack-IsSound tx v
server_step-IsSound tx (fires n) v = fire-IsSound n tx v

pub run-IsSound : (tx : ServerTx) (cs : List ServerEvent) → IsSound tx → IsSound (run tx cs)
unfolding run
run-IsSound tx [] v = v
run-IsSound tx (c ∷ cs) v = run-IsSound (step tx c) cs (server_step-IsSound tx c v)
