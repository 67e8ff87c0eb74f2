-- ===== src/Transaction/Server.antt =====
-- pkg/transaction/server.go. A method that runs under the lock takes the transaction and returns the new
-- one. `out` records the responses handed to `sendFunc`, the last one first, with their destination and
-- transport; an error of `sendFunc` is only logged. A channel `done` is the Boolean that says whether it
-- is closed.
pub mod Invariant
pub mod Progress
pub mod Retransmits
use funsip.Base.{
  ℕ, ◌*◌, Bool, true, false, ◌&&◌, Option, none, some, List, [], ◌∷◌, ◌++◌, if◌then◌else◌,
}
use funsip.Base.Int.{ℤ, pos, ge_const, lt_const}
use funsip.Text.{Text, lit, text_eq}
use funsip.Sip.Message.{Message, create_response}
use funsip.Sip.Message.Wire.{int_text}
use funsip.Transaction.Keys.{
  State, trying, calling, proceeding, completed, confirmed, terminated, TxType, ict, nict, ist,
  nist, is_ist, is_terminated, Key, make_server_key,
}
use funsip.Transaction.Timers.{
  TimerName, tg, th, ti, tj, Timer, Timers, no_timers, put_timer, start_timer, cancel_timer,
  timer_g, timer_h, timer_i, timer_j, doubled_to_t2,
}
use funsip.Transaction.Client.{is_udp, is_provisional, is_success}

pub record Sent : Type 0 where
  pub response : Message
  pub to : Text
  pub over : Text

pub record ServerTx : Type 0 where
  pub key : Key
  pub tx_type : TxType
  pub request : Message
  pub last_response : Option Message
  pub state : State
  pub transport : Text
  pub dest : Text
  pub timers : Timers
  pub done : Bool
  pub created_at : ℕ
  pub out : List Sent

-- respond, the private method: the response goes out as it is.
abbrev pub send : Message → ServerTx → ServerTx
send m tx = record tx { out = record { response = m; to = tx.dest; over = tx.transport } ∷ tx.out }

abbrev pub start : TimerName → ℕ → ServerTx → ServerTx
start n delay tx = record tx { timers = start_timer n delay tx.timers }

abbrev pub cancel : TimerName → ServerTx → ServerTx
cancel n tx = record tx { timers = cancel_timer n tx.timers }

abbrev pub cancel_all : ServerTx → ServerTx
cancel_all tx = record tx { timers = no_timers }

abbrev pub enter : State → ServerTx → ServerTx
enter s tx = record tx { state = s }

abbrev pub keep : Message → ServerTx → ServerTx
keep resp tx = record tx { last_response = some resp }

abbrev pub terminate : ServerTx → ServerTx
terminate tx = record tx { done = true }

-- The transaction as both constructors set it up.
abbrev pub fresh_tx : TxType → State → Message → ℕ → ServerTx
fresh_tx type state req now = record {
  key = make_server_key req;
  tx_type = type;
  request = req;
  last_response = none;
  state = state;
  transport = req.transport;
  dest = req.source_ip ++ b':' ∷ int_text req.source_port;
  timers = no_timers;
  done = false;
  created_at = now;
  out = [];
}

abbrev pub trying_for : Message → Message
trying_for req = create_response req (pos 100) (lit "Trying")

-- NewServerInviteTx
unfoldable pub new_server_invite_tx : Message → ℕ → ServerTx
new_server_invite_tx req now = send (trying_for req) (fresh_tx ist proceeding req now)

-- NewServerNonInviteTx
unfoldable pub new_server_non_invite_tx : Message → ℕ → ServerTx
new_server_non_invite_tx req now = fresh_tx nist trying req now

abbrev pub start_if_udp : TimerName → ℕ → ServerTx → ServerTx
start_if_udp n delay tx = if is_udp tx.transport then start n delay tx else tx

abbrev pub wait_or_end : TimerName → ℕ → ServerTx → ServerTx
wait_or_end n delay tx = if is_udp tx.transport then start n delay tx else terminate tx

abbrev ist_in : State → Message → ServerTx → ServerTx
ist_in proceeding resp tx =
    if is_provisional resp.status_code
    then send resp tx
    else if is_success resp.status_code
    then terminate (cancel_all (send resp (enter terminated tx)))
    else if ge_const resp.status_code 300
    then start th timer_h (start_if_udp tg timer_g (send resp (keep resp (enter completed tx))))
    else tx
ist_in _ resp tx = tx

-- istRespond
unfoldable pub ist_respond : Message → ServerTx → ServerTx
ist_respond resp tx = ist_in tx.state resp tx

abbrev pub nist_final : Message → ServerTx → ServerTx
nist_final resp tx =
    if ge_const resp.status_code 200
    then wait_or_end tj timer_j (send resp (keep resp (enter completed tx)))
    else tx

abbrev nist_in : State → Message → ServerTx → ServerTx
nist_in trying resp tx =
    if is_provisional resp.status_code then send resp (enter proceeding tx) else nist_final resp tx
nist_in proceeding resp tx =
    if is_provisional resp.status_code then send resp tx else nist_final resp tx
nist_in _ resp tx = tx

-- nistRespond
unfoldable pub nist_respond : Message → ServerTx → ServerTx
nist_respond resp tx = nist_in tx.state resp tx

-- Respond, the public method
unfoldable pub respond : Message → ServerTx → ServerTx
unfolding ist_respond nist_respond
respond resp tx =
    if is_terminated tx.state
    then tx
    else if is_ist tx.tx_type
    then ist_respond resp tx
    else nist_respond resp tx

abbrev pub resend : Option Message → ServerTx → ServerTx
resend none tx = tx
resend (some resp) tx = send resp tx

abbrev pub resend_or_trying : Option Message → Message → ServerTx → ServerTx
resend_or_trying none req tx = send (trying_for req) tx
resend_or_trying (some resp) req tx = send resp tx

abbrev ist_again : State → Message → ServerTx → ServerTx
ist_again proceeding req tx = resend_or_trying tx.last_response req tx
ist_again completed req tx = resend tx.last_response tx
ist_again _ req tx = tx

abbrev nist_again : State → ServerTx → ServerTx
nist_again proceeding tx = resend tx.last_response tx
nist_again completed tx = resend tx.last_response tx
nist_again _ tx = tx

-- ReceiveRequest: a retransmission of the request.
unfoldable pub receive_request : Message → ServerTx → ServerTx
receive_request req tx =
    if is_ist tx.tx_type then ist_again tx.state req tx else nist_again tx.state tx

abbrev pub is_completed : State → Bool
is_completed completed = true
is_completed _ = false

-- ReceiveACK
unfoldable pub receive_ack : ServerTx → ServerTx
receive_ack tx =
    if is_ist tx.tx_type && is_completed tx.state
    then wait_or_end ti timer_i (cancel th (cancel tg (enter confirmed tx)))
    else tx

abbrev resend_and_restart : ℕ → Option Message → ServerTx → ServerTx
resend_and_restart delay none tx = tx
resend_and_restart delay (some resp) tx = start tg (doubled_to_t2 delay) (send resp tx)

-- The callback of a timer that was started with `delay`.
abbrev pub callback : TimerName → ℕ → ServerTx → ServerTx
callback tg delay tx =
    if is_completed tx.state then resend_and_restart delay tx.last_response tx else tx
callback th delay tx =
    if is_completed tx.state then terminate (cancel_all (enter terminated tx)) else tx
callback ti delay tx = terminate (enter terminated tx)
callback tj delay tx = terminate (enter terminated tx)
callback _ delay tx = tx

abbrev fire_timer : TimerName → Option Timer → ServerTx → ServerTx
fire_timer n none tx = tx
fire_timer n (some t) tx =
    if t.live
    then callback n t.delay
        (record tx { timers = put_timer n (some (record t { live = false })) tx.timers })
    else tx

-- The timer under this name runs out, if it is running.
unfoldable pub fire : TimerName → ServerTx → ServerTx
fire n tx = fire_timer n (tx.timers n) tx

pub data ServerEvent : Type 0 where
  responds : Message → ServerEvent
  repeats : Message → ServerEvent
  acks : ServerEvent
  fires : TimerName → ServerEvent

unfoldable pub step : ServerTx → ServerEvent → ServerTx
unfolding respond receive_request receive_ack fire
step tx (responds resp) = respond resp tx
step tx (repeats req) = receive_request req tx
step tx acks = receive_ack tx
step tx (fires n) = fire n tx

unfoldable pub run : ServerTx → List ServerEvent → ServerTx
run tx [] = tx
run tx (c ∷ cs) = run (step tx c) cs
