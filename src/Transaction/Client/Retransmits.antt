-- ===== src/Transaction/Client/Retransmits.antt =====
-- The retransmissions of pkg/transaction/client.go: timers A and E.
use funsip.Base.{ℕ, zero, suc, ◌*◌, ◌^◌, ◌≡◌, true, some, List, [], ◌∷◌, arith, min}
use native.Mathlib.Nat.{pow-suc}
use funsip.Text.{Text}
use funsip.Sip.Message.{Message}
use funsip.Transaction.Keys.{State, trying, calling}
use funsip.Transaction.Timers.{TimerName, ta, te, t1, t2, doubled_to_t2}
use funsip.Transaction.Client.{
  Effect, sent, ClientTx, is_udp, new_client_invite_tx, new_client_non_invite_tx, fire,
}

-- The same timer runs out n times in a row.
abbrev pub fire_times : ℕ → TimerName → ClientTx → ClientTx
fire_times zero n tx = tx
fire_times (suc k) n tx = fire n (fire_times k n tx)

abbrev pub copies : ℕ → Effect → List Effect
copies zero e = []
copies (suc k) e = e ∷ copies k e

-- A transaction in state `s` that has sent `e` k + 1 times and nothing else, and will send it once more
-- when timer `n`, started with `delay`, runs out.
pub record Resent (k delay : ℕ) (n : TimerName) (s : State) (e : Effect) (tx : ClientTx)
    : Type 0 where
  pub in_state : tx.state ≡ s
  pub makes : sent tx.request tx.dest tx.transport ≡ e
  pub next_delay : tx.timers n ≡ some (record { delay = delay; live = true })
  pub sent_copies : tx.out ≡ copies (suc k) e

resend_a :
    (k delay : ℕ) (e : Effect) (tx : ClientTx)
    → Resent k delay ta calling e tx
    → Resent (suc k) (delay * 2) ta calling e (fire ta tx)
unfolding fire
resend_a k delay e tx r = ground arith

resend_e :
    (k delay : ℕ) (e : Effect) (tx : ClientTx)
    → Resent k delay te trying e tx
    → Resent (suc k) (doubled_to_t2 delay) te trying e (fire te tx)
unfolding fire
resend_e k delay e tx r = ground arith

fire_times-Resent :
    (k : ℕ) (e : Effect) (tx : ClientTx)
    → Resent 0 t1 ta calling e tx
    → Resent k (t1 * 2 ^ k) ta calling e (fire_times k ta tx)
fire_times-Resent zero e tx r = r
fire_times-Resent (suc k) e tx r =
    let p : t1 * 2 ^ suc k ≡ t1 * 2 ^ k * 2 = omega (arith, pow-suc 2 k) in
    rw p (resend_a k (t1 * 2 ^ k) e (fire_times k ta tx) (fire_times-Resent k e tx r))

doubled_min : (x : ℕ) → doubled_to_t2 (min x t2) ≡ min (x * 2) t2
doubled_min x = ground arith

fire_times-Resent_to_t2 :
    (k : ℕ) (e : Effect) (tx : ClientTx)
    → Resent 0 t1 te trying e tx
    → Resent k (min (t1 * 2 ^ k) t2) te trying e (fire_times k te tx)
fire_times-Resent_to_t2 zero e tx r = r
fire_times-Resent_to_t2 (suc k) e tx r =
    let p : min (t1 * 2 ^ suc k) t2 ≡ doubled_to_t2 (min (t1 * 2 ^ k) t2) =
      omega (arith, pow-suc 2 k, doubled_min (t1 * 2 ^ k)) in
    rw p
      (resend_e k (min (t1 * 2 ^ k) t2) e (fire_times k te tx) (fire_times-Resent_to_t2 k e tx r))

-- An INVITE over UDP that gets no answer: when timer A has run out k times and nothing else has
-- happened, the request has been sent k + 1 times, nothing else has gone out, and the next copy follows
-- 500 ms * 2^k later.
invite_backs_off :
    (req : Message) (dest transport : Text) (now k : ℕ)
    → is_udp transport ≡ true
    → let tx = fire_times k ta (new_client_invite_tx req dest transport now) in
      (tx.state ≡ calling)
      × (tx.out ≡ copies (suc k) (sent req dest transport))
      × (tx.timers ta ≡ some (record { delay = 500 * 2 ^ k; live = true }))
unfolding new_client_invite_tx
invite_backs_off req dest transport now k u =
    let r =
      fire_times-Resent k (sent req dest transport) (new_client_invite_tx req dest transport now)
        (ground arith) in
    (r.in_state, r.sent_copies, r.next_delay)

-- Any other request over UDP that gets no answer: when timer E has run out k times and nothing else has
-- happened, the request has been sent k + 1 times, nothing else has gone out, and the next copy follows
-- 500 ms * 2^k later, or 4 s later where that is less.
non_invite_backs_off :
    (req : Message) (dest transport : Text) (now k : ℕ)
    → is_udp transport ≡ true
    → let tx = fire_times k te (new_client_non_invite_tx req dest transport now) in
      (tx.state ≡ trying)
      × (tx.out ≡ copies (suc k) (sent req dest transport))
      × (tx.timers te ≡ some (record { delay = min (500 * 2 ^ k) 4000; live = true }))
unfolding new_client_non_invite_tx
non_invite_backs_off req dest transport now k u =
    let r =
      fire_times-Resent_to_t2 k (sent req dest transport)
        (new_client_non_invite_tx req dest transport now) (ground arith) in
    (r.in_state, r.sent_copies, r.next_delay)
