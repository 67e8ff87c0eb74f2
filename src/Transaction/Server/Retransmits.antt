-- ===== src/Transaction/Server/Retransmits.antt =====
-- The retransmissions of pkg/transaction/server.go: timer G.
use funsip.Base.{
  ℕ, zero, suc, ◌*◌, ◌^◌, ◌≡◌, refl, ◌∙◌, true, some, List, [], ◌∷◌, ◌++◌, arith, min,
}
use native.Mathlib.Nat.{pow-suc}
use funsip.Base.Int.{ge_const}
use funsip.Sip.Message.{Message}
use funsip.Transaction.Keys.{proceeding, completed, ist}
use funsip.Transaction.Timers.{TimerName, tg, t1, t2, doubled_to_t2}
use funsip.Transaction.Client.{is_udp}
use funsip.Transaction.Server.{Sent, ServerTx, respond, fire}

-- The same timer runs out n times in a row.
abbrev pub fire_times : ℕ → TimerName → ServerTx → ServerTx
fire_times zero n tx = tx
fire_times (suc k) n tx = fire n (fire_times k n tx)

abbrev pub copies : ℕ → Sent → List Sent
copies zero s = []
copies (suc k) s = s ∷ copies k s

-- A transaction in Completed that keeps `m` and has sent it k times on top of `base`, and will send it
-- again when timer G, started with `delay`, runs out.
record Resent (k delay : ℕ) (m : Message) (s : Sent) (base : List Sent) (tx : ServerTx)
    : Type 0 where
  in_state : tx.state ≡ completed
  keeps : tx.last_response ≡ some m
  makes : record { response = m; to = tx.dest; over = tx.transport } ≡ s
  next_delay : tx.timers tg ≡ some (record { delay = delay; live = true })
  sent_copies : tx.out ≡ copies k s ++ base

resend_g :
    (k delay : ℕ) (m : Message) (s : Sent) (base : List Sent) (tx : ServerTx)
    → Resent k delay m s base tx
    → Resent (suc k) (doubled_to_t2 delay) m s base (fire tg tx)
unfolding fire
resend_g k delay m s base tx r = ground arith

doubled_min : (x : ℕ) → doubled_to_t2 (min x t2) ≡ min (x * 2) t2
doubled_min x = ground arith

fire_times-Resent :
    (k : ℕ) (m : Message) (s : Sent) (base : List Sent) (tx : ServerTx)
    → Resent 0 t1 m s base tx
    → Resent k (min (t1 * 2 ^ k) t2) m s base (fire_times k tg tx)
fire_times-Resent zero m s base tx r = r
fire_times-Resent (suc k) m s base tx r =
    let p : min (t1 * 2 ^ suc k) t2 ≡ doubled_to_t2 (min (t1 * 2 ^ k) t2) =
      omega (arith, pow-suc 2 k, doubled_min (t1 * 2 ^ k)) in
    rw p (
      resend_g k (min (t1 * 2 ^ k) t2) m s base (fire_times k tg tx)
        (fire_times-Resent k m s base tx r))

copies_shift :
    (k : ℕ) (s : Sent) (base : List Sent) → copies k s ++ s ∷ base ≡ s ∷ (copies k s ++ base)
copies_shift zero s base = refl
copies_shift (suc k) s base = cc (copies_shift k s base)

-- A response of a code from 300 on to an INVITE over UDP, given in Proceeding, and no ACK: when timer G
-- has run out k times and nothing else has happened, that response has gone out k + 1 times on top of
-- what was sent before, and the next copy follows 500 ms * 2^k later, or 4 s later where that is less.
failure_backs_off :
    (tx : ServerTx) (resp : Message) (k : ℕ)
    → tx.tx_type ≡ ist
    → tx.state ≡ proceeding
    → is_udp tx.transport ≡ true
    → ge_const resp.status_code 300 ≡ true
    → let later = fire_times k tg (respond resp tx) in
      (later.state ≡ completed)
      × (later.out
          ≡ copies (suc k) (record { response = resp; to = tx.dest; over = tx.transport })
            ++ tx.out)
      × (later.timers tg ≡ some (record { delay = min (500 * 2 ^ k) 4000; live = true }))
unfolding respond
failure_backs_off tx resp k t s u c =
    let e : Sent = record { response = resp; to = tx.dest; over = tx.transport } in
    let r = fire_times-Resent k resp e (e ∷ tx.out) (respond resp tx) (ground arith) in
    (r.in_state, r.sent_copies ∙ copies_shift k e tx.out, r.next_delay)
