-- ===== src/Transaction/Timers.antt =====
-- The timers of pkg/transaction: the constants of transaction.go in milliseconds, and the map from a
-- timer's name to the timer last started under it. A timer that has fired stays in the map until it is
-- cancelled; it fires once. A callback that is already waiting for the lock when its timer is stopped
-- is not modelled apart: it runs as if the timer had fired first, or finds its state test false.
use funsip.Base.{ℕ, ◌*◌, ◌==◌, Bool, true, false, Option, none, some, if◌then◌else◌, ltb}

abbrev pub t1 : ℕ
t1 = 500

abbrev pub t2 : ℕ
t2 = 4000

abbrev pub t4 : ℕ
t4 = 5000

abbrev pub timer_a_initial : ℕ
timer_a_initial = t1

abbrev pub timer_b : ℕ
timer_b = 64 * t1

abbrev pub timer_d : ℕ
timer_d = 32000

abbrev pub timer_e : ℕ
timer_e = t1

abbrev pub timer_f : ℕ
timer_f = 64 * t1

abbrev pub timer_g : ℕ
timer_g = t1

abbrev pub timer_h : ℕ
timer_h = 64 * t1

abbrev pub timer_i : ℕ
timer_i = t4

abbrev pub timer_j : ℕ
timer_j = 64 * t1

abbrev pub timer_k : ℕ
timer_k = t4

pub data TimerName : Type 0 where
  ta tb td te tf tg th ti tj tk : TimerName

abbrev timer_index : TimerName → ℕ
timer_index ta = 0
timer_index tb = 1
timer_index td = 2
timer_index te = 3
timer_index tf = 4
timer_index tg = 5
timer_index th = 6
timer_index ti = 7
timer_index tj = 8
timer_index tk = 9

abbrev pub same_timer : TimerName → TimerName → Bool
same_timer n m = timer_index n == timer_index m

pub record Timer : Type 0 where
  pub delay : ℕ
  pub live : Bool

abbrev pub Timers : Type 0
Timers = TimerName → Option Timer

abbrev pub no_timers : Timers
no_timers n = none

abbrev pub put_timer : TimerName → Option Timer → Timers → Timers
put_timer n t ts m = if same_timer n m then t else ts m

-- `tx.timers[n] = time.AfterFunc(delay, ...)`
abbrev pub start_timer : TimerName → ℕ → Timers → Timers
start_timer n delay ts = put_timer n (some (record { delay = delay; live = true })) ts

-- cancelTimer
abbrev pub cancel_timer : TimerName → Timers → Timers
cancel_timer n ts = put_timer n none ts

abbrev pub is_live : Option Timer → Bool
is_live none = false
is_live (some t) = t.live

-- The next delay of a timer that doubles up to T2.
abbrev pub doubled_to_t2 : ℕ → ℕ
doubled_to_t2 delay = if ltb t2 (delay * 2) then t2 else delay * 2
