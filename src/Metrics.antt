-- ===== src/Metrics.antt =====
-- pkg/metrics/metrics.go. Counters are natural numbers, but for that of the active dialogs; the clock is
-- an argument, in minutes. RequestRate, whose result has a fraction, gives its numerator here.
pub mod Window
use funsip.Base.{ℕ, ◌+◌, ◌*◌, ◌/◌, ◌%◌, ◌==◌, Bool, ◌&&◌, List, [], ◌∷◌, ltb, if◌then◌else◌, update}
use funsip.Base.Int.{ℤ, pos, negsuc, sub_ℕ, ge_const, lt_const}
use funsip.Base.Wire.{fill}

pub record Bucket : Type 0 where
  pub minute : ℕ
  pub count : ℕ
  pub sum_ms : ℕ

abbrev pub empty_bucket : Bucket
empty_bucket = record { minute = 0; count = 0; sum_ms = 0 }

-- `windowed`: the list has 60 buckets.
abbrev pub Windowed : Type 0
Windowed = List Bucket

abbrev pub new_windowed : Windowed
new_windowed = fill 60 empty_bucket

abbrev pub renewed : ℕ → Bucket → Bucket
renewed minute b =
    if b.minute == minute then b else record { minute = minute; count = 0; sum_ms = 0 }

abbrev pub added : ℕ → ℕ → ℕ → Bucket → Bucket
added minute count sum_ms b =
    let r = renewed minute b in record r { count = r.count + count; sum_ms = r.sum_ms + sum_ms }

-- add, at a minute
unfoldable pub add : ℕ → ℕ → ℕ → Windowed → Windowed
add minute count sum_ms w = update (added minute count sum_ms) (minute % 60) w

abbrev pub in_window : ℕ → ℕ → Bucket → Bool
in_window minute window b = ltb 0 b.minute && ltb minute (b.minute + window)

-- The two sums of the loop in stats.
abbrev pub total_of : (Bucket → ℕ) → ℕ → ℕ → Windowed → ℕ
total_of f minute window [] = 0
total_of f minute window (b ∷ rest) =
    (if in_window minute window b then f b else 0) + total_of f minute window rest

abbrev pub average : ℕ → ℕ → ℕ
average total sum = if ltb 0 total then sum / total else 0

-- stats, at a minute
unfoldable pub stats : ℕ → ℕ → Windowed → ℕ × ℕ
stats minute window w =
    let total = total_of (λ b. b.count) minute window w in
    (total, average total (total_of (λ b. b.sum_ms) minute window w))

pub record Metrics : Type 0 where
  pub requests_received : ℕ
  pub retransmissions : ℕ
  pub requests_forwarded : ℕ
  pub responses_received : ℕ
  pub requests_answered_locally : ℕ
  pub responses_1xx : ℕ
  pub responses_2xx : ℕ
  pub responses_3xx : ℕ
  pub responses_4xx : ℕ
  pub responses_5xx : ℕ
  pub responses_6xx : ℕ
  pub dialogs_active : ℤ
  pub dialogs_created : ℕ
  pub dialogs_completed : ℕ
  pub dialogs_timed_out : ℕ
  pub delays : Windowed
  pub rates : Windowed

-- New
unfoldable pub new_metrics : Metrics
new_metrics = record {
  requests_received = 0;
  retransmissions = 0;
  requests_forwarded = 0;
  responses_received = 0;
  requests_answered_locally = 0;
  responses_1xx = 0;
  responses_2xx = 0;
  responses_3xx = 0;
  responses_4xx = 0;
  responses_5xx = 0;
  responses_6xx = 0;
  dialogs_active = pos 0;
  dialogs_created = 0;
  dialogs_completed = 0;
  dialogs_timed_out = 0;
  delays = new_windowed;
  rates = new_windowed;
}

unfoldable pub record_received : ℕ → Metrics → Metrics
unfolding add
record_received minute m = record m {
  requests_received = m.requests_received + 1;
  rates = add minute 1 0 m.rates;
}

abbrev pub record_retransmission : Metrics → Metrics
record_retransmission m = record m { retransmissions = m.retransmissions + 1 }

abbrev pub record_forwarded : Metrics → Metrics
record_forwarded m = record m { requests_forwarded = m.requests_forwarded + 1 }

abbrev pub is_class : ℤ → ℕ → ℕ → Bool
is_class code from to = ge_const code from && lt_const code to

-- RecordResponseReceived
unfoldable pub record_response_received : ℤ → Metrics → Metrics
record_response_received code before =
    let m = record before { responses_received = before.responses_received + 1 } in
    if is_class code 100 200
    then record m { responses_1xx = m.responses_1xx + 1 }
    else if is_class code 200 300
    then record m { responses_2xx = m.responses_2xx + 1 }
    else if is_class code 300 400
    then record m { responses_3xx = m.responses_3xx + 1 }
    else if is_class code 400 500
    then record m { responses_4xx = m.responses_4xx + 1 }
    else if is_class code 500 600
    then record m { responses_5xx = m.responses_5xx + 1 }
    else if is_class code 600 700
    then record m { responses_6xx = m.responses_6xx + 1 }
    else m

abbrev pub record_locally_answered : Metrics → Metrics
record_locally_answered m = record m { requests_answered_locally = m.requests_answered_locally + 1 }

unfoldable pub record_delay : ℕ → ℕ → Metrics → Metrics
unfolding add
record_delay minute ms m = record m { delays = add minute 1 ms m.delays }

abbrev one_more : ℤ → ℤ
one_more (pos n) = pos (n + 1)
one_more (negsuc n) = sub_ℕ 0 n

abbrev one_less : ℤ → ℤ
one_less (pos n) = sub_ℕ n 1
one_less (negsuc n) = negsuc (n + 1)

abbrev pub record_dialog_created : Metrics → Metrics
record_dialog_created m = record m {
  dialogs_active = one_more m.dialogs_active;
  dialogs_created = m.dialogs_created + 1;
}

abbrev pub record_dialog_completed : Metrics → Metrics
record_dialog_completed m = record m {
  dialogs_active = one_less m.dialogs_active;
  dialogs_completed = m.dialogs_completed + 1;
}

abbrev pub record_dialog_timed_out : Metrics → Metrics
record_dialog_timed_out m = record m {
  dialogs_active = one_less m.dialogs_active;
  dialogs_timed_out = m.dialogs_timed_out + 1;
}

unfoldable pub delay_stats : ℕ → ℕ → Metrics → ℕ × ℕ
unfolding stats
delay_stats minute window m = stats minute window m.delays

-- The count that RequestRate divides by the seconds of the window.
unfoldable pub request_count : ℕ → ℕ → Metrics → ℕ
unfolding stats
request_count minute window m = (stats minute window m.rates).0
