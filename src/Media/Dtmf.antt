-- ===== src/Media/Dtmf.antt =====
-- dtmfTracker of pkg/media/analyzer.go. Times are milliseconds, and the clock is an argument; the zero
-- time of `lastEndAt` is `none`. Counters are natural numbers.
use funsip.Base.{
  ℕ, suc, ◌+◌, ◌*◌, ◌/◌, ◌==◌, Bool, false, not, ◌&&◌, ◌||◌, Option, none, some, List, [], ◌∷◌,
  ◌++◌, if◌then◌else◌, ltb,
}
use funsip.Text.{Text}
use funsip.Rtp.{Header, TelephoneEvent, parse_telephone_event, event_digit}

pub data Warning : Type 0 where
  duration_short excessive_duration low_redundancy low_volume short_inter_digit_gap : Warning

pub data DtmfError : Type 0 where
  duration_too_short missing_end_flag : DtmfError

pub record DtmfReport : Type 0 where
  pub digit : Text
  pub duration_ms : ℕ
  pub volume : ℕ
  pub packet_count : ℕ
  pub end_packets : ℕ
  pub had_end : Bool
  pub warnings : List Warning
  pub errors : List DtmfError

-- The event that is being received.
pub record Active : Type 0 where
  pub ts : ℕ
  pub digit : ℕ
  pub max_dur : ℕ
  pub max_vol : ℕ
  pub pkts : ℕ
  pub ends : ℕ
  pub seen_end : Bool
  pub start : ℕ

-- `hasActive` with the fields that it guards is an option.
pub record DtmfTracker : Type 0 where
  pub event_pt : ℕ
  pub rate : ℕ
  pub digits : List DtmfReport
  pub last_end_at : Option ℕ
  pub active : Option Active

abbrev pub or_8000 : ℕ → ℕ
or_8000 rate = if rate == 0 then 8000 else rate

-- newDTMFTracker
unfoldable pub new_dtmf_tracker : ℕ → ℕ → DtmfTracker
new_dtmf_tracker event_pt rate = record {
  event_pt = event_pt;
  rate = or_8000 rate;
  digits = [];
  last_end_at = none;
  active = none;
}

abbrev pub when {ℓ} : {A : Type ℓ} → Bool → A → List A
when b a = if b then a ∷ [] else []

abbrev pub gap_is_short : Option ℕ → ℕ → Bool
gap_is_short none start = false
gap_is_short (some end_at) start = ltb start (end_at + 40)

abbrev pub duration_of : ℕ → Active → ℕ
duration_of rate a = a.max_dur * 1000 / rate

abbrev pub warnings_of : ℕ → Option ℕ → Active → List Warning
warnings_of rate last_end a =
    let ms = duration_of rate a in
    when (not (ltb ms 40) && ltb ms 80) duration_short
    ++ (when (ltb 1000 ms) excessive_duration
        ++ (when (ltb a.ends 3) low_redundancy
            ++ (when (ltb 36 a.max_vol) low_volume
                ++ when (gap_is_short last_end a.start) short_inter_digit_gap)))

abbrev pub errors_of : ℕ → Active → List DtmfError
errors_of rate a =
    when (ltb (duration_of rate a) 40) duration_too_short ++ when (not a.seen_end) missing_end_flag

-- What closeActiveLocked reports of an event.
unfoldable pub report_of : ℕ → Option ℕ → Active → DtmfReport
unfolding event_digit
report_of rate last_end a = record {
  digit = event_digit a.digit;
  duration_ms = duration_of rate a;
  volume = a.max_vol;
  packet_count = a.pkts;
  end_packets = a.ends;
  had_end = a.seen_end;
  warnings = warnings_of rate last_end a;
  errors = errors_of rate a;
}

-- closeActiveLocked, where there is an active event
abbrev pub close_active : Option Active → ℕ → DtmfTracker → DtmfTracker
close_active none now t = t
close_active (some a) now t = record t {
  digits = t.digits ++ report_of t.rate t.last_end_at a ∷ [];
  last_end_at = some now;
  active = none;
}

abbrev pub begin_event : Header → TelephoneEvent → ℕ → Active
begin_event h ev now = record {
  ts = h.timestamp;
  digit = ev.event;
  max_dur = ev.duration;
  max_vol = ev.volume;
  pkts = 1;
  ends = if ev.end_bit then 1 else 0;
  seen_end = ev.end_bit;
  start = now;
}

abbrev pub greater : ℕ → ℕ → ℕ
greater a b = if ltb a b then b else a

abbrev pub add_packet : TelephoneEvent → Active → Active
add_packet ev a = record a {
  pkts = suc a.pkts;
  max_dur = greater a.max_dur ev.duration;
  max_vol = greater a.max_vol ev.volume;
  ends = if ev.end_bit then suc a.ends else a.ends;
  seen_end = ev.end_bit || a.seen_end;
}

abbrev pub start_event : Header → TelephoneEvent → ℕ → DtmfTracker → DtmfTracker
start_event h ev now t = record (close_active t.active now t) {
  active = some (begin_event h ev now);
}

abbrev pub observe_in : Option Active → Header → TelephoneEvent → ℕ → DtmfTracker → DtmfTracker
observe_in none h ev now t = start_event h ev now t
observe_in (some a) h ev now t =
    if h.timestamp == a.ts
    then record t { active = some (add_packet ev a) }
    else start_event h ev now t

abbrev pub observe_event : Option TelephoneEvent → Header → ℕ → DtmfTracker → DtmfTracker
observe_event none h now t = t
observe_event (some ev) h now t = observe_in t.active h ev now t

-- Observe
unfoldable pub observe : Header → List ℕ → ℕ → DtmfTracker → DtmfTracker
unfolding parse_telephone_event report_of
observe h payload now t =
    if h.payload_type == t.event_pt
    then observe_event (parse_telephone_event payload) h now t
    else t

-- Flush: the reports, and the tracker without them.
unfoldable pub flush : ℕ → DtmfTracker → List DtmfReport × DtmfTracker
unfolding report_of
flush now t =
    let closed = close_active t.active now t in (closed.digits, record closed { digits = [] })
