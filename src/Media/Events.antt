-- ===== src/Media/Events.antt =====
-- dtmfTracker of pkg/media/analyzer.go: every packet of an event is in exactly one report.
use funsip.Base.{
  ℕ, ◌+◌, ◌==◌, ◌≡◌, refl, ap, Option, none, some, List, [], ◌∷◌, ◌++◌, arith, if◌then◌else◌,
  Bool-cases, inl, inr, if-both,
}
use funsip.Rtp.{Header, TelephoneEvent, parse_telephone_event}
use funsip.Media.Dtmf.{
  DtmfReport, Active, DtmfTracker, new_dtmf_tracker, report_of, close_active, start_event,
  observe_in, observe_event, observe, flush,
}

-- A packet as the tracker gets it: its header, its payload, and the time.
pub record Packet : Type 0 where
  pub header : Header
  pub payload : List ℕ
  pub at : ℕ

abbrev pub observe_packets : List Packet → DtmfTracker → DtmfTracker
observe_packets [] t = t
observe_packets (p ∷ ps) t = observe_packets ps (observe p.header p.payload p.at t)

abbrev one_if_some {ℓ} : {A : Type ℓ} → Option A → ℕ
one_if_some none = 0
one_if_some (some a) = 1

-- 1 for a packet of the event payload type that can be parsed.
abbrev counts : ℕ → Packet → ℕ
counts event_pt p =
    if p.header.payload_type == event_pt then one_if_some (parse_telephone_event p.payload) else 0

abbrev pub event_packets : ℕ → List Packet → ℕ
event_packets event_pt [] = 0
event_packets event_pt (p ∷ ps) = counts event_pt p + event_packets event_pt ps

abbrev pub reported : List DtmfReport → ℕ
reported [] = 0
reported (r ∷ rs) = r.packet_count + reported rs

abbrev under_way : Option Active → ℕ
under_way none = 0
under_way (some a) = a.pkts

abbrev total : DtmfTracker → ℕ
total t = reported t.digits + under_way t.active

reported-snoc :
    (rs : List DtmfReport) (r : DtmfReport) → reported (rs ++ r ∷ []) ≡ reported rs + r.packet_count
reported-snoc [] r = ground arith
reported-snoc (x ∷ rs) r = ground (arith, reported-snoc rs r)

close_active-total :
    (o : Option Active) (now : ℕ) (t : DtmfTracker)
    → t.active ≡ o
    → reported (close_active o now t).digits ≡ total t
unfolding report_of
close_active-total none now t e = ground (arith, e)
close_active-total (some a) now t e =
    ground (arith, e, reported-snoc t.digits (report_of t.rate t.last_end_at a))

start_event-total :
    (h : Header) (ev : TelephoneEvent) (now : ℕ) (t : DtmfTracker)
    → total (start_event h ev now t) ≡ total t + 1
start_event-total h ev now t = ground (arith, close_active-total t.active now t refl)

observe_in-total :
    (o : Option Active) (h : Header) (ev : TelephoneEvent) (now : ℕ) (t : DtmfTracker)
    → t.active ≡ o
    → total (observe_in o h ev now t) ≡ total t + 1
observe_in-total none h ev now t e = start_event-total h ev now t
observe_in-total (some a) h ev now t e =
    if-both (λ n. total n ≡ total t + 1) (h.timestamp == a.ts) (ground (arith, e))
      (start_event-total h ev now t)

observe_event-total :
    (o : Option TelephoneEvent) (h : Header) (now : ℕ) (t : DtmfTracker)
    → total (observe_event o h now t) ≡ total t + one_if_some o
observe_event-total none h now t = ground arith
observe_event-total (some ev) h now t = observe_in-total t.active h ev now t refl

observe-total :
    (p : Packet) (t : DtmfTracker)
    → total (observe p.header p.payload p.at t) ≡ total t + counts t.event_pt p
unfolding observe
observe-total p t = elim (Bool-cases (p.header.payload_type == t.event_pt)) [
  | inl e ↦ simp e (observe_event-total (parse_telephone_event p.payload) p.header p.at t)
  | inr e ↦ simp e (ground arith)
]

close_active-event_pt :
    (o : Option Active) (now : ℕ) (t : DtmfTracker) → (close_active o now t).event_pt ≡ t.event_pt
close_active-event_pt none now t = refl
close_active-event_pt (some a) now t = refl

close_active-active :
    (o : Option Active) (now : ℕ) (t : DtmfTracker)
    → t.active ≡ o
    → (close_active o now t).active ≡ none
close_active-active none now t e = e
close_active-active (some a) now t e = refl

observe_event-event_pt :
    (o : Option TelephoneEvent) (h : Header) (now : ℕ) (t : DtmfTracker)
    → (observe_event o h now t).event_pt ≡ t.event_pt
observe_event-event_pt none h now t = refl
observe_event-event_pt (some ev) h now t = by_active t.active
  where
    by_active : (o : Option Active) → (observe_in o h ev now t).event_pt ≡ t.event_pt
    by_active none = close_active-event_pt t.active now t
    by_active (some a) =
        if-both (λ (n : DtmfTracker). n.event_pt ≡ t.event_pt) (h.timestamp == a.ts) refl
          (close_active-event_pt t.active now t)

observe-event_pt :
    (p : Packet) (t : DtmfTracker) → (observe p.header p.payload p.at t).event_pt ≡ t.event_pt
unfolding observe
observe-event_pt p t =
    if-both (λ (n : DtmfTracker). n.event_pt ≡ t.event_pt) (p.header.payload_type == t.event_pt)
      (observe_event-event_pt (parse_telephone_event p.payload) p.header p.at t) refl

observe_packets-total :
    (ps : List Packet) (t : DtmfTracker)
    → total (observe_packets ps t) ≡ total t + event_packets t.event_pt ps
observe_packets-total [] t = ground arith
observe_packets-total (p ∷ ps) t = ground (
  arith,
  observe_packets-total ps (observe p.header p.payload p.at t),
  observe-total p t,
  observe-event_pt p t,
)

-- Whatever packets a tracker sees, the reports that it hands out at the end count each packet of the
-- event payload type that can be parsed once, and the reports are handed out once: at once after, there
-- are none.
pub reports_count_packets :
    (event_pt rate now later : ℕ) (ps : List Packet)
    → let flushed = flush now (observe_packets ps (new_dtmf_tracker event_pt rate)) in
      (reported flushed.0 ≡ event_packets event_pt ps) × ((flush later flushed.1).0 ≡ [])
unfolding new_dtmf_tracker flush
reports_count_packets event_pt rate now later ps =
    let t = observe_packets ps (new_dtmf_tracker event_pt rate) in
    let closed = close_active t.active now t in
    (
      ground (
        arith,
        close_active-total t.active now t refl,
        observe_packets-total ps (new_dtmf_tracker event_pt rate),
      ),
      ap (λ o. (close_active o later (record closed { digits = [] })).digits)
          (close_active-active t.active now t refl),
    )
