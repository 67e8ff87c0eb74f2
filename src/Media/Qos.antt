-- ===== src/Media/Qos.antt =====
-- qosTracker of pkg/media/analyzer.go: the count of lost packets. Jitter, the loss rate and the MoS are
-- floating-point and left out. `received` is a natural number, and so is `lost`, which only grows.
use funsip.Base.{
  ℕ, suc, ◌+◌, ◌-◌, ◌%◌, ◌^◌, ◌==◌, Option, none, some, List, [], ◌∷◌, if◌then◌else◌, ltb,
}
use funsip.Rtp.{Header}

-- `firstSeq` with the number that it guards is an option.
pub record QosTracker : Type 0 where
  pub received : ℕ
  pub lost : ℕ
  pub highest_seq : Option ℕ

unfoldable pub new_qos_tracker : QosTracker
new_qos_tracker = record { received = 0; lost = 0; highest_seq = none }

-- How far the packet is ahead of the highest number: `newHi - prev` where it is positive, else 0. The
-- difference of the two low halves is between -65535 and 65535; one below -32768 is a rollover, and one
-- above 32768 is a late packet from before the rollover.
abbrev pub ahead : ℕ → ℕ → ℕ
ahead seq prev =
    let low = prev % 2 ^ 16 in
    if ltb (seq + 32768) low
    then seq + 65536 - low
    else if ltb (low + 32768) seq
    then 0
    else seq - low

abbrev pub advance : ℕ → ℕ → QosTracker → QosTracker
advance prev step q =
    if step == 0
    then q
    else record q { lost = q.lost + (step - 1); highest_seq = some ((prev + step) % 2 ^ 32) }

abbrev account : Option ℕ → ℕ → QosTracker → QosTracker
account none seq q = record q { highest_seq = some seq }
account (some prev) seq q = advance prev (ahead seq prev) q

-- Observe
unfoldable pub observe : Header → QosTracker → QosTracker
observe h q = account q.highest_seq h.sequence (record q { received = suc q.received })

unfoldable pub observe_all : List Header → QosTracker → QosTracker
unfolding observe
observe_all [] q = q
observe_all (h ∷ hs) q = observe_all hs (observe h q)
