-- ===== src/Media/Losses.antt =====
-- What qosTracker of pkg/media/analyzer.go counts as lost.
use funsip.Base.{
  ℕ, suc, ◌+◌, ◌-◌, ◌%◌, ◌^◌, ◌==◌, ◌≡◌, refl, ◌∙◌, ap, false, some, List, [], ◌∷◌, arith,
}
use funsip.Rtp.{Header}
use funsip.Media.Qos.{QosTracker, new_qos_tracker, ahead, observe, observe_all}

-- Packets whose numbers follow one another from `seq` on, modulo 2 ^ 16.
abbrev pub Consecutive : ℕ → List Header → Type 0
Consecutive seq [] = Unit
Consecutive seq (h ∷ hs) = (h.sequence ≡ seq % 2 ^ 16) × Consecutive (suc seq) hs

abbrev pub count_of : List Header → ℕ
count_of [] = 0
count_of (h ∷ hs) = suc (count_of hs)

ahead-next : (p : ℕ) → ahead (suc p % 2 ^ 16) p ≡ 1
ahead-next p = ground arith

-- A packet that is `step` ahead, and one that is not ahead.
module _ (h : Header) (p : ℕ) (q : QosTracker) (e : q.highest_seq ≡ some p) where
  observe-ahead :
      (step : ℕ)
      → ahead h.sequence p ≡ suc step
      → observe h q ≡ record {
        received = suc q.received;
        lost = q.lost + step;
        highest_seq = some ((p + suc step) % 2 ^ 32);
      }
  unfolding observe
  observe-ahead step a =
      let positive : (suc step == 0) ≡ false = ground arith in
      let behind : suc step - 1 ≡ step = omega arith in simp (e, a, positive, behind)

  observe-late : ahead h.sequence p ≡ 0 → observe h q ≡ record q { received = suc q.received }
  unfolding observe
  observe-late a = simp (e, a)

  observe-next :
      h.sequence ≡ suc p % 2 ^ 16
      → observe h q ≡ record {
        received = suc q.received;
        lost = q.lost + 0;
        highest_seq = some ((p + 1) % 2 ^ 32);
      }
  observe-next s = observe-ahead 0 (ap (λ n. ahead n p) s ∙ ahead-next p)

pub Consecutive-congruent :
    (a b : ℕ) (hs : List Header) → a % 2 ^ 16 ≡ b % 2 ^ 16 → Consecutive a hs → Consecutive b hs
Consecutive-congruent a b [] e c = tt
Consecutive-congruent a b (h ∷ hs) e (s, c) =
    (s ∙ e, Consecutive-congruent (suc a) (suc b) hs (omega arith) c)

after_one :
    (hs : List Header) (p : ℕ) (q : QosTracker)
    → Consecutive (suc p) hs
    → q.highest_seq ≡ some p
    → ((observe_all hs q).lost ≡ q.lost) × ((observe_all hs q).received ≡ q.received + count_of hs)
unfolding observe_all
after_one [] p q c e = (refl, ground arith)
after_one (h ∷ hs) p q (s, c) e =
    let met = observe-next h p q e s in
    let rest =
      after_one hs ((p + 1) % 2 ^ 32) (observe h q)
        (Consecutive-congruent (suc (suc p)) (suc ((p + 1) % 2 ^ 32)) hs (omega arith) c)
        (ap (λ (r : QosTracker). r.highest_seq) met) in
    (
      ground (arith, rest.0, ap (λ (r : QosTracker). r.lost) met),
      ground (arith, rest.1, ap (λ (r : QosTracker). r.received) met),
    )

-- Packets that arrive in order, whatever number the first has and however often the 16-bit number goes
-- around, are all received and none is counted as lost.
pub in_order_loses_nothing :
    (seq : ℕ) (hs : List Header)
    → Consecutive seq hs
    → ((observe_all hs new_qos_tracker).lost ≡ 0)
      × ((observe_all hs new_qos_tracker).received ≡ count_of hs)
unfolding observe_all new_qos_tracker observe
in_order_loses_nothing seq [] c = (refl, refl)
in_order_loses_nothing seq (h ∷ hs) (s, c) =
    let rest =
      after_one hs (seq % 2 ^ 16) (observe h new_qos_tracker)
        (Consecutive-congruent (suc seq) (suc (seq % 2 ^ 16)) hs (omega arith) c) (ap some s) in
    (rest.0, ground (arith, rest.1))

-- A packet that only changes places with the next one arrives, and is counted as lost all the same: of
-- three packets, the last two in the wrong order, three are received and one is lost.
late_packet_stays_lost :
    (seq : ℕ) (a b c : Header)
    → a.sequence ≡ seq % 2 ^ 16
    → b.sequence ≡ (seq + 2) % 2 ^ 16
    → c.sequence ≡ (seq + 1) % 2 ^ 16
    → ((observe_all (a ∷ b ∷ c ∷ []) new_qos_tracker).received ≡ 3)
      × ((observe_all (a ∷ b ∷ c ∷ []) new_qos_tracker).lost ≡ 1)
unfolding observe_all new_qos_tracker observe
late_packet_stays_lost seq a b c ea eb ec =
    let first = observe a new_qos_tracker in
    let second = observe-ahead b a.sequence first refl 1 (ground arith) in
    let third =
      observe-late c ((a.sequence + 2) % 2 ^ 32) (observe b first)
        (ap (λ (r : QosTracker). r.highest_seq) second) (ground arith) in
    (
      ap (λ (r : QosTracker). r.received) third ∙ ap (λ (r : QosTracker). suc r.received) second,
      ap (λ (r : QosTracker). r.lost) third ∙ ap (λ (r : QosTracker). r.lost) second,
    )
