-- ===== src/Metrics/Window.antt =====
-- The 60 buckets of pkg/metrics/metrics.go against a list of all that was recorded.
use funsip.Base.{
  ℕ, zero, suc, ◌+◌, ◌%◌, ◌<◌, ◌≤◌, ◌==◌, ◌≡◌, refl, ap, ◌∙◌, sym, false, List, [], ◌∷◌, ltb,
  if◌then◌else◌, update, length, length-update, arith, get_elem?, some, some-injective, subst, inl,
  inr, Bool-cases, get_elem?-update_inv, ◌⊎◌,
}
use funsip.Base.Wire.{fill, length-fill}
use funsip.Metrics.{
  Bucket, empty_bucket, Windowed, new_windowed, added, add, in_window, total_of, average, stats,
}

-- What was recorded, the last one first.
pub record Entry : Type 0 where
  pub minute : ℕ
  pub count : ℕ
  pub sum_ms : ℕ

abbrev pub add_all : List Entry → Windowed
add_all [] = new_windowed
add_all (e ∷ before) = add e.minute e.count e.sum_ms (add_all before)

-- Entries in the order of time, none of them behind `now`; minute 0 of the clock is long past.
abbrev pub InOrder : ℕ → List Entry → Type 0
InOrder now [] = Unit
InOrder now (e ∷ before) = (0 < e.minute) × (e.minute ≤ now) × InOrder e.minute before

-- The sum over the entries of the last minutes.
abbrev pub recent : (Entry → ℕ) → ℕ → ℕ → List Entry → ℕ
recent f now window [] = 0
recent f now window (e ∷ before) =
    (if ltb now (e.minute + window) then f e else 0) + recent f now window before

-- A bucket at its place that no later minute than `now` has filled.
abbrev Fits : ℕ → ℕ → Bucket → Type 0
Fits now i b = (b.minute ≡ 0) ⊎ ((b.minute % 60 ≡ i) × (b.minute ≤ now))

abbrev AllFit : ℕ → Windowed → Type 0
AllFit now w = (i : ℕ) (b : Bucket) → get_elem? w i ≡ some b → Fits now i b

abbrev share : (Bucket → ℕ) → ℕ → ℕ → Bucket → ℕ
share f now window b = if in_window now window b then f b else 0

total_of-update :
    (f : Bucket → ℕ) (now window : ℕ) (g : Bucket → Bucket) (i : ℕ) (w : Windowed) (b : Bucket)
    → get_elem? w i ≡ some b
    → total_of f now window (update g i w) + share f now window b
      ≡ total_of f now window w + share f now window (g b)
total_of-update f now window g i [] b h = absurd cc
total_of-update f now window g zero (x ∷ w) b h =
    subst
      (λ c.
        share f now window (g x) + total_of f now window w + share f now window c
        ≡ share f now window x + total_of f now window w + share f now window (g c))
      (some-injective x b h) (omega arith)
total_of-update f now window g (suc i) (x ∷ w) b h =
    omega (arith, total_of-update f now window g i w b h)

-- What is put into a bucket is all that its share grows by: what it loses was out of every window.
added-shares :
    (now window : ℕ) (e : Entry) (b : Bucket)
    → 0 < e.minute
    → e.minute ≤ now
    → window ≤ 60
    → Fits e.minute (e.minute % 60) b
    → (let g = added e.minute e.count e.sum_ms in
        let grows : (Entry → ℕ) → ℕ = λ f. if ltb now (e.minute + window) then f e else 0 in
        (share (λ x. x.count) now window (g b)
          ≡ share (λ x. x.count) now window b + grows (λ x. x.count))
        × (share (λ x. x.sum_ms) now window (g b)
            ≡ share (λ x. x.sum_ms) now window b + grows (λ x. x.sum_ms)))
added-shares now window e b positive past small fits = elim (Bool-cases (b.minute == e.minute)) [
  | inl same ↦ rw same (ground arith, ground arith)
  | inr other ↦
      let old : in_window now window b ≡ false = ground arith in
      rw (other, old) (ground arith, ground arith)
]

added-Fits :
    (e : Entry) (b : Bucket) → Fits e.minute (e.minute % 60) (added e.minute e.count e.sum_ms b)
added-Fits e b = elim (Bool-cases (b.minute == e.minute)) [
  | inl same ↦ rw same (ground arith)
  | inr other ↦ rw other (ground arith)
]

Fits-later : (before now i : ℕ) (b : Bucket) → before ≤ now → Fits before i b → Fits now i b
Fits-later before now i b le (inl z) = inl z
Fits-later before now i b le (inr (at, past)) = inr (at, omega (arith, past))

add-AllFit :
    (before : ℕ) (e : Entry) (w : Windowed)
    → before ≤ e.minute
    → AllFit before w
    → AllFit e.minute (add e.minute e.count e.sum_ms w)
unfolding add
add-AllFit before e w le all i b h =
    elim (get_elem?-update_inv (added e.minute e.count e.sum_ms) (e.minute % 60) i w b h) [
      | inl (other, there) ↦ Fits-later before e.minute i b le (all i b there)
      | inr (at, (old, (there, is))) ↦
          subst (λ j. Fits e.minute j b) at
            (subst (Fits e.minute (e.minute % 60)) (sym is) (added-Fits e old))
    ]

abbrev latest : List Entry → ℕ
latest [] = 0
latest (e ∷ before) = e.minute

InOrder-later : (t now : ℕ) (log : List Entry) → t ≤ now → InOrder t log → InOrder now log
InOrder-later t now [] le h = tt
InOrder-later t now (e ∷ before) le h = (h.0, omega (arith, h.1), h.2)

latest-le : (t : ℕ) (log : List Entry) → InOrder t log → latest log ≤ t
latest-le t [] h = omega arith
latest-le t (e ∷ before) h = h.1

fill-empty : (n i : ℕ) (b : Bucket) → get_elem? (fill n empty_bucket) i ≡ some b → b.minute ≡ 0
fill-empty zero i b h = absurd cc
fill-empty (suc n) zero b h = sym (ap (λ (x : Bucket). x.minute) (some-injective empty_bucket b h))
fill-empty (suc n) (suc i) b h = fill-empty n i b h

add_all-AllFit : (now : ℕ) (log : List Entry) → InOrder now log → AllFit (latest log) (add_all log)
add_all-AllFit now [] h = λ i b e. inl (fill-empty 60 i b e)
add_all-AllFit now (e ∷ before) h =
    add-AllFit (latest before) e (add_all before) (latest-le e.minute before h.2)
      (add_all-AllFit e.minute before h.2)

length-add_all : (log : List Entry) → length (add_all log) ≡ 60
unfolding add
length-add_all [] = length-fill 60 empty_bucket
length-add_all (e ∷ before) =
    length-update (added e.minute e.count e.sum_ms) (e.minute % 60) (add_all before)
    ∙ length-add_all before

get_elem?-there :
    {A : Type 0} (xs : List A) (i : ℕ) → i < length xs → (a : A) × (get_elem? xs i ≡ some a)
get_elem?-there [] i h = absurd (omega arith)
get_elem?-there (x ∷ xs) zero h = (x, refl)
get_elem?-there (x ∷ xs) (suc i) h = get_elem?-there xs i (omega arith)

-- The sums of the loop, against those over all entries.
totals-recent :
    (now window : ℕ) (log : List Entry)
    → window ≤ 60
    → InOrder now log
    → (total_of (λ b. b.count) now window (add_all log) ≡ recent (λ e. e.count) now window log)
      × (total_of (λ b. b.sum_ms) now window (add_all log) ≡ recent (λ e. e.sum_ms) now window log)
unfolding add
totals-recent now window [] small h = (refl, refl)
totals-recent now window (e ∷ before) small h =
    let w = add_all before in
    let at = e.minute % 60 in
    let g = added e.minute e.count e.sum_ms in
    let (b, there) = get_elem?-there w at (omega (arith, length-add_all before)) in
    let old =
      Fits-later (latest before) e.minute at b (latest-le e.minute before h.2)
        (add_all-AllFit e.minute before h.2 at b there) in
    let shares = added-shares now window e b h.0 h.1 small old in
    let earlier =
      totals-recent now window before small (InOrder-later e.minute now before h.1 h.2) in
    let count = total_of-update (λ x. x.count) now window g at w b there in
    let sum = total_of-update (λ x. x.sum_ms) now window g at w b there in
    (omega (arith, count, shares.0, earlier.0), omega (arith, sum, shares.1, earlier.1))

-- Whatever was recorded, at minutes that do not go back, the statistics of the last minutes, 60 of them
-- at most, are those of the whole list of entries: the count is the sum of the counts of those less than
-- so many minutes ago, and the average that of their times. That the 60 buckets are used again and again
-- loses nothing that still counts.
pub stats_exact :
    (now window : ℕ) (log : List Entry)
    → window ≤ 60
    → InOrder now log
    → stats now window (add_all log) ≡ (
      recent (λ e. e.count) now window log,
      average (recent (λ e. e.count) now window log) (recent (λ e. e.sum_ms) now window log),
    )
unfolding stats
stats_exact now window log small h =
    let totals = totals-recent now window log small h in
    ap (λ n. (n, average n (total_of (λ b. b.sum_ms) now window (add_all log)))) totals.0
    ∙ ap
        (λ n.
          (recent (λ e. e.count) now window log, average (recent (λ e. e.count) now window log) n))
        totals.1
