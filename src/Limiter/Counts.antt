-- ===== src/Limiter/Counts.antt =====
-- Counting the times in a window, for pkg/script/limiter.go.
use funsip.Base.{
  ℕ, suc, ◌+◌, ◌≤◌, ◌≡◌, refl, List, [], ◌∷◌, ◌++◌, arith, if◌then◌else◌, length, keep_if, All,
}
use funsip.Limiter.{in_window}

-- How many of the times lie in the window that ends at `now`.
abbrev pub count_in : ℕ → ℕ → List ℕ → ℕ
count_in window now [] = 0
count_in window now (t ∷ ts) =
    if in_window window now t then suc (count_in window now ts) else count_in window now ts

pub length-keep_if : (w n : ℕ) (ts : List ℕ) → length (keep_if (in_window w n) ts) ≡ count_in w n ts
length-keep_if w n [] = refl
length-keep_if w n (t ∷ ts) = ground (arith, length-keep_if w n ts)

-- What has left the window stays out of it.
pub count_in-keep_if :
    (w n m : ℕ) (ts : List ℕ) → n ≤ m → count_in w m (keep_if (in_window w n) ts) ≡ count_in w m ts
count_in-keep_if w n m [] h = refl
count_in-keep_if w n m (t ∷ ts) h = ground (arith, count_in-keep_if w n m ts h)

pub count_in-append :
    (w n t : ℕ) (ts : List ℕ) → count_in w n (ts ++ t ∷ []) ≡ count_in w n (t ∷ ts)
count_in-append w n t [] = refl
count_in-append w n t (s ∷ ts) = ground (arith, count_in-append w n t ts)

pub count_in_mono : (w n m : ℕ) (ts : List ℕ) → n ≤ m → count_in w m ts ≤ count_in w n ts
count_in_mono w n m [] h = omega arith
count_in_mono w n m (t ∷ ts) h = ground (arith, count_in_mono w n m ts h)

pub count_in_none :
    (w u n : ℕ) (ts : List ℕ) → All (λ t. t + w ≤ u) ts → u ≤ n → count_in w n ts ≡ 0
count_in_none w u n [] a h = refl
count_in_none w u n (t ∷ ts) a h = ground (arith, count_in_none w u n ts a.1 h)

pub All-past : (n m : ℕ) (ts : List ℕ) → n ≤ m → All (λ t. t ≤ n) ts → All (λ t. t ≤ m) ts
All-past n m [] h a = tt
All-past n m (t ∷ ts) h a = (omega arith, All-past n m ts h a.1)

pub All-over : (w n u : ℕ) (ts : List ℕ) → n + w ≤ u → All (λ t. t ≤ n) ts → All (λ t. t + w ≤ u) ts
All-over w n u [] h a = tt
All-over w n u (t ∷ ts) h a = (omega arith, All-over w n u ts h a.1)
