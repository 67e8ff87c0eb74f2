-- ===== src/Limiter/Window.antt =====
-- The window bound of pkg/script/limiter.go: how many requests of one key pass in any window.
use funsip.Base.{
  ℕ, ◌≤◌, ◌≡◌, refl, true, false, ◌&&◌, List, [], ◌∷◌, if◌then◌else◌, Bool-cases, inl, inr,
}
use funsip.Text.{Text, text_eq, text_eq_iff}
use funsip.Limiter.{LimitOpts, RateLimiter, new_rate_limiter, check}
use funsip.Limiter.Counts.{count_in}
use funsip.Limiter.Memory.{
  Bounded, new_rate_limiter-Bounded, Bounded-later, Bounded-same, check-Bounded,
}
use funsip.Limiter.Others.{check-SameAt}

-- A call of `check`, with the time at which it is made.
pub record Call : Type 0 where
  pub key : Text
  pub ip : Text
  pub opts : LimitOpts
  pub at : ℕ

-- The limiter after the calls, and the times at which requests of key `k` have passed, the last first.
unfoldable pub replay : Text → RateLimiter → List ℕ → List Call → RateLimiter × List ℕ
replay k l passed [] = (l, passed)
replay k l passed (c ∷ cs) =
    let (l', ok) = check c.key c.ip c.opts c.at l in
    replay k l' (if text_eq c.key k && ok then c.at ∷ passed else passed) cs

-- The calls for key `k` all have this window and this count, and a denial that lasts at least a window;
-- the clock does not go back from one call to the next, nor is it before `now` at the first.
abbrev pub Conforms : Text → ℕ → ℕ → ℕ → List Call → Type 0
Conforms k w m now [] = Unit
Conforms k w m now (c ∷ cs) =
    (now ≤ c.at)
    × (text_eq c.key k ≡ true → (c.opts.window ≡ w) × (c.opts.max_count ≡ m) × (w ≤ c.opts.ttl))
    × Conforms k w m c.at cs

abbrev pub last_time : ℕ → List Call → ℕ
last_time now [] = now
last_time now (c ∷ cs) = last_time c.at cs

module _ (k : Text) (w m now : ℕ) (passed : List ℕ) (l : RateLimiter) where
  own_call-Bounded :
      (key ip : Text) (opts : LimitOpts) (at : ℕ)
      → key ≡ k
      → now ≤ at
      → (opts.window ≡ w) × (opts.max_count ≡ m) × (w ≤ opts.ttl)
      → Bounded k w m now passed l
      → let (l', ok) = check key ip opts at l in
        Bounded k w m at (if text_eq key k && ok then at ∷ passed else passed) l'
  own_call-Bounded key ip opts at e h (ew, em, ht) b =
      rw (e, (text_eq_iff k k).1 refl)
        (check-Bounded k w m at passed ip opts l ew em ht (Bounded-later k w m now at passed l h b))

  other_call-Bounded :
      (key ip : Text) (opts : LimitOpts) (at : ℕ)
      → text_eq key k ≡ false
      → now ≤ at
      → Bounded k w m now passed l
      → let (l', ok) = check key ip opts at l in
        Bounded k w m at (if text_eq key k && ok then at ∷ passed else passed) l'
  other_call-Bounded key ip opts at ne h b =
      let same = check-SameAt k key ne at ip opts l in
      rw ne
        (Bounded-same k w m at passed l _ same.0 same.1 (Bounded-later k w m now at passed l h b))

  call-Bounded :
      (c : Call)
      → now ≤ c.at
      → (text_eq c.key k ≡ true → (c.opts.window ≡ w) × (c.opts.max_count ≡ m) × (w ≤ c.opts.ttl))
      → Bounded k w m now passed l
      → let (l', ok) = check c.key c.ip c.opts c.at l in
        Bounded k w m c.at (if text_eq c.key k && ok then c.at ∷ passed else passed) l'
  call-Bounded c h conform b = elim (Bool-cases (text_eq c.key k)) [
    | inl e ↦ own_call-Bounded c.key c.ip c.opts c.at ((text_eq_iff c.key k).0 e) h (conform e) b
    | inr ne ↦ other_call-Bounded c.key c.ip c.opts c.at ne h b
  ]

replay-Bounded :
    (k : Text) (w m now : ℕ) (passed : List ℕ) (l : RateLimiter) (cs : List Call)
    → Conforms k w m now cs
    → Bounded k w m now passed l
    → let (l', passed') = replay k l passed cs in Bounded k w m (last_time now cs) passed' l'
unfolding replay
replay-Bounded k w m now passed l [] f b = b
replay-Bounded k w m now passed l (c ∷ cs) f b =
    replay-Bounded k w m c.at _ _ cs f.2 (call-Bounded k w m now passed l c f.0 f.1 b)

-- Calls in the order of time, on a new limiter, where the calls for key `k` have one window and one
-- count and a denial of at least a window: at no time from the last call on have more than `max_count`
-- requests of the key passed in the window that ends there, whatever the other keys and addresses did.
pub window_bound :
    (k : Text) (w m : ℕ) (cs : List Call) (n : ℕ)
    → Conforms k w m 0 cs
    → last_time 0 cs ≤ n
    → count_in w n (replay k new_rate_limiter [] cs).1 ≤ m
window_bound k w m cs n f g =
    (replay-Bounded k w m 0 [] new_rate_limiter cs f (new_rate_limiter-Bounded k w m)).bound n g
