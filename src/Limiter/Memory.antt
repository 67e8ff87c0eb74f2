-- ===== src/Limiter/Memory.antt =====
-- What the limiter of pkg/script/limiter.go remembers of one key.
use funsip.Base.{
  ℕ, ◌+◌, ◌≤◌, ◌≡◌, refl, sym, ◌∙◌, true, false, Option, none, some, List, [], ◌∷◌, ◌++◌, arith,
  leb, if◌then◌else◌, length, keep_if, All, lookup, lookup-insert, lookup-delete, Option-cases,
  Bool-cases, inl, inr,
}
use funsip.Text.{Text, text_eq_iff, text_keys}
use funsip.Limiter.{
  LimitOpts, RateLimiter, new_rate_limiter, hits_of, in_window, past_ip, past_key, deny, allow,
  by_count, count_hit, check,
}
use funsip.Limiter.Counts.{
  count_in, length-keep_if, count_in-keep_if, count_in-append, count_in_mono, count_in_none,
  All-past, All-over,
}

-- A denial of the key outlasts every request that passed; without one the limiter remembers each
-- request that passed and is still in the window.
abbrev pub Remembers : ℕ → ℕ → List ℕ → List ℕ → Option ℕ → Type 0
Remembers w now passed hits none = (n : ℕ) → now ≤ n → count_in w n passed ≤ count_in w n hits
Remembers w now passed hits (some u) = All (λ t. t + w ≤ u) passed

-- The limiter against the times at which requests of key `k` have passed, up to the time `now`.
pub record Bounded (k : Text) (w m now : ℕ) (passed : List ℕ) (l : RateLimiter) : Type 0 where
  pub past : All (λ t. t ≤ now) passed
  pub remembers : Remembers w now passed (hits_of k l) (lookup text_keys k l.key_deny)
  pub bound : (n : ℕ) → now ≤ n → count_in w n passed ≤ m

pub new_rate_limiter-Bounded : (k : Text) (w m : ℕ) → Bounded k w m 0 [] new_rate_limiter
unfolding new_rate_limiter
new_rate_limiter-Bounded k w m = record {
  past = tt;
  remembers = λ n h. omega arith;
  bound = λ n h. omega arith;
}

pub Remembers-later :
    (w now later : ℕ) (passed hits : List ℕ) (u : Option ℕ)
    → now ≤ later
    → Remembers w now passed hits u
    → Remembers w later passed hits u
Remembers-later w now later passed hits none h r = λ n g. r n (omega arith)
Remembers-later w now later passed hits (some u) h r = r

pub Bounded-later :
    (k : Text) (w m now later : ℕ) (passed : List ℕ) (l : RateLimiter)
    → now ≤ later
    → Bounded k w m now passed l
    → Bounded k w m later passed l
Bounded-later k w m now later passed l h b = record {
  past = All-past now later passed h b.past;
  remembers =
      Remembers-later w now later passed (hits_of k l) (lookup text_keys k l.key_deny) h
        b.remembers;
  bound = λ n g. b.bound n (omega arith);
}

-- Two limiters that agree on the key.
pub Bounded-same :
    (k : Text) (w m now : ℕ) (passed : List ℕ) (l l' : RateLimiter)
    → lookup text_keys k l'.hits ≡ lookup text_keys k l.hits
    → lookup text_keys k l'.key_deny ≡ lookup text_keys k l.key_deny
    → Bounded k w m now passed l
    → Bounded k w m now passed l'
Bounded-same k w m now passed l l' p q b = record {
  past = b.past;
  remembers = rw (p, q) b.remembers;
  bound = b.bound;
}

-- The gates and the count, for the key `k` itself.
module _ (k : Text) (w m now : ℕ) (passed : List ℕ) where
  pub past_ip-Bounded :
      (ip : Text) (l l' : RateLimiter)
      → past_ip ip now l ≡ some l'
      → Bounded k w m now passed l
      → Bounded k w m now passed l'
  unfolding past_ip
  past_ip-Bounded ip l l' e b = Bounded-same k w m now passed l l' (ground arith) (ground arith) b

  -- Past the key's gate there is no denial of the key.
  pub past_key-Bounded :
      (l l' : RateLimiter)
      → past_key k now l ≡ some l'
      → Bounded k w m now passed l
      → Bounded k w m now passed l' × (lookup text_keys k l'.key_deny ≡ none)
  unfolding past_key
  past_key-Bounded l l' e b = elim (Option-cases (lookup text_keys k l.key_deny)) [
    | inl n ↦ (
      Bounded-same k w m now passed l l' (ground (arith, n)) (ground (arith, n)) b,
      ground (arith, n),
    )
    | inr (u, s) ↦ expired u s
  ]
    where
      expired :
          (u : ℕ)
          → lookup text_keys k l.key_deny ≡ some u
          → Bounded k w m now passed l' × (lookup text_keys k l'.key_deny ≡ none)
      expired u s =
          let gone : lookup text_keys k l'.key_deny ≡ none =
            ground (arith, s, lookup-delete text_keys k k l.key_deny, text_eq_iff k k) in
          let over : u ≤ now = ground (arith, s) in
          let left : All (λ t. t + w ≤ u) passed = rw s at b.remembers in
          (
            record {
              past = b.past;
              remembers =
                  rw gone (λ n g. omega (arith, count_in_none w u n passed left (omega arith)));
              bound = b.bound;
            },
            gone,
          )

  -- What the count makes of the hits that are still in the window.
  pub by_count-Bounded :
      (ip : Text) (opts : LimitOpts) (valid : List ℕ) (l : RateLimiter)
      → opts.window ≡ w
      → opts.max_count ≡ m
      → w ≤ opts.ttl
      → ((n : ℕ) → now ≤ n → count_in w n passed ≤ count_in w n valid)
      → length valid ≡ count_in w now valid
      → lookup text_keys k l.key_deny ≡ none
      → Bounded k w m now passed l
      → let (l', ok) = by_count k ip opts now valid l in
        Bounded k w m now (if ok then now ∷ passed else passed) l'
  by_count-Bounded ip opts valid l ew em ht r c gone b =
      elim (Bool-cases (leb opts.max_count (length valid))) [
        | inl full ↦ rw full (denied full)
        | inr room ↦ rw room (allowed room)
      ]
    where
      denied :
          leb opts.max_count (length valid) ≡ true
          → Bounded k w m now passed (deny k ip opts now valid l)
      denied full = record {
        past = b.past;
        remembers =
            rw (lookup-insert text_keys k k (now + opts.ttl) l.key_deny, (text_eq_iff k k).1 refl)
              (All-over w now (now + opts.ttl) passed (omega arith) b.past);
        bound = b.bound;
      }

      allowed :
          leb opts.max_count (length valid) ≡ false
          → Bounded k w m now (now ∷ passed) (allow k now valid l)
      allowed room = record {
        past = (omega arith, b.past);
        remembers =
            rw
              (
                gone,
                lookup-insert text_keys k k (valid ++ now ∷ []) l.hits,
                (text_eq_iff k k).1 refl,
              )
              (λ n g. ground (arith, count_in-append w n now valid, r n g));
        bound = λ n g. ground (arith, r n g, r now (omega arith), count_in_mono w now n passed g);
      }

  pub count_hit-Bounded :
      (ip : Text) (opts : LimitOpts) (l : RateLimiter)
      → opts.window ≡ w
      → opts.max_count ≡ m
      → w ≤ opts.ttl
      → lookup text_keys k l.key_deny ≡ none
      → Bounded k w m now passed l
      → let (l', ok) = count_hit k ip opts now l in
        Bounded k w m now (if ok then now ∷ passed else passed) l'
  unfolding count_hit
  count_hit-Bounded ip opts l ew em ht gone b = rw ew (
      by_count-Bounded ip opts (keep_if (in_window w now) (hits_of k l)) l ew em ht kept same gone
        b)
    where
      remembered : Remembers w now passed (hits_of k l) none
      remembered = rw gone at b.remembers

      kept :
          (n : ℕ)
          → now ≤ n
          → count_in w n passed ≤ count_in w n (keep_if (in_window w now) (hits_of k l))
      kept n g = rw (count_in-keep_if w now n (hits_of k l) g) (remembered n g)

      same :
          length (keep_if (in_window w now) (hits_of k l))
          ≡ count_in w now (keep_if (in_window w now) (hits_of k l))
      same =
          length-keep_if w now (hits_of k l)
          ∙ sym (count_in-keep_if w now now (hits_of k l) (omega arith))

  pub check-Bounded :
      (ip : Text) (opts : LimitOpts) (l : RateLimiter)
      → opts.window ≡ w
      → opts.max_count ≡ m
      → w ≤ opts.ttl
      → Bounded k w m now passed l
      → let (l', ok) = check k ip opts now l in
        Bounded k w m now (if ok then now ∷ passed else passed) l'
  unfolding check
  check-Bounded ip opts l ew em ht b = elim (Option-cases (past_ip ip now l)) [
    | inl e ↦ rw (e, check) b
    | inr (l₁, e) ↦ elim (Option-cases (past_key k now l₁)) [
      | inl e' ↦ rw (e, check, e') (past_ip-Bounded ip l l₁ e b)
      | inr (l₂, e') ↦
          let both = past_key-Bounded l₁ l₂ e' (past_ip-Bounded ip l l₁ e b) in
          rw (e, check, e') (count_hit-Bounded ip opts l₂ ew em ht both.1 both.0)
    ]
  ]
