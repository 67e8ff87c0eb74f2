-- ===== src/Limiter/Decisions.antt =====
-- Which requests the limiter of pkg/script/limiter.go allows, how long it denies, and how much it keeps.
use funsip.Base.{
  ℕ, ◌+◌, ◌≤◌, ◌<◌, ◌≡◌, refl, Bool, true, false, not, ◌&&◌, Option, none, some, List, [], ◌∷◌,
  ◌++◌, arith, ltb, if◌then◌else◌, length, length-append, keep_if, length-keep_if-le, lookup,
  lookup-insert, lookup-delete, Option-cases, inl, inr,
}
use funsip.Text.{Text, text_eq_iff, text_keys, is_empty}
use funsip.Limiter.{
  LimitOpts, RateLimiter, new_rate_limiter, hits_of, in_window, past_ip, past_key, count_hit, check,
}
use funsip.Limiter.Counts.{count_in, length-keep_if}
use funsip.Limiter.Window.{Call, replay}

abbrev pub is_denied : Option ℕ → ℕ → Bool
is_denied none now = false
is_denied (some t) now = ltb now t

abbrev pub ip_denied : Text → ℕ → RateLimiter → Bool
ip_denied ip now l = if is_empty ip then false else is_denied (lookup text_keys ip l.ip_deny) now

-- The hits that count: a denial of the key that is over has wiped them.
abbrev pub live_hits : Text → RateLimiter → List ℕ
live_hits key l = elim (lookup text_keys key l.key_deny) [ none ↦ hits_of key l | some t ↦ [] ]

count_hit-true :
    (key ip : Text) (opts : LimitOpts) (now : ℕ) (l : RateLimiter)
    → (count_hit key ip opts now l).1
      ≡ ltb (count_in opts.window now (hits_of key l)) opts.max_count
unfolding count_hit
count_hit-true key ip opts now l = ground (arith, length-keep_if opts.window now (hits_of key l))

past_ip-none :
    (ip : Text) (now : ℕ) (l : RateLimiter) → past_ip ip now l ≡ none → ip_denied ip now l ≡ true
unfolding past_ip
past_ip-none ip now l e = ground arith

past_ip-some :
    (ip : Text) (now : ℕ) (l l' : RateLimiter)
    → past_ip ip now l ≡ some l'
    → (ip_denied ip now l ≡ false) × (l'.hits ≡ l.hits) × (l'.key_deny ≡ l.key_deny)
unfolding past_ip
past_ip-some ip now l l' e = (ground arith, ground arith, ground arith)

past_key-none :
    (key : Text) (now : ℕ) (l : RateLimiter)
    → past_key key now l ≡ none
    → is_denied (lookup text_keys key l.key_deny) now ≡ true
unfolding past_key
past_key-none key now l e = ground arith

past_key-some :
    (key : Text) (now : ℕ) (l l' : RateLimiter)
    → past_key key now l ≡ some l'
    → (is_denied (lookup text_keys key l.key_deny) now ≡ false) × (hits_of key l' ≡ live_hits key l)
unfolding past_key
past_key-some key now l l' e =
    (ground arith, ground (arith, lookup-delete text_keys key key l.hits, text_eq_iff key key))

-- `check` allows a request exactly if its address is not denied at that time, its key is not, and of
-- the key's hits (none, where a denial of the key is over) fewer than `MaxCount` lie in the window.
check-allows :
    (key ip : Text) (opts : LimitOpts) (now : ℕ) (l : RateLimiter)
    → (check key ip opts now l).1 ≡ (
        not (ip_denied ip now l)
        && (not (is_denied (lookup text_keys key l.key_deny) now)
            && ltb (count_in opts.window now (live_hits key l)) opts.max_count))
unfolding check
check-allows key ip opts now l = elim (Option-cases (past_ip ip now l)) [
  | inl e ↦ rw (e, check, past_ip-none ip now l e)
  | inr (l₁, e) ↦ elim (Option-cases (past_key key now l₁)) [
    | inl e' ↦
        let p = past_ip-some ip now l l₁ e in
        rw (e, check, e') (ground (arith, p, past_key-none key now l₁ e'))
    | inr (l₂, e') ↦
        let p = past_ip-some ip now l l₁ e in
        let q = past_key-some key now l₁ l₂ e' in
        rw (e, check, e') (ground (arith, p, q, count_hit-true key ip opts now l₂))
  ]
]

-- Some number of hits of each key, and what the gates and the count do to it.
abbrev pub Holds : ℕ → RateLimiter → Type 0
Holds m l = (k : Text) → length (hits_of k l) ≤ m

past_key-Holds :
    (m : ℕ) (key : Text) (now : ℕ) (l l' : RateLimiter)
    → past_key key now l ≡ some l'
    → Holds m l
    → Holds m l'
unfolding past_key
past_key-Holds m key now l l' e h k = ground (arith, h k, lookup-delete text_keys key k l.hits)

count_hit-Holds :
    (m : ℕ) (key ip : Text) (opts : LimitOpts) (now : ℕ) (l : RateLimiter)
    → opts.max_count ≤ m
    → Holds m l
    → Holds m (count_hit key ip opts now l).0
unfolding count_hit
count_hit-Holds m key ip opts now l b h k =
    let valid = keep_if (in_window opts.window now) (hits_of key l) in
    ground (
      arith,
      h k,
      h key,
      lookup-insert text_keys key k valid l.hits,
      lookup-insert text_keys key k (valid ++ now ∷ []) l.hits,
      length-append valid (now ∷ []),
      length-keep_if-le (in_window opts.window now) (hits_of key l),
    )

-- If no key holds more than `m` hits and `MaxCount` is at most `m`, no key does after the call, allowed
-- or denied.
check-Holds :
    (m : ℕ) (key ip : Text) (opts : LimitOpts) (now : ℕ) (l : RateLimiter)
    → opts.max_count ≤ m
    → Holds m l
    → Holds m (check key ip opts now l).0
unfolding check
check-Holds m key ip opts now l b h = elim (Option-cases (past_ip ip now l)) [
  | inl e ↦ rw (e, check) h
  | inr (l₁, e) ↦
      let p = past_ip-some ip now l l₁ e in
      let h₁ : Holds m l₁ = λ k. rw p.1 (h k) in
      elim (Option-cases (past_key key now l₁)) [
        | inl e' ↦ rw (e, check, e') h₁
        | inr (l₂, e') ↦
            rw (e, check, e')
              (count_hit-Holds m key ip opts now l₂ b (past_key-Holds m key now l₁ l₂ e' h₁))
      ]
]

count_hit-denies :
    (key ip : Text) (opts : LimitOpts) (now : ℕ) (l : RateLimiter)
    → (count_hit key ip opts now l).1 ≡ false
    → let l' = (count_hit key ip opts now l).0 in
      (lookup text_keys key l'.key_deny ≡ some (now + opts.ttl))
      × (opts.blacklist ≡ true
          → is_empty ip ≡ false
          → lookup text_keys ip l'.ip_deny ≡ some (now + opts.ttl))
unfolding count_hit
count_hit-denies key ip opts now l d = (
  ground (arith, lookup-insert text_keys key key (now + opts.ttl) l.key_deny, text_eq_iff key key),
  λ b n.
      ground (arith, lookup-insert text_keys ip ip (now + opts.ttl) l.ip_deny, text_eq_iff ip ip),
)

-- A request that is denied for its count: until the denial is over, every request of that key is denied,
-- whatever its address and options, and where its address was added to the black list, so is every
-- request of that address, whatever its key and options.
denial_lasts :
    (key ip : Text) (opts : LimitOpts) (now : ℕ) (l : RateLimiter)
    → (count_hit key ip opts now l).1 ≡ false
    → (key' ip' : Text) (opts' : LimitOpts) (later : ℕ) → later < now + opts.ttl
    → let l' = (count_hit key ip opts now l).0 in
      ((check key ip' opts' later l').1 ≡ false)
      × (opts.blacklist ≡ true → is_empty ip ≡ false → (check key' ip opts' later l').1 ≡ false)
denial_lasts key ip opts now l d key' ip' opts' later h =
    let stamps = count_hit-denies key ip opts now l d in
    let l' = (count_hit key ip opts now l).0 in
    (
      ground (arith, check-allows key ip' opts' later l', stamps),
      λ b n. ground (arith, check-allows key' ip opts' later l', stamps),
    )

-- Where a denial is shorter than the window, the bound on the window does not hold. With one request
-- allowed in a window, of three requests of a key the first, at `t`, passes; the second, at `t`, is
-- denied; and the third, at the end of this denial, passes: two have passed within one window. Without
-- the second the third is denied.
pub short_denial_exceeds :
    (k : Text) (t window ttl : ℕ)
    → 0 < ttl
    → ttl < window
    → let opts : LimitOpts = record {
      window = window;
      max_count = 1;
      ttl = ttl;
      blacklist = false;
    } in
      let at : ℕ → Call = λ n. record { key = k; ip = []; opts = opts; at = n } in
      let passed = (replay k new_rate_limiter [] (at t ∷ at t ∷ at (t + ttl) ∷ [])).1 in
      let first = check k [] opts t new_rate_limiter in
      let second = check k [] opts t first.0 in
      (first.1 ≡ true)
      × (second.1 ≡ false)
      × ((check k [] opts (t + ttl) second.0).1 ≡ true)
      × (count_in window (t + ttl) passed ≡ 2)
      × ((check k [] opts (t + ttl) first.0).1 ≡ false)
unfolding replay check new_rate_limiter
short_denial_exceeds k t window ttl p q = rw ((text_eq_iff k k).1 refl) (
  ground (arith, text_eq_iff k k),
  ground (arith, text_eq_iff k k),
  ground (arith, text_eq_iff k k),
  ground (arith, text_eq_iff k k),
  ground (arith, text_eq_iff k k),
)
