-- ===== src/Limiter/Others.antt =====
-- Calls of pkg/script/limiter.go for other keys.
use funsip.Base.{
  ℕ, ◌+◌, ◌≡◌, refl, ◌∙◌, false, some, [], ◌∷◌, ◌++◌, arith, keep_if, lookup, lookup-insert,
  lookup-delete, Option-cases, inl, inr,
}
use funsip.Text.{Text, text_eq, text_keys}
use funsip.Limiter.{LimitOpts, RateLimiter, hits_of, in_window, past_ip, past_key, count_hit, check}

-- What two limiters hold of the key is the same.
abbrev pub SameAt : Text → RateLimiter → RateLimiter → Type 0
SameAt k l l' =
    (lookup text_keys k l'.hits ≡ lookup text_keys k l.hits)
    × (lookup text_keys k l'.key_deny ≡ lookup text_keys k l.key_deny)

module _ (k key : Text) (ne : text_eq key k ≡ false) (now : ℕ) where
  pub past_ip-SameAt : (ip : Text) (l l' : RateLimiter) → past_ip ip now l ≡ some l' → SameAt k l l'
  unfolding past_ip
  past_ip-SameAt ip l l' e = (ground arith, ground arith)

  pub past_key-SameAt : (l l' : RateLimiter) → past_key key now l ≡ some l' → SameAt k l l'
  unfolding past_key
  past_key-SameAt l l' e = (
    ground (arith, lookup-delete text_keys key k l.hits),
    ground (arith, lookup-delete text_keys key k l.key_deny),
  )

  pub count_hit-SameAt :
      (ip : Text) (opts : LimitOpts) (l : RateLimiter) → SameAt k l (count_hit key ip opts now l).0
  unfolding count_hit
  count_hit-SameAt ip opts l =
      let valid = keep_if (in_window opts.window now) (hits_of key l) in
      (
        ground (
          arith,
          lookup-insert text_keys key k valid l.hits,
          lookup-insert text_keys key k (valid ++ now ∷ []) l.hits,
        ),
        ground (arith, lookup-insert text_keys key k (now + opts.ttl) l.key_deny),
      )

  -- A call for another key leaves what the limiter holds of this one.
  pub check-SameAt :
      (ip : Text) (opts : LimitOpts) (l : RateLimiter) → SameAt k l (check key ip opts now l).0
  unfolding check
  check-SameAt ip opts l = elim (Option-cases (past_ip ip now l)) [
    | inl e ↦ rw (e, check) (refl, refl)
    | inr (l₁, e) ↦ elim (Option-cases (past_key key now l₁)) [
      | inl e' ↦ rw (e, check, e') (past_ip-SameAt ip l l₁ e)
      | inr (l₂, e') ↦
          let a = past_ip-SameAt ip l l₁ e in
          let b = past_key-SameAt l₁ l₂ e' in
          let c = count_hit-SameAt ip opts l₂ in
          rw (e, check, e') (c.0 ∙ b.0 ∙ a.0, c.1 ∙ b.1 ∙ a.1)
    ]
  ]
