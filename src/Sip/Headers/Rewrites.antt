-- ===== src/Sip/Headers/Rewrites.antt =====
-- What each method of pkg/sip/header.go makes of the values under a key.
use funsip.Base.{
  ℕ, ◌≡◌, refl, none, some, List, [], ◌∷◌, ◌++◌, arith, if◌then◌else◌, Option-cases, Bool-cases,
  erase_idx, inl, inr,
}
use funsip.Text.{Text, text_eq, text_eq_iff, to_lower}
use funsip.Sip.Headers.{
  Headers, index_of, values_at, update_at, append_entry, rebuild_index, set, add, prepend, remove,
  replace_first, remove_first, with_first, is_some_value, rest_values, drop_or_update,
}
use funsip.Sip.Headers.Places.{
  position, values_of, values_at-position, values_of-none, values_of-update_at, values_of-append,
  values_of-erase_idx,
}
use funsip.Sip.Headers.Invariant.{IsIndexed}

-- What an operation makes of the values under a key `k`, where `n` is the name that it is about.
abbrev pub Rewrites : (List Text → List Text) → Text → Headers → Headers → Type 0
Rewrites f n h h' =
    (k : Text)
    → values_of k h'.ordered
      ≡ (if text_eq (to_lower n) k then f (values_of k h.ordered) else values_of k h.ordered)

module _ (h : Headers) (n : Text) (w : IsIndexed h) where
  absent : index_of h (to_lower n) ≡ none → position (to_lower n) h.ordered ≡ none
  absent e = ground (arith, w.indexed (to_lower n))

  present : {i : ℕ} → index_of h (to_lower n) ≡ some i → position (to_lower n) h.ordered ≡ some i
  present e = ground (arith, w.indexed (to_lower n))

  append_entry-Rewrites :
      (v : Text) (f : List Text → List Text)
      → f [] ≡ v ∷ []
      → position (to_lower n) h.ordered ≡ none
      → Rewrites f n h (append_entry h n v)
  append_entry-Rewrites v f b p k = ground (
    arith,
    b,
    values_of-append k h.ordered (record { name = n; values = v ∷ [] }) p,
    values_of-none (to_lower n) h.ordered p,
    text_eq_iff (to_lower n) k,
  )

  update_at-Rewrites :
      (f : List Text → List Text) (i : ℕ)
      → position (to_lower n) h.ordered ≡ some i
      → Rewrites f n h (record h { ordered = update_at f i h.ordered })
  update_at-Rewrites f i p k =
      ground (arith, values_of-update_at f (to_lower n) k i h.ordered p, text_eq_iff (to_lower n) k)

  erase_idx-Rewrites :
      (i : ℕ)
      → position (to_lower n) h.ordered ≡ some i
      → Rewrites (λ vs. []) n h (rebuild_index (erase_idx h.ordered i))
  erase_idx-Rewrites i p k =
      ground (arith, values_of-erase_idx (to_lower n) k i h.ordered w.distinct p)

  same-Rewrites :
      (f : List Text → List Text)
      → f [] ≡ []
      → values_of (to_lower n) h.ordered ≡ []
      → Rewrites f n h h
  same-Rewrites f b p k = ground (arith, b, p, text_eq_iff (to_lower n) k)

  nothing : position (to_lower n) h.ordered ≡ none → values_of (to_lower n) h.ordered ≡ []
  nothing p = values_of-none (to_lower n) h.ordered p

  pub set-Rewrites : (v : Text) → Rewrites (λ vs. v ∷ []) n h (set h n v)
  unfolding set
  set-Rewrites v = elim (Option-cases (index_of h (to_lower n))) [
    | inl e ↦ rw (e, set) (append_entry-Rewrites v (λ vs. v ∷ []) refl (absent e))
    | inr (i, e) ↦ rw (e, set) (update_at-Rewrites (λ vs. v ∷ []) i (present e))
  ]

  pub add-Rewrites : (v : Text) → Rewrites (λ vs. vs ++ v ∷ []) n h (add h n v)
  unfolding add
  add-Rewrites v = elim (Option-cases (index_of h (to_lower n))) [
    | inl e ↦ rw (e, add) (append_entry-Rewrites v (λ vs. vs ++ v ∷ []) refl (absent e))
    | inr (i, e) ↦ rw (e, add) (update_at-Rewrites (λ vs. vs ++ v ∷ []) i (present e))
  ]

  pub prepend-Rewrites : (v : Text) → Rewrites (λ vs. v ∷ vs) n h (prepend h n v)
  unfolding prepend
  prepend-Rewrites v = elim (Option-cases (index_of h (to_lower n))) [
    | inl e ↦ rw (e, prepend) (λ k. ground (arith, nothing (absent e), text_eq_iff (to_lower n) k))
    | inr (i, e) ↦ rw (e, prepend) (update_at-Rewrites (λ vs. v ∷ vs) i (present e))
  ]

  pub remove-Rewrites : Rewrites (λ vs. []) n h (remove h n)
  unfolding remove
  remove-Rewrites = elim (Option-cases (index_of h (to_lower n))) [
    | inl e ↦ rw (e, remove) (same-Rewrites (λ vs. []) refl (nothing (absent e)))
    | inr (i, e) ↦ rw (e, remove) (erase_idx-Rewrites i (present e))
  ]

  found :
      {i : ℕ}
      → index_of h (to_lower n) ≡ some i
      → values_at h.ordered i ≡ values_of (to_lower n) h.ordered
  found {i} e = values_at-position (to_lower n) h.ordered i (present e)

  pub replace_first-Rewrites : (v : Text) → Rewrites (with_first v) n h (replace_first h n v).0
  unfolding replace_first
  replace_first-Rewrites v = elim (Option-cases (index_of h (to_lower n))) [
    | inl e ↦ rw (e, replace_first) (same-Rewrites (with_first v) refl (nothing (absent e)))
    | inr (i, e) ↦ elim (Bool-cases (is_some_value (values_at h.ordered i))) [
      | inl b ↦ rw (e, replace_first, b) (update_at-Rewrites (with_first v) i (present e))
      | inr b ↦
          rw (e, replace_first, b) (same-Rewrites (with_first v) refl (ground (arith, b, found e)))
    ]
  ]

  drop_or_update-Rewrites :
      (i : ℕ) (vs : List Text)
      → index_of h (to_lower n) ≡ some i
      → rest_values (values_at h.ordered i) ≡ vs
      → Rewrites rest_values n h (drop_or_update h i vs)
  drop_or_update-Rewrites i [] e p k =
      ground (arith, erase_idx-Rewrites i (present e) k, found e, text_eq_iff (to_lower n) k)
  drop_or_update-Rewrites i (v ∷ vs) e p k = update_at-Rewrites rest_values i (present e) k

  pub remove_first-Rewrites : Rewrites rest_values n h (remove_first h n)
  unfolding remove_first
  remove_first-Rewrites = elim (Option-cases (index_of h (to_lower n))) [
    | inl e ↦ rw (e, remove_first) (same-Rewrites rest_values refl (nothing (absent e)))
    | inr (i, e) ↦ rw (e, remove_first) (drop_or_update-Rewrites i _ e refl)
  ]
