-- ===== src/Base/Lists.antt =====
-- Lists measured and indexed by native numbers, under the library's names.
use Prim.Native.Nat.{ℕ, zero, suc, ◌+◌, ◌≤◌, ◌<◌}
use mathlib.Core.Path.{◌≡◌, refl, ap, subst}
use mathlib.Core.Logic.{◌⊎◌, inl, inr}
use mathlib.Core.Bool.{Bool, true, false}
use mathlib.Core.List.{List, [], ◌∷◌, ◌++◌}
use mathlib.Core.Option.{Option, none, some, some-injective}
use native.Mathlib.Omega.{arith}
use package.funsip.Base.Tests.{◌==◌, if◌then◌else◌}

module _ {ℓ} {A : Type ℓ} where
  abbrev pub length : List A → ℕ
  length [] = 0
  length (x ∷ xs) = suc (length xs)

  abbrev pub get_elem? : List A → ℕ → Option A
  get_elem? [] i = none
  get_elem? (x ∷ xs) zero = some x
  get_elem? (x ∷ xs) (suc i) = get_elem? xs i

  -- A write out of bounds changes nothing.
  abbrev pub set : List A → ℕ → A → List A
  set [] i v = []
  set (x ∷ xs) zero v = v ∷ xs
  set (x ∷ xs) (suc i) v = x ∷ set xs i v

  -- The element at a place, replaced by its image.
  abbrev pub update : (A → A) → ℕ → List A → List A
  update f i [] = []
  update f zero (x ∷ xs) = f x ∷ xs
  update f (suc i) (x ∷ xs) = x ∷ update f i xs

  -- `append(l[:i], l[i+1:]...)`
  abbrev pub erase_idx : List A → ℕ → List A
  erase_idx [] i = []
  erase_idx (x ∷ xs) zero = xs
  erase_idx (x ∷ xs) (suc i) = x ∷ erase_idx xs i

  abbrev pub keep_if : (A → Bool) → List A → List A
  keep_if p [] = []
  keep_if p (x ∷ xs) = if p x then x ∷ keep_if p xs else keep_if p xs

  abbrev pub All {κ} : (A → Type κ) → List A → Type κ
  All holds [] = Unit
  All holds (first ∷ rest) = holds first × All holds rest

  pub length-append : (xs ys : List A) → length (xs ++ ys) ≡ length xs + length ys
  length-append [] ys = omega arith
  length-append (x ∷ xs) ys = omega (arith, length-append xs ys)

  pub length-keep_if-le : (p : A → Bool) (xs : List A) → length (keep_if p xs) ≤ length xs
  length-keep_if-le p [] = omega arith
  length-keep_if-le p (x ∷ xs) = ground (arith, length-keep_if-le p xs)

  pub keep_if-All : (p : A → Bool) (xs : List A) → All (λ x. p x ≡ true) (keep_if p xs)
  keep_if-All p [] = tt
  keep_if-All p (x ∷ xs) = ground (arith, keep_if-All p xs)

  pub length-update : (f : A → A) (i : ℕ) (xs : List A) → length (update f i xs) ≡ length xs
  length-update f i [] = omega arith
  length-update f zero (x ∷ xs) = omega arith
  length-update f (suc i) (x ∷ xs) = omega (arith, length-update f i xs)

  pub length-erase_idx :
      (xs : List A) (i : ℕ) (a : A)
      → get_elem? xs i ≡ some a
      → length xs ≡ suc (length (erase_idx xs i))
  length-erase_idx [] i a h = ground arith
  length-erase_idx (x ∷ xs) zero a h = omega arith
  length-erase_idx (x ∷ xs) (suc i) a h = omega (arith, length-erase_idx xs i a h)

  pub All-snoc {κ} :
      (P : A → Type κ) {last : A} (xs : List A) → P last → All P xs → All P (xs ++ last ∷ [])
  All-snoc P [] p h = (p, tt)
  All-snoc P (x ∷ xs) p h = (h.0, All-snoc P xs p h.1)

  pub All-get_elem? {κ} :
      (P : A → Type κ) (xs : List A) (i : ℕ) (x : A) → All P xs → get_elem? xs i ≡ some x → P x
  All-get_elem? P [] i x h e = absurd cc
  All-get_elem? P (y ∷ xs) zero x h e = subst P (some-injective y x e) h.0
  All-get_elem? P (y ∷ xs) (suc i) x h e = All-get_elem? P xs i x h.1 e

  pub All-update {κ} :
      (P : A → Type κ) (f : A → A) (i : ℕ) (xs : List A)
      → ((x : A) → P x → P (f x))
      → All P xs
      → All P (update f i xs)
  All-update P f i [] keeps h = tt
  All-update P f zero (x ∷ xs) keeps h = (keeps x h.0, h.1)
  All-update P f (suc i) (x ∷ xs) keeps h = (h.0, All-update P f i xs keeps h.1)

  pub All-join {κ} :
      (P : A → Type κ) (xs rest : List A) → All P xs → All P rest → All P (xs ++ rest)
  All-join P [] rest none_left r = r
  All-join P (x ∷ xs) rest h r = (h.0, All-join P xs rest h.1 r)

  pub get_elem?-lt : (xs : List A) (i : ℕ) (a : A) → get_elem? xs i ≡ some a → i < length xs
  get_elem?-lt [] i a h = ground arith
  get_elem?-lt (x ∷ xs) zero a h = omega arith
  get_elem?-lt (x ∷ xs) (suc i) a h = omega (arith, get_elem?-lt xs i a h)

  pub get_elem?-append :
      (xs ys : List A) (i : ℕ) (a : A) → get_elem? xs i ≡ some a → get_elem? (xs ++ ys) i ≡ some a
  get_elem?-append [] ys i a h = ground arith
  get_elem?-append (x ∷ xs) ys zero a h = h
  get_elem?-append (x ∷ xs) ys (suc i) a h = get_elem?-append xs ys i a h

  pub get_elem?-last : (xs : List A) (a : A) → get_elem? (xs ++ a ∷ []) (length xs) ≡ some a
  get_elem?-last [] a = refl
  get_elem?-last (x ∷ xs) a = get_elem?-last xs a

  pub get_elem?-update :
      (f : A → A) (i j : ℕ) (xs : List A) (a : A)
      → get_elem? xs j ≡ some a
      → get_elem? (update f i xs) j ≡ some (if i == j then f a else a)
  get_elem?-update f i j [] a h = ground arith
  get_elem?-update f zero zero (x ∷ xs) a h = ground arith
  get_elem?-update f zero (suc j) (x ∷ xs) a h = ground arith
  get_elem?-update f (suc i) zero (x ∷ xs) a h = ground arith
  get_elem?-update f (suc i) (suc j) (x ∷ xs) a h = ground (arith, get_elem?-update f i j xs a h)

  pub get_elem?-update_same :
      (f : A → A) (i : ℕ) (xs : List A) (a : A)
      → get_elem? xs i ≡ some a
      → get_elem? (update f i xs) i ≡ some (f a)
  get_elem?-update_same f i xs a h = ground (arith, get_elem?-update f i i xs a h)

  pub get_elem?-update_other :
      (f : A → A) (i j : ℕ) (xs : List A) (a : A)
      → (i == j) ≡ false
      → get_elem? xs j ≡ some a
      → get_elem? (update f i xs) j ≡ some a
  get_elem?-update_other f i j xs a other h = ground (arith, get_elem?-update f i j xs a h)

  -- What an element added at the end brings.
  pub get_elem?-snoc :
      (xs : List A) (last : A) (i : ℕ) (a : A)
      → get_elem? (xs ++ last ∷ []) i ≡ some a
      → (get_elem? xs i ≡ some a) ⊎ ((i ≡ length xs) × (a ≡ last))
  get_elem?-snoc [] last zero a h = inr (refl, ground arith)
  get_elem?-snoc [] last (suc i) a h = ground arith
  get_elem?-snoc (x ∷ xs) last zero a h = inl h
  get_elem?-snoc (x ∷ xs) last (suc i) a h = ground (arith, get_elem?-snoc xs last i a h)

  -- What stands in an updated list at a place.
  pub get_elem?-update_inv :
      (f : A → A) (i j : ℕ) (xs : List A) (a : A)
      → get_elem? (update f i xs) j ≡ some a
      → ((i == j) ≡ false) × (get_elem? xs j ≡ some a)
        ⊎ ((i ≡ j) × ((b : A) × ((get_elem? xs j ≡ some b) × (a ≡ f b))))
  get_elem?-update_inv f i j [] a h = ground arith
  get_elem?-update_inv f zero zero (x ∷ xs) a h = inr (refl, (x, (refl, ground arith)))
  get_elem?-update_inv f zero (suc j) (x ∷ xs) a h = inl (ground arith, h)
  get_elem?-update_inv f (suc i) zero (x ∷ xs) a h = inl (ground arith, h)
  get_elem?-update_inv f (suc i) (suc j) (x ∷ xs) a h = elim (get_elem?-update_inv f i j xs a h) [
    | inl (n, e) ↦ inl (ground (arith, n), e)
    | inr (e, r) ↦ inr (ap suc e, r)
  ]

  pub get_elem?-update_rest :
      (f : A → A) (i j : ℕ) (xs : List A)
      → (i == j) ≡ false
      → get_elem? (update f i xs) j ≡ get_elem? xs j
  get_elem?-update_rest f i j [] other = refl
  get_elem?-update_rest f zero zero (x ∷ xs) other = ground arith
  get_elem?-update_rest f zero (suc j) (x ∷ xs) other = refl
  get_elem?-update_rest f (suc i) zero (x ∷ xs) other = refl
  get_elem?-update_rest f (suc i) (suc j) (x ∷ xs) other =
      get_elem?-update_rest f i j xs (ground arith)
