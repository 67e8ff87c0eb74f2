-- ===== src/Sip/Headers/Places.antt =====
-- Where a name stands among the entries, and how the operations on the slice move it.
use funsip.Base.{
  ℕ, zero, suc, ◌+◌, ◌<◌, ◌≡◌, refl, Bool, Option, none, some, List, [], ◌∷◌, ◌++◌, arith, length,
  erase_idx, lookup, insert, lookup-insert, if◌then◌else◌, ◌≢◌,
}
use funsip.Text.{Text, text_eq, text_eq_iff, text_keys}
use funsip.Sip.Headers.{HeaderEntry, entry_key, values_at, update_at, rebuild_from}

abbrev pub next_place : Option ℕ → Option ℕ
next_place none = none
next_place (some i) = some (suc i)

-- The place of the first entry with this key.
abbrev pub position : Text → List HeaderEntry → Option ℕ
position k [] = none
position k (e ∷ es) = if text_eq (entry_key e) k then some 0 else next_place (position k es)

-- The values of the first entry with this key.
abbrev pub values_of : Text → List HeaderEntry → List Text
values_of k [] = []
values_of k (e ∷ es) = if text_eq (entry_key e) k then e.values else values_of k es

-- No two entries have one key, and none is without a value.
abbrev pub IsDistinct : List HeaderEntry → Type 0
IsDistinct [] = Unit
IsDistinct (e ∷ es) = (position (entry_key e) es ≡ none) × (e.values ≢ []) × IsDistinct es

pub values_at-position :
    (k : Text) (es : List HeaderEntry) (i : ℕ)
    → position k es ≡ some i
    → values_at es i ≡ values_of k es
values_at-position k [] i p = cc
values_at-position k (e ∷ es) zero p = ground arith
values_at-position k (e ∷ es) (suc i) p = ground (arith, values_at-position k es i)

pub values_of-none : (k : Text) (es : List HeaderEntry) → position k es ≡ none → values_of k es ≡ []
values_of-none k [] p = refl
values_of-none k (e ∷ es) p = ground (arith, values_of-none k es)

pub position-lt-length :
    (k : Text) (es : List HeaderEntry) (i : ℕ) → position k es ≡ some i → i < length es
position-lt-length k [] i p = cc
position-lt-length k (e ∷ es) zero p = ground arith
position-lt-length k (e ∷ es) (suc i) p = ground (arith, position-lt-length k es i)

pub position-update_at :
    (f : List Text → List Text) (k : Text) (i : ℕ) (es : List HeaderEntry)
    → position k (update_at f i es) ≡ position k es
position-update_at f k i [] = refl
position-update_at f k zero (e ∷ es) = refl
position-update_at f k (suc i) (e ∷ es) = ground (arith, position-update_at f k i es)

pub values_of-update_at :
    (f : List Text → List Text) (k j : Text) (i : ℕ) (es : List HeaderEntry)
    → position k es ≡ some i
    → values_of j (update_at f i es) ≡ (if text_eq k j then f (values_of k es) else values_of j es)
values_of-update_at f k j i [] p = cc
values_of-update_at f k j zero (e ∷ es) p =
    ground (arith, text_eq_iff (entry_key e) k, text_eq_iff (entry_key e) j, text_eq_iff k j)
values_of-update_at f k j (suc i) (e ∷ es) p = ground (
  arith,
  text_eq_iff (entry_key e) k,
  text_eq_iff (entry_key e) j,
  text_eq_iff k j,
  values_of-update_at f k j i es,
)

pub update_at-IsDistinct :
    (f : List Text → List Text) (i : ℕ) (es : List HeaderEntry)
    → f (values_at es i) ≢ []
    → IsDistinct es
    → IsDistinct (update_at f i es)
update_at-IsDistinct f i [] keep d = tt
update_at-IsDistinct f zero (e ∷ es) keep (p, v, d) = (p, keep, d)
update_at-IsDistinct f (suc i) (e ∷ es) keep (p, v, d) =
    (ground (arith, position-update_at f (entry_key e) i es), v, update_at-IsDistinct f i es keep d)

-- Behind the entries there is one more place.
abbrev pub or_last : Bool → ℕ → Option ℕ → Option ℕ
or_last here n none = if here then some n else none
or_last here n (some i) = some i

pub position-append :
    (k : Text) (es : List HeaderEntry) (e : HeaderEntry)
    → position k (es ++ e ∷ []) ≡ or_last (text_eq (entry_key e) k) (length es) (position k es)
position-append k [] e = ground arith
position-append k (d ∷ es) e = ground (arith, position-append k es e)

pub values_of-append :
    (k : Text) (es : List HeaderEntry) (e : HeaderEntry)
    → position (entry_key e) es ≡ none
    → values_of k (es ++ e ∷ []) ≡ (if text_eq (entry_key e) k then e.values else values_of k es)
values_of-append k [] e p = refl
values_of-append k (d ∷ es) e p = ground (
  arith,
  text_eq_iff (entry_key d) k,
  text_eq_iff (entry_key e) k,
  text_eq_iff (entry_key d) (entry_key e),
  values_of-append k es e,
)

pub append-IsDistinct :
    (es : List HeaderEntry) (e : HeaderEntry)
    → position (entry_key e) es ≡ none
    → e.values ≢ []
    → IsDistinct es
    → IsDistinct (es ++ e ∷ [])
append-IsDistinct [] e p v d = (refl, v, tt)
append-IsDistinct (c ∷ es) e p v (q, w, d) = (
  ground (
    arith,
    position-append (entry_key c) es e,
    text_eq_iff (entry_key e) (entry_key c),
    text_eq_iff (entry_key c) (entry_key e),
  ),
  w,
  append-IsDistinct es e (ground arith) v d,
)

pub position-erase_idx :
    (k j : Text) (i : ℕ) (es : List HeaderEntry)
    → position k es ≡ none
    → position k (erase_idx es i) ≡ none
position-erase_idx k j i [] p = refl
position-erase_idx k j zero (e ∷ es) p = ground arith
position-erase_idx k j (suc i) (e ∷ es) p = ground (arith, position-erase_idx k j i es)

pub erase_idx-IsDistinct :
    (i : ℕ) (es : List HeaderEntry) → IsDistinct es → IsDistinct (erase_idx es i)
erase_idx-IsDistinct i [] d = tt
erase_idx-IsDistinct zero (e ∷ es) (p, v, d) = d
erase_idx-IsDistinct (suc i) (e ∷ es) (p, v, d) =
    (position-erase_idx (entry_key e) (entry_key e) i es p, v, erase_idx-IsDistinct i es d)

pub values_of-erase_idx :
    (k j : Text) (i : ℕ) (es : List HeaderEntry)
    → IsDistinct es
    → position k es ≡ some i
    → values_of j (erase_idx es i) ≡ (if text_eq k j then [] else values_of j es)
values_of-erase_idx k j i [] d p = cc
values_of-erase_idx k j zero (e ∷ es) (q, v, d) p = ground (
  arith,
  text_eq_iff (entry_key e) k,
  text_eq_iff (entry_key e) j,
  text_eq_iff k j,
  values_of-none (entry_key e) es q,
)
values_of-erase_idx k j (suc i) (e ∷ es) (q, v, d) p = ground (
  arith,
  text_eq_iff (entry_key e) k,
  text_eq_iff (entry_key e) j,
  text_eq_iff k j,
  values_of-erase_idx k j i es d,
)

-- What the map holds after the loop of `rebuildIndex` from place `i` on.
abbrev pub place_from : ℕ → Option ℕ → Option ℕ → Option ℕ
place_from i none old = old
place_from i (some j) old = some (i + j)

pub lookup-rebuild_from :
    (k : Text) (i : ℕ) (es : List HeaderEntry) (m : List (Text × ℕ))
    → IsDistinct es
    → lookup text_keys k (rebuild_from i es m) ≡ place_from i (position k es) (lookup text_keys k m)
lookup-rebuild_from k i [] m d = refl
lookup-rebuild_from k i (e ∷ es) m (q, v, d) = ground (
  arith,
  lookup-rebuild_from k (suc i) es (insert text_keys (entry_key e) i m) d,
  lookup-insert text_keys (entry_key e) k i m,
  text_eq_iff (entry_key e) k,
)
