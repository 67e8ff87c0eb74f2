-- ===== src/Sip/Headers/Invariant.antt =====
-- The index of pkg/sip/header.go against the slice: each method keeps the two in step.
use funsip.Base.{
  ℕ, ◌≡◌, refl, none, List, [], ◌∷◌, ◌++◌, arith, length, lookup, lookup-insert, ◌≢◌, Bool-cases,
  Option-cases, inl, inr,
}
use funsip.Text.{Text, text_eq_iff, text_keys, to_lower}
use funsip.Sip.Headers.{
  HeaderEntry, Headers, new_headers, index_of, values_at, update_at, rebuild_index, append_entry,
  clone, set, add, prepend, remove, replace_first, remove_first, with_first, is_some_value,
  rest_values, drop_or_update,
}
use funsip.Sip.Headers.Places.{
  position, IsDistinct, position-update_at, update_at-IsDistinct, position-append,
  append-IsDistinct, erase_idx-IsDistinct, lookup-rebuild_from,
}

-- The index finds exactly the place of the entry with the key, no two entries share a key, and no
-- entry is empty.
pub record IsIndexed (h : Headers) : Type 0 where
  pub indexed : (k : Text) → lookup text_keys k h.index ≡ position k h.ordered
  pub distinct : IsDistinct h.ordered

pub new_headers-IsIndexed : IsIndexed new_headers
unfolding new_headers
new_headers-IsIndexed = record { indexed = λ k. refl; distinct = tt }

pub rebuild_index-IsIndexed : (es : List HeaderEntry) → IsDistinct es → IsIndexed (rebuild_index es)
rebuild_index-IsIndexed es d = record {
  indexed = λ k. ground (arith, lookup-rebuild_from k 0 es [] d);
  distinct = d;
}

pub append_entry-IsIndexed :
    (h : Headers) (n v : Text)
    → IsIndexed h
    → position (to_lower n) h.ordered ≡ none
    → IsIndexed (append_entry h n v)
append_entry-IsIndexed h n v w p =
    let e : HeaderEntry = record { name = n; values = v ∷ [] } in
    record {
      indexed = λ k. ground (
        arith,
        w.indexed k,
        position-append k h.ordered e,
        text_eq_iff (to_lower n) k,
        lookup-insert text_keys (to_lower n) k (length h.ordered) h.index,
      );
      distinct = append-IsDistinct h.ordered e p (λ q. cc) w.distinct;
    }

pub update_at-IsIndexed :
    (f : List Text → List Text) (h : Headers) (i : ℕ)
    → f (values_at h.ordered i) ≢ []
    → IsIndexed h
    → IsIndexed (record h { ordered = update_at f i h.ordered })
update_at-IsIndexed f h i keep w = record {
  indexed = λ k. ground (arith, w.indexed k, position-update_at f k i h.ordered);
  distinct = update_at-IsDistinct f i h.ordered keep w.distinct;
}

pub clone-IsIndexed : (h : Headers) → IsIndexed h → IsIndexed (clone h)
unfolding clone
clone-IsIndexed h w = rebuild_index-IsIndexed h.ordered w.distinct

pub set-IsIndexed : (h : Headers) (n v : Text) → IsIndexed h → IsIndexed (set h n v)
unfolding set
set-IsIndexed h n v w = elim (Option-cases (index_of h (to_lower n))) [
  | inl e ↦ rw (e, set) (append_entry-IsIndexed h n v w (ground (arith, w.indexed (to_lower n))))
  | inr (i, e) ↦ rw (e, set) (update_at-IsIndexed (λ vs. v ∷ []) h i (λ q. cc) w)
]

append-ne-nil : (v : Text) (vs : List Text) → vs ++ v ∷ [] ≢ []
append-ne-nil v [] = λ q. cc
append-ne-nil v (x ∷ vs) = λ q. cc

pub add-IsIndexed : (h : Headers) (n v : Text) → IsIndexed h → IsIndexed (add h n v)
unfolding add
add-IsIndexed h n v w = elim (Option-cases (index_of h (to_lower n))) [
  | inl e ↦ rw (e, add) (append_entry-IsIndexed h n v w (ground (arith, w.indexed (to_lower n))))
  | inr (i, e) ↦
      rw (e, add)
        (update_at-IsIndexed (λ vs. vs ++ v ∷ []) h i (append-ne-nil v (values_at h.ordered i)) w)
]

pub prepend-IsIndexed : (h : Headers) (n v : Text) → IsIndexed h → IsIndexed (prepend h n v)
unfolding prepend
prepend-IsIndexed h n v w = elim (Option-cases (index_of h (to_lower n))) [
  | inl e ↦
      rw (e, prepend)
        (rebuild_index-IsIndexed (record { name = n; values = v ∷ [] } ∷ h.ordered)
          (ground (arith, w.indexed (to_lower n)), λ q. cc, w.distinct))
  | inr (i, e) ↦ rw (e, prepend) (update_at-IsIndexed (λ vs. v ∷ vs) h i (λ q. cc) w)
]

pub remove-IsIndexed : (h : Headers) (n : Text) → IsIndexed h → IsIndexed (remove h n)
unfolding remove
remove-IsIndexed h n w = elim (Option-cases (index_of h (to_lower n))) [
  | inl e ↦ rw (e, remove) w
  | inr (i, e) ↦
      rw (e, remove) (rebuild_index-IsIndexed _ (erase_idx-IsDistinct i h.ordered w.distinct))
]

pub replace_first-IsIndexed :
    (h : Headers) (n v : Text) → IsIndexed h → IsIndexed (replace_first h n v).0
unfolding replace_first
replace_first-IsIndexed h n v w = elim (Option-cases (index_of h (to_lower n))) [
  | inl e ↦ rw (e, replace_first) w
  | inr (i, e) ↦ elim (Bool-cases (is_some_value (values_at h.ordered i))) [
    | inl b ↦
        rw (e, replace_first, b) (update_at-IsIndexed (with_first v) h i (λ q. ground arith) w)
    | inr b ↦ rw (e, replace_first, b) w
  ]
]

pub remove_first-IsIndexed : (h : Headers) (n : Text) → IsIndexed h → IsIndexed (remove_first h n)
unfolding remove_first
remove_first-IsIndexed h n w = elim (Option-cases (index_of h (to_lower n))) [
  | inl e ↦ rw (e, remove_first) w
  | inr (i, e) ↦ rw (e, remove_first) (by_rest i (rest_values (values_at h.ordered i)) refl)
]
  where
    by_rest :
        (i : ℕ) (vs : List Text)
        → rest_values (values_at h.ordered i) ≡ vs
        → IsIndexed (drop_or_update h i vs)
    by_rest i [] p = rebuild_index-IsIndexed _ (erase_idx-IsDistinct i h.ordered w.distinct)
    by_rest i (v ∷ vs) p = update_at-IsIndexed rest_values h i (λ q. cc) w
