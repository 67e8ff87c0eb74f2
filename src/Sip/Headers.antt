-- ===== src/Sip/Headers.antt =====
-- type Headers of pkg/sip/header.go: header entries in order of arrival, with an index from the
-- lower-case name to the entry's place. An index out of range, where Go panics, reads as no value;
-- `Headers.Invariant` excludes it. `GetAll` hands out a slice that later calls may change in place; the
-- model hands out its value at the time of the call.
pub mod Places
pub mod Invariant
pub mod Rewrites
pub mod Multimap
pub mod Reads
use funsip.Base.{
  ℕ, zero, suc, ◌+◌, ◌==◌, Bool, true, false, Option, none, some, List, [], ◌∷◌, ◌++◌, length,
  get_elem?, erase_idx, lookup, insert, if◌then◌else◌,
}
use funsip.Text.{Text, text_keys, to_lower}

pub record HeaderEntry : Type 0 where
  pub name : Text
  pub values : List Text

pub record Headers : Type 0 where
  pub ordered : List HeaderEntry
  pub index : List (Text × ℕ)

unfoldable pub new_headers : Headers
new_headers = record { ordered = []; index = [] }

abbrev pub entry_key : HeaderEntry → Text
entry_key e = to_lower e.name

-- The index that `key` has in the map.
abbrev pub index_of : Headers → Text → Option ℕ
index_of h key = lookup text_keys key h.index

abbrev pub values_at : List HeaderEntry → ℕ → List Text
values_at [] i = []
values_at (e ∷ es) zero = e.values
values_at (e ∷ es) (suc i) = values_at es i

-- `h.ordered[idx].values = f(h.ordered[idx].values)`
abbrev pub update_at : (List Text → List Text) → ℕ → List HeaderEntry → List HeaderEntry
update_at f i [] = []
update_at f zero (e ∷ es) = record e { values = f e.values } ∷ es
update_at f (suc i) (e ∷ es) = e ∷ update_at f i es

abbrev pub rebuild_from : ℕ → List HeaderEntry → List (Text × ℕ) → List (Text × ℕ)
rebuild_from i [] m = m
rebuild_from i (e ∷ es) m = rebuild_from (suc i) es (insert text_keys (entry_key e) i m)

abbrev pub rebuild_index : List HeaderEntry → Headers
rebuild_index es = record { ordered = es; index = rebuild_from 0 es [] }

-- `Clone` writes each entry's index as it appends the entry.
unfoldable pub clone : Headers → Headers
clone h = rebuild_index h.ordered

abbrev repeat_name : Text → List Text → List Text → List Text
repeat_name n [] rest = rest
repeat_name n (v ∷ vs) rest = n ∷ repeat_name n vs rest

abbrev names_from : List HeaderEntry → List Text
names_from [] = []
names_from (e ∷ es) = repeat_name e.name e.values (names_from es)

unfoldable pub names : Headers → List Text
names h = names_from h.ordered

abbrev pub first_value : List Text → Text
first_value [] = []
first_value (v ∷ vs) = v

unfoldable pub get : Headers → Text → Text
get h name = elim (index_of h (to_lower name)) [
  | none ↦ []
  | some i ↦ first_value (values_at h.ordered i)
]

unfoldable pub get_all : Headers → Text → List Text
get_all h name = elim (index_of h (to_lower name)) [ none ↦ [] | some i ↦ values_at h.ordered i ]

-- A new entry at the end, with its index.
abbrev pub append_entry : Headers → Text → Text → Headers
append_entry h name value = record {
  ordered = h.ordered ++ record { name = name; values = value ∷ [] } ∷ [];
  index = insert text_keys (to_lower name) (length h.ordered) h.index;
}

unfoldable pub set : Headers → Text → Text → Headers
set h name value = elim (index_of h (to_lower name)) [
  | none ↦ append_entry h name value
  | some i ↦ record h { ordered = update_at (λ vs. value ∷ []) i h.ordered }
]

unfoldable pub add : Headers → Text → Text → Headers
add h name value = elim (index_of h (to_lower name)) [
  | none ↦ append_entry h name value
  | some i ↦ record h { ordered = update_at (λ vs. vs ++ value ∷ []) i h.ordered }
]

unfoldable pub prepend : Headers → Text → Text → Headers
prepend h name value = elim (index_of h (to_lower name)) [
  | none ↦ rebuild_index (record { name = name; values = value ∷ [] } ∷ h.ordered)
  | some i ↦ record h { ordered = update_at (λ vs. value ∷ vs) i h.ordered }
]

unfoldable pub remove : Headers → Text → Headers
remove h name = elim (index_of h (to_lower name)) [
  | none ↦ h
  | some i ↦ rebuild_index (erase_idx h.ordered i)
]

abbrev pub with_first : Text → List Text → List Text
with_first value [] = []
with_first value (v ∷ vs) = value ∷ vs

abbrev pub is_some_value : List Text → Bool
is_some_value [] = false
is_some_value (v ∷ vs) = true

-- The result is the Boolean that the method returns.
unfoldable pub replace_first : Headers → Text → Text → Headers × Bool
replace_first h name value = elim (index_of h (to_lower name)) [
  | none ↦ (h, false)
  | some i ↦
      if is_some_value (values_at h.ordered i)
      then (record h { ordered = update_at (with_first value) i h.ordered }, true)
      else (h, false)
]

abbrev pub rest_values : List Text → List Text
rest_values [] = []
rest_values (v ∷ vs) = vs

-- What `RemoveFirst` does at place `i`, given the values behind the first one.
abbrev pub drop_or_update : Headers → ℕ → List Text → Headers
drop_or_update h i [] = rebuild_index (erase_idx h.ordered i)
drop_or_update h i (v ∷ vs) = record h { ordered = update_at rest_values i h.ordered }

unfoldable pub remove_first : Headers → Text → Headers
remove_first h name = elim (index_of h (to_lower name)) [
  | none ↦ h
  | some i ↦ drop_or_update h i (rest_values (values_at h.ordered i))
]
