-- ===== src/Sip/Headers/Multimap.antt =====
-- pkg/sip/header.go as a multimap: what a name reads after each method. An edit is a call of a method
-- that changes the headers.
use funsip.Base.{
  ◌≡◌, refl, Bool, false, Option, none, some, List, [], ◌∷◌, ◌++◌, arith, if◌then◌else◌,
  Option-cases, inl, inr, fun_ext, ◌∙◌,
}
use funsip.Text.{Text, text_eq, to_lower}
use funsip.Sip.Headers.{
  Headers, new_headers, index_of, get, get_all, first_value, clone, set, add, prepend, remove,
  replace_first, remove_first, with_first, rest_values,
}
use funsip.Sip.Headers.Places.{values_of, values_at-position, values_of-none}
use funsip.Sip.Headers.Rewrites.{
  set-Rewrites, add-Rewrites, prepend-Rewrites, remove-Rewrites, replace_first-Rewrites,
  remove_first-Rewrites,
}
use funsip.Sip.Headers.Invariant.{
  IsIndexed, new_headers-IsIndexed, clone-IsIndexed, set-IsIndexed, add-IsIndexed,
  prepend-IsIndexed, remove-IsIndexed, replace_first-IsIndexed, remove_first-IsIndexed,
}

pub data Edit : Type 0 where
  sets : Text → Text → Edit
  adds : Text → Text → Edit
  prepends : Text → Text → Edit
  removes : Text → Edit
  replaces : Text → Text → Edit
  drops : Text → Edit
  clones : Edit

unfoldable pub apply : Headers → Edit → Headers
apply h (sets n v) = set h n v
apply h (adds n v) = add h n v
apply h (prepends n v) = prepend h n v
apply h (removes n) = remove h n
apply h (replaces n v) = (replace_first h n v).0
apply h (drops n) = remove_first h n
apply h clones = clone h

unfoldable pub apply_all : Headers → List Edit → Headers
apply_all h [] = h
apply_all h (c ∷ cs) = apply_all (apply h c) cs

-- The name an edit is about, and what it makes of that name's values.
abbrev pub edited : Edit → Option Text
edited (sets n v) = some n
edited (adds n v) = some n
edited (prepends n v) = some n
edited (removes n) = some n
edited (replaces n v) = some n
edited (drops n) = some n
edited clones = none

abbrev pub edit_values : Edit → List Text → List Text
edit_values (sets n v) vs = v ∷ []
edit_values (adds n v) vs = vs ++ v ∷ []
edit_values (prepends n v) vs = v ∷ vs
edit_values (removes n) vs = []
edit_values (replaces n v) vs = with_first v vs
edit_values (drops n) vs = rest_values vs
edit_values clones vs = vs

-- The abstract headers: for each name its values, in order. Letter case does not matter.
abbrev pub Multimap : Type 0
Multimap = Text → List Text

abbrev has_key : Option Text → Text → Bool
has_key none k = false
has_key (some n) k = text_eq (to_lower n) k

abbrev pub edit_map : Edit → Multimap → Multimap
edit_map c f m = if has_key (edited c) (to_lower m) then edit_values c (f m) else f m

abbrev pub edit_map_all : List Edit → Multimap → Multimap
edit_map_all [] f = f
edit_map_all (c ∷ cs) f = edit_map_all cs (edit_map c f)

get_all-values_of :
    (h : Headers) (m : Text) → IsIndexed h → get_all h m ≡ values_of (to_lower m) h.ordered
unfolding get_all
get_all-values_of h m w = elim (Option-cases (index_of h (to_lower m))) [
  | inl e ↦
      rw (e, get_all)
        (ground (arith, w.indexed (to_lower m), values_of-none (to_lower m) h.ordered))
  | inr (i, e) ↦
      rw (e, get_all)
        (values_at-position (to_lower m) h.ordered i (ground (arith, w.indexed (to_lower m))))
]

-- Every edit keeps the index exact, the entries' names distinct without regard to case, and no entry
-- empty.
apply-IsIndexed : (h : Headers) (c : Edit) → IsIndexed h → IsIndexed (apply h c)
unfolding apply
apply-IsIndexed h (sets n v) w = set-IsIndexed h n v w
apply-IsIndexed h (adds n v) w = add-IsIndexed h n v w
apply-IsIndexed h (prepends n v) w = prepend-IsIndexed h n v w
apply-IsIndexed h (removes n) w = remove-IsIndexed h n w
apply-IsIndexed h (replaces n v) w = replace_first-IsIndexed h n v w
apply-IsIndexed h (drops n) w = remove_first-IsIndexed h n w
apply-IsIndexed h clones w = clone-IsIndexed h w

values_of-apply :
    (h : Headers) (c : Edit)
    → IsIndexed h
    → (k : Text)
    → values_of k (apply h c).ordered ≡ (
        if has_key (edited c) k
        then edit_values c (values_of k h.ordered)
        else values_of k h.ordered)
unfolding apply clone
values_of-apply h (sets n v) w = set-Rewrites h n w v
values_of-apply h (adds n v) w = add-Rewrites h n w v
values_of-apply h (prepends n v) w = prepend-Rewrites h n w v
values_of-apply h (removes n) w = remove-Rewrites h n w
values_of-apply h (replaces n v) w = replace_first-Rewrites h n w v
values_of-apply h (drops n) w = remove_first-Rewrites h n w
values_of-apply h clones w = λ k. refl

-- For headers whose index is exact, every edit changes what `GetAll` returns just as the multimap
-- prescribes: under the name that it is about, in any letter case, `Set` leaves the new value alone,
-- `Add` puts it last, `Prepend` first, `Remove` leaves nothing, `ReplaceFirst` replaces the first value
-- where there is one and `RemoveFirst` takes it away; under all other names, and after `Clone`, what
-- is read is what was read before.
pub get_all-apply :
    (h : Headers) (c : Edit) (m : Text)
    → IsIndexed h
    → get_all (apply h c) m ≡ edit_map c (get_all h) m
get_all-apply h c m w = ground (
  arith,
  get_all-values_of (apply h c) m (apply-IsIndexed h c w),
  get_all-values_of h m w,
  values_of-apply h c w (to_lower m),
)

edit_map_all-ext :
    (cs : List Edit) (f g : Multimap)
    → ((m : Text) → f m ≡ g m)
    → (m : Text) → edit_map_all cs f m ≡ edit_map_all cs g m
edit_map_all-ext cs f g h m = rw (fun_ext h)

get_all-apply_all :
    (h : Headers) (cs : List Edit) (m : Text)
    → IsIndexed h
    → get_all (apply_all h cs) m ≡ edit_map_all cs (get_all h) m
unfolding apply_all
get_all-apply_all h [] m w = refl
get_all-apply_all h (c ∷ cs) m w =
    get_all-apply_all (apply h c) cs m (apply-IsIndexed h c w)
    ∙ edit_map_all-ext cs _ _ (λ k. get_all-apply h c k w) m

-- From `NewHeaders` on, after any history of edits `GetAll` returns for every name what the same
-- history makes of the empty multimap.
pub get_all-history :
    (cs : List Edit) (m : Text) → get_all (apply_all new_headers cs) m ≡ edit_map_all cs (λ _. []) m
get_all-history cs m =
    get_all-apply_all new_headers cs m new_headers-IsIndexed
    ∙ edit_map_all-ext cs _ _ (λ k. get_all-values_of new_headers k new_headers-IsIndexed ∙ empty k)
        m
  where
    empty : (k : Text) → values_of (to_lower k) new_headers.ordered ≡ []
    empty k = unfold new_headers in refl

-- `Get` is the first value of `GetAll`, and the empty text where there is none.
pub get-first_value : (h : Headers) (n : Text) → get h n ≡ first_value (get_all h n)
unfolding get get_all
get-first_value h n = ground arith
