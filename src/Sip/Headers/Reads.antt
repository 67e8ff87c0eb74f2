-- ===== src/Sip/Headers/Reads.antt =====
-- What GetAll of pkg/sip/header.go reads behind one other method.
use funsip.Base.{◌≡◌, ◌∙◌, refl, [], ◌∷◌, if◌then◌else◌}
use funsip.Text.{Text, text_eq, text_eq_iff, to_lower}
use funsip.Sip.Headers.{Headers, get_all, prepend, remove, remove_first, rest_values, clone}
use funsip.Sip.Headers.Invariant.{IsIndexed}
use funsip.Sip.Headers.Multimap.{apply, prepends, removes, drops, clones, get_all-apply}

pub get_all-prepend :
    (h : Headers) (n v m : Text)
    → IsIndexed h
    → get_all (prepend h n v) m
      ≡ (if text_eq (to_lower n) (to_lower m) then v ∷ get_all h m else get_all h m)
get_all-prepend h n v m w = unfold apply in get_all-apply h (prepends n v) m w

pub get_all-remove :
    (h : Headers) (n m : Text)
    → IsIndexed h
    → get_all (remove h n) m ≡ (if text_eq (to_lower n) (to_lower m) then [] else get_all h m)
get_all-remove h n m w = unfold apply in get_all-apply h (removes n) m w

pub get_all-clone : (h : Headers) (m : Text) → IsIndexed h → get_all (clone h) m ≡ get_all h m
get_all-clone h m w = unfold apply in get_all-apply h clones m w

pub get_all-remove_first :
    (h : Headers) (n : Text)
    → IsIndexed h
    → get_all (remove_first h n) n ≡ rest_values (get_all h n)
get_all-remove_first h n v =
    unfold apply in get_all-apply h (drops n) n v ∙ rw (text_eq_iff _ _).1 refl
