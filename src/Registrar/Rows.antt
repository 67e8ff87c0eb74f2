-- ===== src/Registrar/Rows.antt =====
-- The table `location` of pkg/store/db.go as a map from address of record and contact to a binding.
use funsip.Base.{
  ◌≡◌, refl, ◌∙◌, sym, Bool, true, ◌&&◌, not, Option, none, some, List, [], ◌∷◌, arith,
  if◌then◌else◌, keep_if, Bool-cases, inl, inr, if-both,
}
use funsip.Text.{Text, text_eq, text_eq_iff}
use funsip.Registrar.Binding.{Binding}
use funsip.Registrar.Table.{is_row, save_row, delete_row}

abbrev pub find_row : Text → Text → List Binding → Option Binding
find_row aor contact [] = none
find_row aor contact (b ∷ rows) = if is_row aor contact b then some b else find_row aor contact rows

row_keys :
    (aor contact : Text) (x : Binding)
    → is_row aor contact x ≡ true
    → (x.aor ≡ aor) × (x.contact ≡ contact)
row_keys aor contact x e =
    ((text_eq_iff x.aor aor).0 (ground arith), (text_eq_iff x.contact contact).0 (ground arith))

is_row-own :
    (aor contact : Text) (x : Binding)
    → x.aor ≡ aor
    → x.contact ≡ contact
    → is_row aor contact x ≡ true
is_row-own aor contact x a c =
    ground (arith, (text_eq_iff x.aor aor).1 a, (text_eq_iff x.contact contact).1 c)

is_row-same :
    (aor contact : Text) (b x : Binding)
    → is_row b.aor b.contact x ≡ true
    → is_row aor contact x ≡ is_row aor contact b
is_row-same aor contact b x e =
    let (same_aor, same_contact) = row_keys b.aor b.contact x e in simp (same_aor, same_contact)

is_row-both :
    (aor contact : Text) (b x : Binding)
    → is_row aor contact b ≡ true
    → is_row aor contact x ≡ true
    → is_row b.aor b.contact x ≡ true
is_row-both aor contact b x e f =
    let (b_aor, b_contact) = row_keys aor contact b e in
    let (x_aor, x_contact) = row_keys aor contact x f in
    is_row-own b.aor b.contact x (x_aor ∙ sym b_aor) (x_contact ∙ sym b_contact)

pub find_row-save_row :
    (aor contact : Text) (b : Binding) (rows : List Binding)
    → find_row aor contact (save_row b rows)
      ≡ (if is_row aor contact b then some b else find_row aor contact rows)
unfolding save_row
find_row-save_row aor contact b [] = refl
find_row-save_row aor contact b (x ∷ rows) = elim (Bool-cases (is_row b.aor b.contact x)) [
  | inl e ↦ simp e (ground (arith, is_row-same aor contact b x e))
  | inr e ↦
      simp e (ground (arith, find_row-save_row aor contact b rows, is_row-both aor contact b x, e))
]

find_row-keep_if :
    (aor contact : Text) (keep : Binding → Bool) (kept : Bool) (rows : List Binding)
    → ((x : Binding) → is_row aor contact x ≡ true → keep x ≡ kept)
    → find_row aor contact (keep_if keep rows) ≡ (if kept then find_row aor contact rows else none)
find_row-keep_if aor contact keep kept [] by_key = if-both (λ o. none ≡ o) kept refl refl
find_row-keep_if aor contact keep kept (x ∷ rows) by_key =
    ground (arith, find_row-keep_if aor contact keep kept rows by_key, by_key x)

pub find_row-delete_row :
    (aor contact a c : Text) (rows : List Binding)
    → find_row a c (delete_row aor contact rows)
      ≡ (if not (text_eq a aor && text_eq c contact) then find_row a c rows else none)
unfolding delete_row
find_row-delete_row aor contact a c rows =
    find_row-keep_if a c (λ b. not (is_row aor contact b)) _ rows
      (λ x e. let (x_aor, x_contact) = row_keys a c x e in simp (x_aor, x_contact))
