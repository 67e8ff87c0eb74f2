-- ===== src/Registrar/Table.antt =====
-- The table `location` of pkg/store/db.go as a list of rows: what its SQL statements do where the
-- database does not fail. The pair of address of record and contact is the table's key.
use funsip.Base.{ℕ, Bool, ◌&&◌, not, some, List, [], ◌∷◌, if◌then◌else◌, keep_if}
use funsip.Base.Int.{gt_const}
use funsip.Text.{Text, text_eq}
use funsip.Registrar.Binding.{Binding}
use funsip.Registrar.Register.{BindingStore}

abbrev pub is_row : Text → Text → Binding → Bool
is_row aor contact b = text_eq b.aor aor && text_eq b.contact contact

-- INSERT … ON CONFLICT(aor, contact) DO UPDATE
unfoldable pub save_row : Binding → List Binding → List Binding
save_row b [] = b ∷ []
save_row b (c ∷ rows) = if is_row b.aor b.contact c then b ∷ rows else c ∷ save_row b rows

-- `expires_at > now`
abbrev pub is_current : ℕ → Binding → Bool
is_current now b = gt_const b.expires_at now

unfoldable pub select_rows : Text → ℕ → List Binding → List Binding
select_rows aor now rows = keep_if (λ b. text_eq b.aor aor && is_current now b) rows

unfoldable pub delete_row : Text → Text → List Binding → List Binding
delete_row aor contact rows = keep_if (λ b. not (is_row aor contact b)) rows

unfoldable pub delete_rows : Text → List Binding → List Binding
delete_rows aor rows = keep_if (λ b. not (text_eq b.aor aor)) rows

unfoldable pub expire_rows : ℕ → List Binding → List Binding × List Binding
expire_rows now rows = (keep_if (λ b. not (is_current now b)) rows, keep_if (is_current now) rows)

abbrev pub table : BindingStore (List Binding)
table = record {
  lookup_bindings = λ aor now rows. some (select_rows aor now rows);
  save_binding = λ b rows. some (save_row b rows);
  delete_binding = λ aor contact rows. some (delete_row aor contact rows);
  delete_all_bindings = λ aor rows. some (delete_rows aor rows);
  expire_bindings = λ now rows. (some (expire_rows now rows).0, (expire_rows now rows).1);
}
