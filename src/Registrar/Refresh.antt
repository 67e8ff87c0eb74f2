-- ===== src/Registrar/Refresh.antt =====
-- ProcessRegister of pkg/registrar/registrar.go over the table of pkg/store/db.go.
use funsip.Base.{
  ℕ, suc, ◌+◌, ◌≤◌, ◌==◌, ◌≡◌, refl, ◌∙◌, sym, ap, false, ◌&&◌, not, none, some, List, [], ◌∷◌,
  ◌++◌, arith, if◌then◌else◌,
}
use mathlib.Core.List.{append_assoc, append-nil}
use funsip.Base.Int.{ℤ, pos}
use funsip.Text.{Text, text_eq, lit, to_lower}
use funsip.Sip.Headers.{get_all, add}
use funsip.Sip.Headers.Invariant.{IsIndexed, add-IsIndexed}
use funsip.Sip.Uri.{aor, uri_text}
use funsip.Sip.Address.{Address}
use funsip.Sip.Message.{Message, create_response, to_address, contacts, cseq_num}
use funsip.Sip.Message.Responses.{create_response-IsIndexed, get_all-add, response_values}
use funsip.Registrar.Binding.{Binding}
use funsip.Registrar.Register.{
  get_expires, contact_expires, duration, new_binding, contact_value, list_bindings, Registrar,
  reg_new, reg_del, goes_on, register_contact, query_bindings, process_register,
}
use funsip.Registrar.Table.{select_rows, save_row, delete_row, table, is_row}
use funsip.Registrar.Rows.{find_row, find_row-save_row, find_row-delete_row}

list_bindings-status :
    (now : ℕ) (bs : List Binding) (resp : Message)
    → (list_bindings now bs resp).status_code ≡ resp.status_code
list_bindings-status now [] resp = refl
list_bindings-status now (b ∷ bs) resp = list_bindings-status now bs _

-- One value for each binding.
abbrev pub contact_values : ℕ → List Binding → List Text
contact_values now [] = []
contact_values now (b ∷ bs) = contact_value now b ∷ contact_values now bs

get_all-list_bindings :
    (now : ℕ) (bs : List Binding) (resp : Message)
    → IsIndexed resp.headers
    → get_all (list_bindings now bs resp).headers (lit "Contact")
      ≡ get_all resp.headers (lit "Contact") ++ contact_values now bs
unfolding to_lower
get_all-list_bindings now [] resp w = sym (append-nil (get_all resp.headers (lit "Contact")))
get_all-list_bindings now (b ∷ bs) resp w =
    let v = contact_value now b in
    get_all-list_bindings now bs (record resp { headers = add resp.headers (lit "Contact") v })
      (add-IsIndexed resp.headers (lit "Contact") v w)
    ∙ ap (λ vs. vs ++ contact_values now bs)
        (get_all-add resp.headers (lit "Contact") v (lit "Contact") w)
    ∙ append_assoc (get_all resp.headers (lit "Contact")) (v ∷ []) (contact_values now bs)

-- The response to a REGISTER that the table answers has one Contact for each current binding of the
-- address of record, in the table's order, and no other.
query_lists_current :
    (req : Message) (user : Text) (now : ℕ) (r : Registrar table)
    → let resp = query_bindings table req user now r in
      (resp.status_code ≡ pos 200)
      × (get_all resp.headers (lit "Contact") ≡ contact_values now (select_rows user now r.db))
unfolding query_bindings create_response to_lower
query_lists_current req user now r =
    let ok = create_response req (pos 200) (lit "OK") in
    let rows = select_rows user now r.db in
    (
      list_bindings-status now rows ok,
      get_all-list_bindings now rows ok (create_response-IsIndexed req (pos 200) (lit "OK"))
          ∙ ap (λ vs. vs ++ contact_values now rows)
              (response_values req (lit "Contact") (pos 200) (lit "OK")),
    )

register_one :
    (req : Message) (to c : Address) (expires : ℤ) (now : ℕ) (r s : Registrar table)
    → to_address req ≡ some to
    → contacts req ≡ c ∷ []
    → contact_expires (get_expires req) c ≡ expires
    → register_contact table req (aor to.uri) (uri_text c.uri) expires now r ≡ goes_on s
    → process_register table req now r ≡ (query_bindings table req (aor to.uri) now s, s)
unfolding process_register
register_one req to c expires now r s t cs e done = simp (t, cs, e, done)

module _ (req : Message) (user contact : Text) (now : ℕ) (r : Registrar table) where
  saves :
      (n : ℕ)
      → suc n ≤ 9223372036
      → let b = new_binding req user contact (pos (now + suc n)) (cseq_num req) in
        register_contact table req user contact (pos (suc n)) now r
        ≡ goes_on (record {
          db = save_row b r.db;
          events = record { kind = reg_new; binding = b } ∷ r.events;
        })
  saves n fits =
      let seconds : duration (pos (suc n)) ≡ pos (suc n) = ground arith in
      let positive : (suc n == 0) ≡ false = ground arith in
      let no_asterisk : (text_eq contact (lit "*") && false) ≡ false = ground arith in
      simp (positive, no_asterisk, seconds)

  deletes :
      text_eq contact (lit "*") ≡ false
      → register_contact table req user contact (pos 0) now r
        ≡ goes_on (record {
          db = delete_row user contact r.db;
          events =
              record { kind = reg_del; binding = new_binding req user contact (pos 0) (pos 0) }
              ∷ r.events;
        })
  deletes no_asterisk = simp no_asterisk

-- A REGISTER with one contact and a positive expiry of at most 9223372036 seconds, the most that a
-- Duration holds, is answered 200, and the table then has the binding of that contact, which expires so
-- many seconds from now, and else what it had.
pub register_binds :
    (req : Message) (to c : Address) (n now : ℕ) (r : Registrar table)
    → to_address req ≡ some to
    → contacts req ≡ c ∷ []
    → contact_expires (get_expires req) c ≡ pos (suc n)
    → suc n ≤ 9223372036
    → let (resp, s) = process_register table req now r in
      (resp.status_code ≡ pos 200)
      × ((user contact : Text)
          → let b =
              new_binding req (aor to.uri) (uri_text c.uri) (pos (now + suc n)) (cseq_num req) in
            find_row user contact s.db
            ≡ (if is_row user contact b then some b else find_row user contact r.db))
register_binds req to c n now r t cs e fits =
    let done =
      register_one req to c (pos (suc n)) now r _ t cs e
        (saves req (aor to.uri) (uri_text c.uri) now r n fits) in
    (
      ap (λ p. p.0.status_code) done ∙ (query_lists_current req (aor to.uri) now _).0,
      λ user contact.
          ap (λ p. find_row user contact p.1.db) done ∙ find_row-save_row user contact _ r.db,
    )

-- A REGISTER with one contact, other than the asterisk, and expiry 0 is answered 200, and the table then
-- has no binding of that contact, and else what it had.
register_unbinds :
    (req : Message) (to c : Address) (now : ℕ) (r : Registrar table)
    → to_address req ≡ some to
    → contacts req ≡ c ∷ []
    → contact_expires (get_expires req) c ≡ pos 0
    → text_eq (uri_text c.uri) (lit "*") ≡ false
    → let (resp, s) = process_register table req now r in
      (resp.status_code ≡ pos 200)
      × ((user contact : Text)
          → find_row user contact s.db ≡ (
              if not (text_eq user (aor to.uri) && text_eq contact (uri_text c.uri))
              then find_row user contact r.db
              else none))
register_unbinds req to c now r t cs e no_asterisk =
    let done =
      register_one req to c (pos 0) now r _ t cs e
        (deletes req (aor to.uri) (uri_text c.uri) now r no_asterisk) in
    (
      ap (λ p. p.0.status_code) done ∙ (query_lists_current req (aor to.uri) now _).0,
      λ user contact.
          ap (λ p. find_row user contact p.1.db) done
          ∙ find_row-delete_row (aor to.uri) (uri_text c.uri) user contact r.db,
    )
