-- ===== src/Dialog/Invariant.antt =====
-- What holds of the dialogs (pkg/dialog/dialog.go) between two events.
use funsip.Base.{
  ℕ, suc, ◌==◌, ◌≤◌, ◌≡◌, refl, ◌∙◌, sym, ap, subst, ◌⊎◌, inl, inr, true, false, Option, none, some,
  List, [], ◌∷◌, ◌++◌, arith, if◌then◌else◌, length, get_elem?, update, ==_iff, lookup-insert,
  length-update, length-append, get_elem?-append, get_elem?-last, get_elem?-snoc,
  get_elem?-update_same, get_elem?-update_other, get_elem?-update_inv, Option-cases, Bool-cases,
}
use funsip.Text.{Text, text_eq, text_eq_iff, text_keys}
use funsip.Dialog.State.{Dialog, CallEnd, Manager, find_dialog, on_dialog}
use funsip.Dialog.Manager.{add_dialog}

abbrev pub end_count : ℕ → List CallEnd → ℕ
end_count i [] = 0
end_count i (e ∷ es) = if e.place == i then suc (end_count i es) else end_count i es

-- The place holds a dialog of that Call-ID whose timer is running.
abbrev pub Serves : Option Dialog → Text → Type 0
Serves none key = ⊥
Serves (some d) key = (d.call_id ≡ key) × (d.timer ≡ true)

pub record IsSound (m : Manager) : Type 0 where
  pub listed : (key : Text) (i : ℕ) → find_dialog key m ≡ some i → Serves (get_elem? m.heap i) key
  pub running :
      (i : ℕ) (d : Dialog)
      → get_elem? m.heap i ≡ some d
      → d.timer ≡ true
      → find_dialog d.call_id m ≡ some i
  pub open_yet :
      (i : ℕ) (d : Dialog) → get_elem? m.heap i ≡ some d → d.timer ≡ true → end_count i m.ends ≡ 0
  pub unborn : (i : ℕ) → length m.heap ≤ i → end_count i m.ends ≡ 0
  pub once : (i : ℕ) → end_count i m.ends ≤ 1

pub Serves-append :
    (heap : List Dialog) (d : Dialog) (i : ℕ) (key : Text)
    → Serves (get_elem? heap i) key
    → Serves (get_elem? (heap ++ d ∷ []) i) key
Serves-append heap d i key s = elim (Option-cases (get_elem? heap i)) [
  | inl e ↦ absurd (subst (λ o. Serves o key) e s)
  | inr (x, e) ↦ subst (λ o. Serves o key) (e ∙ sym (get_elem?-append heap (d ∷ []) i x e)) s
]

pub Serves-known :
    (o : Option Dialog) (key key' : Text) → Serves o key → Serves o key' → text_eq key key' ≡ true
Serves-known none key key' s t = absurd s
Serves-known (some d) key key' s t = (text_eq_iff key key').1 (sym s.0 ∙ t.0)

pub Serves-dialog :
    (o : Option Dialog) (key : Text)
    → Serves o key
    → (d : Dialog) × ((o ≡ some d) × ((d.call_id ≡ key) × (d.timer ≡ true)))
Serves-dialog none key s = absurd s
Serves-dialog (some d) key s = (d, (refl, s))

pub no_place : (j : ℕ) → ◌≡◌ {A = Option ℕ} none (some j) → ⊥
no_place j h = cc

pub same_place : (i j : ℕ) → ◌≡◌ {A = Option ℕ} (some i) (some j) → i ≡ j
same_place i j h = cc

-- A change of the dialog at place `i` that keeps its Call-ID and its timer.
pub change-IsSound :
    (m : Manager) (i : ℕ) (f : Dialog → Dialog)
    → ((d : Dialog) → ((f d).call_id ≡ d.call_id) × ((f d).timer ≡ d.timer))
    → IsSound m
    → IsSound (on_dialog i f m)
change-IsSound m i f keeps v = record {
  listed = λ k j h. Serves-update j k (v.listed k j h);
  running = λ j d h live. elim (get_elem?-update_inv f i j m.heap d h) [
    | inl (n, e) ↦ v.running j d e live
    | inr (n, (b, (e, c))) ↦
        rw (c, (keeps b).0)
          (v.running j b e (sym (keeps b).1 ∙ ap (λ (x : Dialog). x.timer) (sym c) ∙ live))
  ];
  open_yet = λ j d h live. elim (get_elem?-update_inv f i j m.heap d h) [
    | inl (n, e) ↦ v.open_yet j d e live
    | inr (n, (b, (e, c))) ↦
        v.open_yet j b e (sym (keeps b).1 ∙ ap (λ (x : Dialog). x.timer) (sym c) ∙ live)
  ];
  unborn = λ j h. v.unborn j (rw (length-update f i m.heap) at h);
  once = v.once;
}
  where
    Serves-update :
        (j : ℕ) (k : Text)
        → Serves (get_elem? m.heap j) k
        → Serves (get_elem? (update f i m.heap) j) k
    Serves-update j k s =
        let (d, (e, (c, t))) = Serves-dialog (get_elem? m.heap j) k s in
        elim (Bool-cases (i == j)) [
          | inl same ↦
              subst (λ o. Serves o k)
                (sym (
                  subst (λ l. get_elem? (update f l m.heap) j ≡ some (f d))
                    (sym ((==_iff i j).0 same)) (get_elem?-update_same f j m.heap d e)))
                ((keeps d).0 ∙ c, (keeps d).1 ∙ t)
          | inr other ↦
              subst (λ o. Serves o k) (sym (get_elem?-update_other f i j m.heap d other e)) (c, t)
        ]

-- A new dialog whose timer is running, under a Call-ID that has none.
pub add_dialog-IsSound :
    (m : Manager) (d : Dialog)
    → d.timer ≡ true
    → find_dialog d.call_id m ≡ none
    → IsSound m
    → IsSound (add_dialog d m)
add_dialog-IsSound m d live new v = record {
  listed = λ k j h. listed_in k j h (Bool-cases (text_eq d.call_id k));
  running = λ j x h t. elim (get_elem?-snoc m.heap d j x h) [
    | inl e ↦ find_new x.call_id ∙ rw (old_key x.call_id j (v.running j x e t)) (v.running j x e t)
    | inr (e, c) ↦ rw (c, e) (found_at d.call_id ((text_eq_iff d.call_id d.call_id).1 refl))
  ];
  open_yet = λ j x h t. elim (get_elem?-snoc m.heap d j x h) [
    | inl e ↦ v.open_yet j x e t
    | inr (e, c) ↦ v.unborn j (omega (arith, e))
  ];
  unborn = λ j h. v.unborn j (omega (arith, h, length-append m.heap (d ∷ [])));
  once = v.once;
}
  where
    find_new :
        (k : Text)
        → find_dialog k (add_dialog d m)
          ≡ (if text_eq d.call_id k then some (length m.heap) else find_dialog k m)
    find_new k = lookup-insert text_keys d.call_id k (length m.heap) m.dialogs

    old_key : (k : Text) (j : ℕ) → find_dialog k m ≡ some j → text_eq d.call_id k ≡ false
    old_key k j h = elim (Bool-cases (text_eq d.call_id k)) [
      | inl e ↦
          absurd
            (no_place j (sym new ∙ ap (λ l. find_dialog l m) ((text_eq_iff d.call_id k).0 e) ∙ h))
      | inr e ↦ e
    ]

    found_at :
        (k : Text)
        → text_eq d.call_id k ≡ true
        → find_dialog k (add_dialog d m) ≡ some (length m.heap)
    found_at k e = find_new k ∙ rw e refl

    listed_in :
        (k : Text) (j : ℕ)
        → find_dialog k (add_dialog d m) ≡ some j
        → (text_eq d.call_id k ≡ true) ⊎ (text_eq d.call_id k ≡ false)
        → Serves (get_elem? (m.heap ++ d ∷ []) j) k
    listed_in k j h (inl e) =
        subst (λ l. Serves (get_elem? (m.heap ++ d ∷ []) l) k)
          (same_place (length m.heap) j (sym (found_at k e) ∙ h))
          (subst (λ o. Serves o k) (sym (get_elem?-last m.heap d))
            ((text_eq_iff d.call_id k).0 e, live))
    listed_in k j h (inr e) =
        Serves-append m.heap d j k (v.listed k j (sym (find_new k ∙ rw e refl) ∙ h))
