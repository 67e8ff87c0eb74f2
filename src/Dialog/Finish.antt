-- ===== src/Dialog/Finish.antt =====
-- What the end of one dialog (pkg/dialog/dialog.go) leaves true of all of them.
use funsip.Base.{
  ℕ, suc, ◌==◌, ◌≤◌, ◌≡◌, refl, ◌∙◌, sym, ap, subst, inl, inr, true, false, none, some, List, arith,
  if◌then◌else◌, length, get_elem?, delete, ==_iff, lookup-delete, get_elem?-lt, Bool-cases,
}
use mathlib.Core.Bool.{true≢false}
use funsip.Text.{Text, text_eq, text_eq_iff, text_keys}
use funsip.Dialog.State.{Dialog, CallEnd, Manager, find_dialog}
use funsip.Dialog.Invariant.{end_count, Serves, IsSound, Serves-known, Serves-dialog, same_place}

-- What the end of the dialog at place `i` does to the dialogs: it alone changes, and its timer stops.
pub record Stops (i : ℕ) (heap heap' : List Dialog) : Type 0 where
  pub size : length heap' ≡ length heap
  pub rest : (j : ℕ) → (i == j) ≡ false → get_elem? heap' j ≡ get_elem? heap j
  pub dead : (d : Dialog) → get_elem? heap' i ≡ some d → d.timer ≡ false

-- The ends of others do not count, and the dialog's own end is counted once at most.
pub record Reports (i : ℕ) (ends ends' : List CallEnd) : Type 0 where
  pub others : (j : ℕ) → (i == j) ≡ false → end_count j ends' ≡ end_count j ends
  pub own : end_count i ends' ≤ suc (end_count i ends)

module _ (m n : Manager) (v : IsSound m) (key : Text) (i : ℕ) (found : find_dialog key m ≡ some i)
    (forgets : n.dialogs ≡ delete text_keys key m.dialogs) (stops : Stops i m.heap n.heap)
    (reports : Reports i m.ends n.ends) where
  find-forgotten : (k : Text) → find_dialog k n ≡ (if text_eq key k then none else find_dialog k m)
  find-forgotten k = rw (forgets, lookup-delete text_keys key k m.dialogs) refl

  forgotten :
      (k : Text) (j : ℕ)
      → find_dialog k n ≡ some j
      → (text_eq key k ≡ false) × (find_dialog k m ≡ some j)
  forgotten k j h = ground (arith, find-forgotten k)

  not_ended :
      (k : Text) (j : ℕ) → text_eq key k ≡ false → find_dialog k m ≡ some j → (i == j) ≡ false
  not_ended k j other h = elim (Bool-cases (i == j)) [
    | inl e ↦
        let same = (==_iff i j).0 e in
        absurd (
          true≢false (
            sym (
              Serves-known (get_elem? m.heap i) key k (v.listed key i found)
                (subst (λ l. Serves (get_elem? m.heap l) k) (sym same) (v.listed k j h)))
            ∙ other))
    | inr e ↦ e
  ]

  running_other :
      (j : ℕ) (d : Dialog) → get_elem? n.heap j ≡ some d → d.timer ≡ true → (i == j) ≡ false
  running_other j d h live = elim (Bool-cases (i == j)) [
    | inl e ↦
        let same = (==_iff i j).0 e in
        absurd (
          true≢false
            (sym live ∙ stops.dead d (subst (λ l. get_elem? n.heap l ≡ some d) (sym same) h)))
    | inr e ↦ e
  ]

  -- A key that leads elsewhere is another key.
  key_other :
      (j : ℕ) (k : Text) → (i == j) ≡ false → find_dialog k m ≡ some j → text_eq key k ≡ false
  key_other j k other h = elim (Bool-cases (text_eq key k)) [
    | inl e ↦ absurd (
        true≢false (
          sym (
            (==_iff i j).1 (
              same_place i j (sym found ∙ ap (λ l. find_dialog l m) ((text_eq_iff key k).0 e) ∙ h)))
          ∙ other))
    | inr e ↦ e
  ]

  pub finish-IsSound : IsSound n
  finish-IsSound = record {
    listed = λ k j h.
        let (other, old) = forgotten k j h in
        subst (λ o. Serves o k) (sym (stops.rest j (not_ended k j other old))) (v.listed k j old);
    running = λ j d h live.
        let other = running_other j d h live in
        let old = v.running j d (sym (stops.rest j other) ∙ h) live in
        find-forgotten d.call_id ∙ rw (key_other j d.call_id other old) old;
    open_yet = λ j d h live.
        let other = running_other j d h live in
        reports.others j other ∙ v.open_yet j d (sym (stops.rest j other) ∙ h) live;
    unborn = λ j h. unborn_yet j (rw stops.size at h);
    once = λ j. elim (Bool-cases (i == j)) [
      | inl e ↦ subst (λ l. end_count l n.ends ≤ 1) ((==_iff i j).0 e) own_once
      | inr e ↦ rw (reports.others j e) (v.once j)
    ];
  }
    where
      own_dialog :
          (d : Dialog) × ((get_elem? m.heap i ≡ some d) × ((d.call_id ≡ key) × (d.timer ≡ true)))
      own_dialog = Serves-dialog (get_elem? m.heap i) key (v.listed key i found)

      own_once : end_count i n.ends ≤ 1
      own_once =
          omega (arith, reports.own, v.open_yet i own_dialog.0 own_dialog.1.0 own_dialog.1.1.1)

      unborn_yet : (j : ℕ) → length m.heap ≤ j → end_count j n.ends ≡ 0
      unborn_yet j h =
          reports.others j (ground (arith, get_elem?-lt m.heap i own_dialog.0 own_dialog.1.0))
          ∙ v.unborn j h
