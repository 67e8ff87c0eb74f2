-- ===== src/Transport/Whole.antt =====
-- The framing of pkg/transport/tcp.go loses no byte.
use funsip.Base.{
  ℕ, zero, suc, ◌==◌, ◌≡◌, refl, ◌∙◌, sym, ap, subst, if-both, Option, none, some, [], ◌∷◌, ◌++◌,
}
use mathlib.Core.List.{append_assoc}
use funsip.Base.Int.{ℤ, pos, negsuc}
use funsip.Text.{Text, is_empty, trim_space}
use funsip.Transport.Framing.{
  first_found, cons_taken, read_full, with_body, read_body, read_lines, read_sip_message,
}

-- A result splits the bytes `head ++ s`.
abbrev Splits : Text → Option (Text × Text) → Type 0
Splits whole none = Unit
Splits whole (some (m, rest)) = whole ≡ m ++ rest

cons-Splits :
    (c : ℕ) (s : Text) (o : Option (Text × Text)) → Splits s o → Splits (c ∷ s) (cons_taken c o)
cons-Splits c s none h = tt
cons-Splits c s (some (m, rest)) h = ap (◌∷◌ c) h

read_full-Splits : (n : ℕ) (s : Text) → Splits s (read_full n s)
read_full-Splits zero s = refl
read_full-Splits (suc n) [] = tt
read_full-Splits (suc n) (c ∷ s) = cons-Splits c s (read_full n s) (read_full-Splits n s)

with_body-Splits :
    (head s : Text) (o : Option (Text × Text)) → Splits s o → Splits (head ++ s) (with_body head o)
with_body-Splits head s none h = tt
with_body-Splits head s (some (m, rest)) h = ap (λ t. head ++ t) h ∙ sym (append_assoc head m rest)

read_body-Splits :
    (head : Text) (len : Option ℤ) (s : Text) → Splits (head ++ s) (read_body head len s)
read_body-Splits head none s = refl
read_body-Splits head (some (pos n)) s =
    with_body-Splits head s (read_full n s) (read_full-Splits n s)
read_body-Splits head (some (negsuc n)) s = refl

read_lines-Splits :
    (head w : Text) (len : Option ℤ) (s : Text)
    → Splits (head ++ (w ++ s)) (read_lines head w len s)
read_lines-Splits head w len [] = tt
read_lines-Splits head w len (c ∷ s) =
    let l = w ++ c ∷ [] in
    let now = first_found len (trim_space l) in
    let grown = ap (λ t. head ++ t) (sym (append_assoc w (c ∷ []) s)) in
    let taken = grown ∙ sym (append_assoc head l s) in
    let whole = head ++ (w ++ c ∷ s) in
    if-both (Splits whole) (c == 10)
      (if-both (Splits whole) (is_empty (trim_space l))
        (subst (λ t. Splits t (read_body (head ++ l) now s)) (sym taken)
          (read_body-Splits (head ++ l) now s))
        (subst (λ t. Splits t (read_lines (head ++ l) [] now s)) (sym taken)
          (read_lines-Splits (head ++ l) [] now s)))
      (subst (λ t. Splits t (read_lines head l len s)) (sym grown) (read_lines-Splits head l len s))

-- A message that is read off a stream and what is left of it are together the stream: no byte is lost,
-- added or moved, whatever the stream holds.
pub read_sip_message_whole : (s m rest : Text) → read_sip_message s ≡ some (m, rest) → s ≡ m ++ rest
unfolding read_sip_message
read_sip_message_whole s m rest h = subst (Splits s) h (read_lines-Splits [] [] none s)
