-- ===== src/Text/Numbers.antt =====
-- Atoi reads back what Itoa prints (package strconv).
use funsip.Base.{
  ℕ, zero, suc, ◌+◌, ◌-◌, ◌*◌, ◌/◌, ◌%◌, ◌==◌, ◌<◌, ◌≤◌, ◌≡◌, refl, ◌∙◌, sym, ap, true, false, ◌&&◌,
  none, some, List, [], ◌∷◌, ◌++◌, arith, ltb, leb, All, All-join, Bool-cases, inl, inr,
}
use mathlib.Core.Bool.{true≢false}
use mathlib.Core.List.{append_assoc, append-nil}
use funsip.Base.Int.{pos}
use funsip.Text.{Text, is_empty, decimal, itoa, digits_value, max_int, atoi, unsigned, signed_value}

pub All-map {ℓ κ μ} :
    {A : Type ℓ} (P : A → Type κ) (Q : A → Type μ) (xs : List A)
    → ((x : A) → P x → Q x)
    → All P xs
    → All Q xs
All-map P Q [] f h = tt
All-map P Q (x ∷ xs) f h = (f x h.0, All-map P Q xs f h.1)

abbrev pub IsDigit : ℕ → Type 0
IsDigit c = (leb 48 c && leb c 57) ≡ true

digits_value-decimal :
    (f n : ℕ) (t : Text) → n < f → digits_value 0 (decimal f n ++ t) ≡ digits_value n t
unfolding digits_value decimal
digits_value-decimal zero n t h = absurd (omega (arith, h))
digits_value-decimal (suc f) n t h = elim (Bool-cases (ltb n 10)) [
  | inl e ↦ simp e (ground arith)
  | inr e ↦ simp e (
      ap (digits_value 0) (append_assoc (decimal f (n / 10)) ((48 + n % 10) ∷ []) t)
      ∙ digits_value-decimal f (n / 10) ((48 + n % 10) ∷ t) (ground arith)
      ∙ last_digit)
]
  where
    last_digit : digits_value (n / 10) ((48 + n % 10) ∷ t) ≡ digits_value n t
    last_digit =
        let is_digit : (leb 48 (48 + n % 10) && leb (48 + n % 10) 57) ≡ true = ground arith in
        let value : n / 10 * 10 + (48 + n % 10 - 48) ≡ n = omega arith in simp (is_digit, value)

decimal-All : (f n : ℕ) → All IsDigit (decimal f n)
unfolding decimal
decimal-All zero n = tt
decimal-All (suc f) n = elim (Bool-cases (ltb n 10)) [
  | inl e ↦ simp e (ground arith, tt)
  | inr e ↦
      simp e (All-join IsDigit (decimal f (n / 10)) _ (decimal-All f (n / 10)) (ground arith, tt))
]

pub itoa-All : (n : ℕ) → All IsDigit (itoa n)
unfolding itoa
itoa-All n = decimal-All (n + 1) n

in_range-true : (n : ℕ) → n ≤ max_int → signed_value false (some n) ≡ (pos n, none)
in_range-true n m = let within : leb n max_int ≡ true = ground arith in simp within

pub atoi-digits :
    (t : Text) (n : ℕ)
    → All IsDigit t
    → is_empty t ≡ false
    → digits_value 0 t ≡ some n
    → n ≤ max_int
    → atoi t ≡ (pos n, none)
unfolding atoi
atoi-digits [] n d e v m = absurd (true≢false e)
atoi-digits (c ∷ s) n (d, ds) e v m =
    let minus : (c == b'-') ≡ false = ground (arith, d) in
    let plus : (c == b'+') ≡ false = ground (arith, d) in
    let value : unsigned false (c ∷ s) ≡ (pos n, none) =
      ap (signed_value false) v ∙ in_range-true n m in
    simp (minus, plus) value

decimal-full : (f n : ℕ) → n < f → is_empty (decimal f n) ≡ false
unfolding decimal
decimal-full zero n h = absurd (omega (arith, h))
decimal-full (suc f) n h = elim (Bool-cases (ltb n 10)) [
  | inl e ↦ simp e
  | inr e ↦ simp e (snoc-full (decimal f (n / 10)) (48 + n % 10))
]
  where
    snoc-full : (t : Text) (c : ℕ) → is_empty (t ++ c ∷ []) ≡ false
    snoc-full [] c = refl
    snoc-full (x ∷ t) c = refl

pub itoa-full : (n : ℕ) → is_empty (itoa n) ≡ false
unfolding itoa
itoa-full n = decimal-full (n + 1) n (omega arith)

pub atoi-itoa : (n : ℕ) → n ≤ max_int → atoi (itoa n) ≡ (pos n, none)
unfolding itoa
atoi-itoa n m =
    atoi-digits (itoa n) n (itoa-All n) (itoa-full n)
      (unfold digits_value in
        ap (digits_value 0) (sym (append-nil (decimal (n + 1) n)))
        ∙ digits_value-decimal (n + 1) n [] (omega arith))
      m
