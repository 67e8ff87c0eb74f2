-- ===== src/Text/Words.antt =====
-- What the functions on strings do to a text that is put together from parts without the separator.
use funsip.Base.{
  ℕ, ◌==◌, ◌-◌, subst, ltb, Bool-cases, inl, inr, if◌then◌else◌, ◌≡◌, refl, ◌∙◌, sym, ap, Bool,
  true, false, none, some, [], ◌∷◌, ◌++◌, arith, All,
}
use mathlib.Core.List.{append_assoc, append-nil}
use mathlib.Core.Bool.{true≢false}
use funsip.Text.{
  Text, is_empty, is_space, keep_left, cut, cut_last, split, trim_right, trim_space, fields,
  fields_from, plain_from, space_width, first_byte,
}

-- No byte of the text is `b`.
abbrev pub Lacks : ℕ → Text → Type 0
Lacks b s = All (λ c. (c == b) ≡ false) s

pub cut-none : (b : ℕ) (s : Text) → Lacks b s → cut b s ≡ none
unfolding cut
cut-none b [] l = refl
cut-none b (c ∷ s) (e, l) = simp (e, cut-none b s l)

same_byte : (b : ℕ) → (b == b) ≡ true
same_byte b = ground arith

pub cut-first : (b : ℕ) (s t : Text) → Lacks b s → cut b (s ++ b ∷ t) ≡ some (s, t)
unfolding cut
cut-first b [] t l = simp (same_byte b)
cut-first b (c ∷ s) t (e, l) = simp (e, cut-first b s t l)

pub split-first : (b : ℕ) (s t : Text) → Lacks b s → split b (s ++ b ∷ t) ≡ s ∷ split b t
unfolding split
split-first b [] t l = simp (same_byte b)
split-first b (c ∷ s) t (e, l) = simp (e, split-first b s t l)

pub trim_right-last :
    (p : ℕ → Bool) (b : ℕ) (s : Text)
    → p b ≡ true
    → All (λ c. p c ≡ false) s
    → trim_right p (s ++ b ∷ []) ≡ s
trim_right-last p b [] e l = simp e
trim_right-last p b (c ∷ []) e l = simp (e, l.0)
trim_right-last p b (c ∷ d ∷ s) e (f, l) = simp (trim_right-last p b (d ∷ s) e l)

-- A word is a text of at least one byte, which has no space, of one byte or of more.
abbrev pub IsWord : Text → Type 0
IsWord w = (is_empty w ≡ false) × All (λ c. is_space c ≡ false) w × (plain_from 0 w ≡ w)

-- ASCII has spaces of one byte only.
pub plain_from-ascii : (w : Text) → All (λ c. ltb c 128 ≡ true) w → plain_from 0 w ≡ w
plain_from-ascii [] l = refl
plain_from-ascii (c ∷ w) (e, l) =
    let narrow : space_width c w ≡ 0 = ground arith in
    rw narrow (ap (λ s. c ∷ s) (plain_from-ascii w l))

space_width-word : (a : ℕ) (w s : Text) → space_width a (w ++ b' ' ∷ s) ≡ space_width a w
space_width-word a [] s = ground arith
space_width-word a (b ∷ []) s = ground arith
space_width-word a (b ∷ c ∷ w) s = refl

abbrev behind_first : Text → Text
behind_first [] = []
behind_first (c ∷ s) = s

-- No space of more bytes reaches over the ASCII space behind a word.
plain_from-word :
    (w s : Text) → plain_from 0 w ≡ w → plain_from 0 (w ++ b' ' ∷ s) ≡ w ++ b' ' ∷ plain_from 0 s
plain_from-word [] s e = refl
plain_from-word (a ∷ w) s e = elim (Bool-cases (space_width a w == 0)) [
  | inl narrow ↦
      let none_here : space_width a w ≡ 0 = ground (arith, narrow) in
      let tail : plain_from 0 w ≡ w =
        subst (λ n. plain_from (n - 1) w ≡ w) none_here (ap behind_first e) in
      rw (space_width-word a w s, none_here) (ap (λ t. a ∷ t) (plain_from-word w s tail))
  | inr wide ↦
      let blank : b' ' ≡ a =
        subst (λ (b : Bool). (if b then a else b' ') ≡ a) wide (ap first_byte e) in
      absurd (true≢false (subst (λ x. (space_width x w == 0) ≡ false) (sym blank) wide))
]

fields_from-word :
    (u w s : Text)
    → All (λ c. is_space c ≡ false) w
    → fields_from u (w ++ s) ≡ fields_from (u ++ w) s
unfolding fields_from
fields_from-word u [] s l = ap (λ v. fields_from v s) (sym (append-nil u))
fields_from-word u (c ∷ w) s (e, l) =
    simp e
      (fields_from-word (u ++ c ∷ []) w s l ∙ ap (λ v. fields_from v s) (append_assoc u (c ∷ []) w))

word_ends : (w s : Text) → is_empty w ≡ false → fields_from w (b' ' ∷ s) ≡ w ∷ fields_from [] s
unfolding fields_from
word_ends w s full = simp full

last_word : (w : Text) → is_empty w ≡ false → fields_from w [] ≡ w ∷ []
unfolding fields_from
last_word w full = simp full

pub fields-word : (w s : Text) → IsWord w → fields (w ++ b' ' ∷ s) ≡ w ∷ fields s
unfolding fields
fields-word w s (full, l, p) =
    ap (fields_from []) (plain_from-word w s p)
    ∙ fields_from-word [] w (b' ' ∷ plain_from 0 s) l
    ∙ word_ends w (plain_from 0 s) full

pub fields-last : (w : Text) → IsWord w → fields w ≡ w ∷ []
unfolding fields
fields-last w (full, l, p) =
    ap (fields_from []) p
    ∙ ap (fields_from []) (sym (append-nil w))
    ∙ fields_from-word [] w [] l
    ∙ last_word w full

cut_last-none : (b : ℕ) (s : Text) → Lacks b s → cut_last b s ≡ none
unfolding cut_last
cut_last-none b [] l = refl
cut_last-none b (c ∷ s) (e, l) = simp (cut_last-none b s l, e)

pub cut_last-last : (b : ℕ) (s t : Text) → Lacks b t → cut_last b (s ++ b ∷ t) ≡ some (s, t)
unfolding cut_last
cut_last-last b [] t l = simp (cut_last-none b t l, same_byte b)
cut_last-last b (c ∷ s) t l = simp (cut_last-last b s t l)

-- Trimming leaves a text that ends in what is left of its end, and one without spaces.
pub trim_right-join :
    (p : ℕ → Bool) (s t : Text)
    → is_empty t ≡ false
    → trim_right p t ≡ t
    → trim_right p (s ++ t) ≡ s ++ t
trim_right-join p [] t full e = e
trim_right-join p (c ∷ s) t full e =
    ap (keep_left p c) (trim_right-join p s t full e) ∙ kept (s ++ t) (join-full s t full)
  where
    kept : (u : Text) → is_empty u ≡ false → keep_left p c u ≡ c ∷ u
    kept [] f = absurd (true≢false f)
    kept (d ∷ u) f = refl

    join-full : (u v : Text) → is_empty v ≡ false → is_empty (u ++ v) ≡ false
    join-full [] v f = f
    join-full (d ∷ u) v f = refl

module _ (p : ℕ → Bool) where
  pub keep_left-none : (c : ℕ) (v : Text) → p c ≡ false → keep_left p c v ≡ c ∷ v
  keep_left-none c [] h = rw h refl
  keep_left-none c (d ∷ v) h = refl

  -- Trimming on the right does not reach beyond a byte that stays.
  pub trim_right-behind :
      (s : Text) (d : ℕ) (t : Text)
      → p d ≡ false
      → trim_right p (s ++ d ∷ t) ≡ s ++ d ∷ trim_right p t
  trim_right-behind [] d t h = keep_left-none d (trim_right p t) h
  trim_right-behind (c ∷ s) d t h = ap (keep_left p c) (trim_right-behind s d t h) ∙ kept s
    where
      kept : (u : Text) → keep_left p c (u ++ d ∷ trim_right p t) ≡ c ∷ u ++ d ∷ trim_right p t
      kept [] = refl
      kept (e ∷ u) = refl

pub trim_space-unspaced : (s : Text) → All (λ c. is_space c ≡ false) s → trim_space s ≡ s
unfolding trim_space
trim_space-unspaced [] l = refl
trim_space-unspaced (c ∷ s) (e, l) = simp e (right (c ∷ s) (e, l))
  where
    right : (u : Text) → All (λ c. is_space c ≡ false) u → trim_right is_space u ≡ u
    right [] m = refl
    right (d ∷ []) m = simp m.0
    right (d ∷ e ∷ u) (m, n) = simp (right (e ∷ u) n)
