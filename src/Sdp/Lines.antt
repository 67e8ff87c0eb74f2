-- ===== src/Sdp/Lines.antt =====
-- Lines of a session description as Bytes of pkg/sdp/sdp.go writes them and Parse reads them.
use funsip.Base.{
  ℕ, ◌==◌, ◌≡◌, refl, ◌∙◌, sym, ap, false, List, [], ◌∷◌, ◌++◌, All, All-join, if-both,
}
use mathlib.Core.Bool.{true≢false}
use mathlib.Core.List.{append_assoc, append-nil}
use funsip.Text.{Text, is_empty, split}
use funsip.Text.Words.{Lacks, cut-none, cut-first, split-first, trim_right-last}
use funsip.Sdp.Data.{Attribute, Sdp}
use funsip.Sdp.Parser.{
  parse_field, parse_line, parse_lines, is_return, parse_attribute, put_attribute,
}
use funsip.Sdp.Printer.{
  line, line_if, line_or, lines_each, attribute_text, attribute_lines, with_ends,
}

-- A text that can stand on a line.
abbrev pub IsValue : Text → Type 0
IsValue v = Lacks 10 v × Lacks 13 v

-- The lines one after the other, without their ends.
abbrev pub read_lines : List Text → Sdp → Sdp
read_lines [] s = s
read_lines (l ∷ ls) s = read_lines ls (parse_line l s)

pub parse_lines-with_ends :
    (ls : List Text) (s : Sdp)
    → All IsValue ls
    → parse_lines (split 10 (with_ends ls)) s ≡ read_lines ls s
unfolding split
parse_lines-with_ends [] s v = refl
parse_lines-with_ends (l ∷ ls) s ((no_feed, no_return), v) =
    ap (λ t. parse_lines (split 10 t) s) (sym (append_assoc l (13 ∷ []) (10 ∷ with_ends ls)))
    ∙ ap (λ ws. parse_lines ws s)
        (split-first 10 (l ++ 13 ∷ []) (with_ends ls)
          (All-join (λ c. (c == 10) ≡ false) l (13 ∷ []) no_feed (refl, tt)))
    ∙ ap (λ t. parse_lines (split 10 (with_ends ls)) (parse_line t s))
        (trim_right-last is_return 13 l refl no_return)
    ∙ parse_lines-with_ends ls (parse_line l s) v

read_lines-append :
    (xs ys : List Text) (s : Sdp) → read_lines (xs ++ ys) s ≡ read_lines ys (read_lines xs s)
read_lines-append [] ys s = refl
read_lines-append (x ∷ xs) ys s = read_lines-append xs ys (parse_line x s)

-- The lines can be written, and reading them takes `s` to `t`.
pub record Reads (ls : List Text) (s t : Sdp) : Type 0 where
  pub values : All IsValue ls
  pub result : read_lines ls s ≡ t

pub Reads-append :
    (xs ys : List Text) {s t u : Sdp} → Reads xs s t → Reads ys t u → Reads (xs ++ ys) s u
Reads-append xs ys {s} {t} {u} r q = record {
  values = All-join IsValue xs ys r.values q.values;
  result = read_lines-append xs ys s ∙ ap (read_lines ys) r.result ∙ q.result;
}

abbrev pub IsKey : ℕ → Type 0
IsKey key = ((key == 10) ≡ false) × ((key == 13) ≡ false)

pub line-IsValue : (key : ℕ) (v : Text) → IsKey key → IsValue v → IsValue (line key v)
line-IsValue key v (a, b) (c, d) = ((a, (refl, c)), (b, (refl, d)))

module _ (key : ℕ) (k : IsKey key) where
  pub Reads-line :
      (v : Text) {s t : Sdp} → IsValue v → parse_field key v s ≡ t → Reads (line key v ∷ []) s t
  Reads-line v w e = record { values = (line-IsValue key v k w, tt); result = e }

  pub Reads-line_if :
      (v : Text) (put : Text → Sdp) {s : Sdp}
      → IsValue v
      → put [] ≡ s
      → ((w : Text) → parse_field key w s ≡ put w)
      → Reads (line_if key v) s (put v)
  Reads-line_if [] put w e f = record { values = tt; result = sym e }
  Reads-line_if (c ∷ v) put w e f = Reads-line (c ∷ v) w (f (c ∷ v))

  pub Reads-line_or :
      (default v : Text) (put : Text → Sdp) {s : Sdp}
      → is_empty v ≡ false
      → IsValue v
      → ((w : Text) → parse_field key w s ≡ put w)
      → Reads (line_or key default v) s (put v)
  Reads-line_or default [] put full w f = absurd (true≢false full)
  Reads-line_or default (c ∷ v) put full w f = Reads-line (c ∷ v) w (f (c ∷ v))

  pub Reads-lines_each :
      (vs us : List Text) (put : List Text → Sdp)
      → All IsValue vs
      → ((us : List Text) (w : Text) → parse_field key w (put us) ≡ put (us ++ w ∷ []))
      → Reads (lines_each key vs) (put us) (put (us ++ vs))
  Reads-lines_each [] us put w f = record { values = tt; result = ap put (sym (append-nil us)) }
  Reads-lines_each (v ∷ vs) us put (w, ws) f =
      let rest = Reads-lines_each vs (us ++ v ∷ []) put ws f in
      record {
        values = (line-IsValue key v k w, rest.values);
        result =
            ap (read_lines (lines_each key vs)) (f us v)
            ∙ rest.result
            ∙ ap put (append_assoc us (v ∷ []) vs);
      }

-- A colon ends the name of an attribute.
abbrev pub IsAttribute : Attribute → Type 0
IsAttribute a = Lacks b':' a.name × IsValue a.name × IsValue a.value

attribute_text-IsValue : (a : Attribute) → IsAttribute a → IsValue (attribute_text a)
attribute_text-IsValue a (no_colon, name, value) = if-both IsValue (is_empty a.value) name (
  All-join (λ c. (c == 10) ≡ false) a.name (b':' ∷ a.value) name.0 (refl, value.0),
  All-join (λ c. (c == 13) ≡ false) a.name (b':' ∷ a.value) name.1 (refl, value.1),
)

parse_attribute-text : (a : Attribute) → IsAttribute a → parse_attribute (attribute_text a) ≡ a
unfolding parse_attribute
parse_attribute-text a (no_colon, name, value) = by_value a.name a.value no_colon
  where
    by_value :
        (n v : Text)
        → Lacks b':' n
        → parse_attribute (attribute_text (record { name = n; value = v }))
          ≡ record { name = n; value = v }
    by_value n [] l = simp (cut-none b':' n l)
    by_value n (c ∷ v) l = simp (cut-first b':' n (c ∷ v) l)

pub Reads-attribute_lines :
    (attributes before : List Attribute) (put : List Attribute → Sdp)
    → All IsAttribute attributes
    → ((before : List Attribute) (a : Attribute)
        → put_attribute a (put before) ≡ put (before ++ a ∷ []))
    → Reads (attribute_lines attributes) (put before) (put (before ++ attributes))
unfolding parse_field
Reads-attribute_lines [] before put w f = record {
  values = tt;
  result = ap put (sym (append-nil before));
}
Reads-attribute_lines (a ∷ attributes) before put (w, ws) f =
    let rest = Reads-attribute_lines attributes (before ++ a ∷ []) put ws f in
    record {
      values = (
        line-IsValue b'a' (attribute_text a) (refl, refl) (attribute_text-IsValue a w),
        rest.values,
      );
      result =
          ap (λ x. read_lines (attribute_lines attributes) (put_attribute x (put before)))
            (parse_attribute-text a w)
          ∙ ap (read_lines (attribute_lines attributes)) (f before a)
          ∙ rest.result
          ∙ ap put (append_assoc before (a ∷ []) attributes);
    }
