-- ===== src/Text.antt =====
-- Go's strings as lists of bytes, with the functions of packages strings and strconv that the code
-- calls. Letters and spaces are those of ASCII: a byte above 127 is never a letter or a space.
pub mod Numbers
pub mod Words
use Prim.Native.Char.{code}
use Prim.Native.String.{String}
use funsip.Base.{
  ℕ, zero, suc, ◌+◌, ◌-◌, ◌*◌, ◌/◌, ◌%◌, ◌^◌, ◌≡◌, refl, ◌↔◌, Bool, true, false, ◌&&◌, ◌||◌, Option,
  none, some, List, [], ◌∷◌, ◌++◌, map, arith, ltb, leb, ◌==◌, if◌then◌else◌, KeyTest,
}
use funsip.Base.Int.{ℤ, pos, neg_ℕ}

abbrev pub Text : Type 0
Text = List ℕ

-- The bytes of a literal.
abbrev pub lit : String → Text
lit String.[] = []
lit (String.◌∷◌ c s) = code c ∷ lit s

abbrev pub text_eq : Text → Text → Bool
text_eq [] [] = true
text_eq [] (d ∷ t) = false
text_eq (c ∷ s) [] = false
text_eq (c ∷ s) (d ∷ t) = c == d && text_eq s t

pub text_eq_iff : (s t : Text) → (text_eq s t ≡ true) ↔ (s ≡ t)
text_eq_iff [] [] = (λ _. refl, λ _. refl)
text_eq_iff [] (d ∷ t) = (λ h. cc, λ h. cc)
text_eq_iff (c ∷ s) [] = (λ h. cc, λ h. cc)
text_eq_iff (c ∷ s) (d ∷ t) =
    (λ h. ground (arith, text_eq_iff s t), λ h. ground (arith, text_eq_iff s t))

abbrev pub text_keys : KeyTest Text
text_keys = record { same = text_eq; decides = text_eq_iff }

-- `s == ""`
abbrev pub is_empty : Text → Bool
is_empty [] = true
is_empty (c ∷ s) = false

abbrev pub lower_byte : ℕ → ℕ
lower_byte c = if leb b'A' c && leb c b'Z' then c + 32 else c

abbrev pub upper_byte : ℕ → ℕ
upper_byte c = if leb b'a' c && leb c b'z' then c - 32 else c

-- strings.ToLower, strings.ToUpper
unfoldable pub to_lower : Text → Text
to_lower s = map lower_byte s

unfoldable pub to_upper : Text → Text
to_upper s = map upper_byte s

abbrev pub is_space : ℕ → Bool
is_space c = c == b' ' || (leb 9 c && leb c 13)

-- strings.TrimLeft and strings.TrimRight with a set of bytes
abbrev pub trim_left : (ℕ → Bool) → Text → Text
trim_left p [] = []
trim_left p (c ∷ s) = if p c then trim_left p s else c ∷ s

-- A byte in front of what is kept of the rest.
abbrev pub keep_left : (ℕ → Bool) → ℕ → Text → Text
keep_left p c [] = if p c then [] else c ∷ []
keep_left p c (d ∷ s) = c ∷ d ∷ s

abbrev pub trim_right : (ℕ → Bool) → Text → Text
trim_right p [] = []
trim_right p (c ∷ s) = keep_left p c (trim_right p s)

unfoldable pub trim_space : Text → Text
trim_space s = trim_right is_space (trim_left is_space s)

abbrev pub first_cons : ℕ → Text × Text → Text × Text
first_cons c (s, t) = (c ∷ s, t)

abbrev pub cons_first : ℕ → Option (Text × Text) → Option (Text × Text)
cons_first c none = none
cons_first c (some (s, t)) = some (c ∷ s, t)

-- The text before and behind the first byte `b`: `s[:i]` and `s[i+1:]` for `i = IndexByte(s, b)`.
unfoldable pub cut : ℕ → Text → Option (Text × Text)
cut b [] = none
cut b (c ∷ s) = if c == b then some ([], s) else cons_first c (cut b s)

-- If the rest has no `b`, this byte may be the last one.
abbrev pub cut_last_here : ℕ → ℕ → Text → Option (Text × Text) → Option (Text × Text)
cut_last_here b c s none = if c == b then some ([], s) else none
cut_last_here b c s (some (x, y)) = some (c ∷ x, y)

-- The same for `LastIndexByte`.
unfoldable pub cut_last : ℕ → Text → Option (Text × Text)
cut_last b [] = none
cut_last b (c ∷ s) = cut_last_here b c s (cut_last b s)

abbrev pub cons_head : ℕ → List Text → List Text
cons_head c [] = (c ∷ []) ∷ []
cons_head c (w ∷ ws) = (c ∷ w) ∷ ws

-- strings.Split with a separator of one byte; it never gives an empty list.
unfoldable pub split : ℕ → Text → List Text
split b [] = [] ∷ []
split b (c ∷ s) = if c == b then [] ∷ split b s else cons_head c (split b s)

-- strings.SplitN with 2 and with 3
abbrev split_two : Text → Option (Text × Text) → List Text
split_two s none = s ∷ []
split_two s (some (x, y)) = x ∷ y ∷ []

unfoldable pub split_n2 : ℕ → Text → List Text
unfolding cut
split_n2 b s = split_two s (cut b s)

abbrev split_three : ℕ → Text → Option (Text × Text) → List Text
split_three b s none = s ∷ []
split_three b s (some (x, y)) = x ∷ split_two y (cut b y)

unfoldable pub split_n3 : ℕ → Text → List Text
unfolding cut
split_n3 b s = split_three b s (cut b s)

-- strings.Fields: the words between runs of spaces; `w` is the word that is being read.
fields_from : Text → Text → List Text
fields_from w [] = if is_empty w then [] else w ∷ []
fields_from w (c ∷ s) =
    let rest = fields_from [] s in
    let on = fields_from (w ++ c ∷ []) s in
    if is_space c then (if is_empty w then rest else w ∷ rest) else on

-- The spaces of unicode.IsSpace that UTF-8 writes with two bytes, and with three. Their first bytes are
-- the first bytes of characters only, so that they can be found byte by byte.
abbrev is_space_2 : ℕ → ℕ → Bool
is_space_2 a b = a == 0xc2 && (b == 0x85 || b == 0xa0)

abbrev is_space_3 : ℕ → ℕ → ℕ → Bool
is_space_3 a b c =
    (a == 0xe1 && (b == 0x9a && c == 0x80))
    || ((a == 0xe2
          && ((b == 0x80 && ((leb 0x80 c && leb c 0x8a) || (c == 0xa8 || (c == 0xa9 || c == 0xaf))))
              || (b == 0x81 && c == 0x9f)))
        || (a == 0xe3 && (b == 0x80 && c == 0x80)))

abbrev pub first_byte : Text → ℕ
first_byte [] = 0
first_byte (c ∷ s) = c

abbrev pub second_byte : Text → ℕ
second_byte [] = 0
second_byte (c ∷ s) = first_byte s

-- How many bytes such a space has that starts with `a` before `s`; 0 if there is none.
abbrev pub space_width : ℕ → Text → ℕ
space_width a s =
    if is_space_3 a (first_byte s) (second_byte s)
    then 3
    else if is_space_2 a (first_byte s)
    then 2
    else 0

-- The text with these spaces as ASCII ones, once so many bytes are skipped.
abbrev pub plain_from : ℕ → Text → Text
plain_from skip [] = []
plain_from (suc k) (a ∷ s) = plain_from k s
plain_from zero (a ∷ s) =
    (if space_width a s == 0 then a else b' ') ∷ plain_from (space_width a s - 1) s

unfoldable pub fields : Text → List Text
unfolding fields_from
fields s = fields_from [] (plain_from 0 s)

abbrev pub has_prefix : Text → Text → Bool
has_prefix s [] = true
has_prefix [] (d ∷ t) = false
has_prefix (c ∷ s) (d ∷ t) = c == d && has_prefix s t

-- strconv.Itoa of a number that is not negative. The fuel is enough if it is above the number.
decimal : ℕ → ℕ → Text
decimal zero n = []
decimal (suc f) n =
    let front = decimal f (n / 10) in
    if ltb n 10 then (48 + n) ∷ [] else front ++ (48 + n % 10) ∷ []

unfoldable pub itoa : ℕ → Text
unfolding decimal
itoa n = decimal (n + 1) n

-- The value of a row of digits behind the value read so far; `none` at any other byte.
unfoldable pub digits_value : ℕ → Text → Option ℕ
digits_value v [] = some v
digits_value v (c ∷ s) =
    let rest = digits_value (v * 10 + (c - 48)) s in if leb 48 c && leb c 57 then rest else none

pub data AtoiError : Type 0 where
  syntax_error range_error : AtoiError

abbrev pub max_int : ℕ
max_int = 2 ^ 63 - 1

-- The result of `Atoi` with its error: 0 for a text that is no number, and the nearest `int` for one out
-- of range.
abbrev in_range : Bool → ℕ → ℤ × Option AtoiError
in_range false n = if leb n max_int then (pos n, none) else (pos max_int, some range_error)
in_range true n =
    if leb n (max_int + 1) then (neg_ℕ n, none) else (neg_ℕ (max_int + 1), some range_error)

abbrev signed_value : Bool → Option ℕ → ℤ × Option AtoiError
signed_value negative none = (pos 0, some syntax_error)
signed_value negative (some n) = in_range negative n

abbrev unsigned : Bool → Text → ℤ × Option AtoiError
unsigned negative [] = (pos 0, some syntax_error)
unsigned negative (c ∷ s) = signed_value negative (digits_value 0 (c ∷ s))

-- strconv.Atoi
unfoldable pub atoi : Text → ℤ × Option AtoiError
unfolding digits_value
atoi [] = (pos 0, some syntax_error)
atoi (c ∷ s) =
    if c == b'-'
    then unsigned true s
    else if c == b'+'
    then unsigned false s
    else unsigned false (c ∷ s)
