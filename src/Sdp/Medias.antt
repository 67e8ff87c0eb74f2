-- ===== src/Sdp/Medias.antt =====
-- The lines of one media of a session description (writeMedia and parseMedia of pkg/sdp/sdp.go).
use funsip.Base.{
  ltb, true, ℕ, ◌==◌, ◌≤◌, ◌≡◌, refl, ◌∙◌, sym, ap, false, Option, none, some, List, [], ◌∷◌, ◌++◌,
  arith, if◌then◌else◌, All, All-join, if-both, Bool-cases, inl, inr,
}
use mathlib.Core.Bool.{true≢false}
use mathlib.Core.List.{append-nil}
use funsip.Base.Int.{ℤ, pos, negsuc, gt_const}
use funsip.Text.{Text, is_empty, is_space, fields, cut, atoi, itoa, max_int}
use funsip.Sip.Message.Wire.{int_text}
use funsip.Text.Numbers.{All-map, IsDigit, itoa-All, itoa-full, atoi-itoa}
use funsip.Text.Words.{
  Lacks, cut-none, cut-first, IsWord, fields-word, fields-last, plain_from-ascii,
}
use funsip.Sdp.Data.{Connection, Media}
use funsip.Sdp.Parser.{parse_connection, port_parts, parse_media}
use funsip.Sdp.Printer.{connection_text, port_digits, formats_text, media_text}
use funsip.Sdp.Lines.{IsValue, IsAttribute}

-- Words have no line ends.
pub unspaced-IsValue : (s : Text) → All (λ c. is_space c ≡ false) s → IsValue s
unspaced-IsValue s h = (
  All-map (λ c. is_space c ≡ false) (λ c. (c == 10) ≡ false) s (λ c e. ground (arith, e)) h,
  All-map (λ c. is_space c ≡ false) (λ c. (c == 13) ≡ false) s (λ c e. ground (arith, e)) h,
)

pub value-join : (s t : Text) → IsValue s → IsValue t → IsValue (s ++ t)
value-join s t v w =
    (All-join (λ c. (c == 10) ≡ false) s t v.0 w.0, All-join (λ c. (c == 13) ≡ false) s t v.1 w.1)

value-spaced : (s t : Text) → IsWord s → IsValue t → IsValue (s ++ b' ' ∷ t)
value-spaced s t w v = value-join s (b' ' ∷ t) (unspaced-IsValue s w.1) ((refl, v.0), (refl, v.1))

abbrev pub IsConnection : Connection → Type 0
IsConnection c = IsWord c.net_type × IsWord c.addr_type × IsWord c.address

pub connection_text-IsValue : (c : Connection) → IsConnection c → IsValue (connection_text c)
unfolding connection_text
connection_text-IsValue c (n, t, a) =
    value-spaced c.net_type (c.addr_type ++ b' ' ∷ c.address) n
      (value-spaced c.addr_type c.address t (unspaced-IsValue c.address a.1))

pub parse_connection-text :
    (c : Connection) → IsConnection c → parse_connection (connection_text c) ≡ some c
unfolding connection_text parse_connection
parse_connection-text c (n, t, a) =
    rw
      (
        fields-word c.net_type (c.addr_type ++ b' ' ∷ c.address) n,
        fields-word c.addr_type c.address t,
        fields-last c.address a,
      )
      refl

-- The property, where there is a value.
abbrev pub IsSome {ℓ κ} : {A : Type ℓ} → (A → Type κ) → Option A → Type κ
IsSome P none = Unit
IsSome P (some a) = P a

-- A number that Atoi reads without an error, and that is not negative.
abbrev pub IsNumber : ℤ → Type 0
IsNumber (pos n) = n ≤ max_int
IsNumber (negsuc n) = ⊥

digits_unspaced : (s : Text) → All IsDigit s → All (λ c. is_space c ≡ false) s
digits_unspaced s h = All-map IsDigit (λ c. is_space c ≡ false) s (λ c e. ground (arith, e)) h

digits_without_slash : (s : Text) → All IsDigit s → Lacks b'/' s
digits_without_slash s h = All-map IsDigit (λ c. (c == b'/') ≡ false) s (λ c e. ground (arith, e)) h

port_parts-full :
    (s front count : Text)
    → is_empty front ≡ false
    → port_parts s (some (front, count)) ≡ (front, (atoi count).0)
port_parts-full s [] count full = absurd (true≢false full)
port_parts-full s (c ∷ front) count full = refl

-- The port with its count.
abbrev ports : ℤ → ℤ → Text
ports port count =
    if gt_const count 0 then int_text port ++ b'/' ∷ int_text count else int_text port

digits_ascii : (n : ℕ) → All (λ c. ltb c 128 ≡ true) (itoa n)
digits_ascii n =
    All-map IsDigit (λ c. ltb c 128 ≡ true) (itoa n) (λ c e. ground (arith, e)) (itoa-All n)

pub itoa-IsWord : (n : ℕ) → IsWord (itoa n)
itoa-IsWord n =
    (itoa-full n, digits_unspaced (itoa n) (itoa-All n), plain_from-ascii (itoa n) (digits_ascii n))

join-full : (s t : Text) → is_empty s ≡ false → is_empty (s ++ t) ≡ false
join-full [] t full = absurd (true≢false full)
join-full (c ∷ s) t full = refl

ports-IsWord : (port count : ℤ) → IsNumber port → IsNumber count → IsWord (ports port count)
ports-IsWord (negsuc p) count n k = absurd n
ports-IsWord (pos p) (negsuc c) n k = absurd k
ports-IsWord (pos p) (pos c) n k =
    if-both IsWord (gt_const (pos c) 0)
      (
        join-full (itoa p) (b'/' ∷ itoa c) (itoa-full p),
        All-join (λ c. is_space c ≡ false) (itoa p) (b'/' ∷ itoa c) (itoa-IsWord p).1
            (refl, (itoa-IsWord c).1),
        plain_from-ascii (itoa p ++ b'/' ∷ itoa c) (
            All-join (λ c. ltb c 128 ≡ true) (itoa p) (b'/' ∷ itoa c) (digits_ascii p)
              (refl, digits_ascii c)),
      )
      (itoa-IsWord p)

ports-parts :
    (port count : ℤ)
    → IsNumber port
    → IsNumber count
    → port_parts (ports port count) (cut b'/' (ports port count)) ≡ (int_text port, count)
ports-parts (negsuc p) count n k = absurd n
ports-parts (pos p) (negsuc c) n k = absurd k
ports-parts (pos p) (pos c) n k = elim (Bool-cases (gt_const (pos c) 0)) [
  | inl e ↦
      let apart = cut-first b'/' (itoa p) (itoa c) (digits_without_slash (itoa p) (itoa-All p)) in
      simp (e, apart)
        (port_parts-full _ (itoa p) (itoa c) (itoa-full p)
          ∙ ap (λ r. (itoa p, r.0)) (atoi-itoa c k))
  | inr e ↦
      let whole = cut-none b'/' (itoa p) (digits_without_slash (itoa p) (itoa-All p)) in
      let zero_count : c ≡ 0 = ground (arith, e) in
      simp (e, whole) (ap (λ n. (itoa p, pos n)) (sym zero_count))
]

pub record IsMedia (m : Media) : Type 0 where
  pub type : IsWord m.type
  pub port : IsNumber m.port
  pub port_count : IsNumber m.port_count
  pub proto : IsWord m.proto
  pub formats : All IsWord m.formats
  pub info : IsValue m.info
  pub connection : IsSome IsConnection m.connection
  pub bandwidth : All IsValue m.bandwidth
  pub key : IsValue m.key
  pub attributes : All IsAttribute m.attributes

fields-formats :
    (proto : Text) (formats : List Text)
    → IsWord proto
    → All IsWord formats
    → fields (proto ++ formats_text formats) ≡ proto ∷ formats
fields-formats proto [] w ws = ap fields (append-nil proto) ∙ fields-last proto w
fields-formats proto (f ∷ formats) w (v, vs) =
    fields-word proto (f ++ formats_text formats) w
    ∙ ap (λ ts. proto ∷ ts) (fields-formats f formats v vs)

-- The media as its own line gives it.
abbrev pub bare : Media → Media
bare m = record m { info = []; connection = none; bandwidth = []; key = []; attributes = [] }

atoi-int_text : (z : ℤ) → IsNumber z → atoi (int_text z) ≡ (z, none)
atoi-int_text (pos n) k = atoi-itoa n k
atoi-int_text (negsuc n) k = absurd k

pub parse_media-text : (m : Media) → IsMedia m → parse_media (media_text m) ≡ some (bare m)
unfolding parse_media
parse_media-text m w =
    rw
      (
        fields-word m.type (port_digits m ++ b' ' ∷ (m.proto ++ formats_text m.formats)) w.type,
        fields-word (port_digits m) (m.proto ++ formats_text m.formats)
            (ports-IsWord m.port m.port_count w.port w.port_count),
        fields-formats m.proto m.formats w.proto w.formats,
        ports-parts m.port m.port_count w.port w.port_count,
        atoi-int_text m.port w.port,
      )
      refl

formats_text-IsValue : (formats : List Text) → All IsWord formats → IsValue (formats_text formats)
formats_text-IsValue [] w = (tt, tt)
formats_text-IsValue (f ∷ formats) (w, ws) =
    let rest =
      value-join f (formats_text formats) (unspaced-IsValue f w.1)
        (formats_text-IsValue formats ws) in
    ((refl, rest.0), (refl, rest.1))

pub media_text-IsValue : (m : Media) → IsMedia m → IsValue (media_text m)
media_text-IsValue m w =
    value-spaced m.type (port_digits m ++ b' ' ∷ (m.proto ++ formats_text m.formats)) w.type (
      value-spaced (port_digits m) (m.proto ++ formats_text m.formats)
        (ports-IsWord m.port m.port_count w.port w.port_count)
        (value-join m.proto (formats_text m.formats) (unspaced-IsValue m.proto w.proto.1)
          (formats_text-IsValue m.formats w.formats)))
