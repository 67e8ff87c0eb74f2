-- ===== src/Transport/Framing.antt =====
-- readSIPMessage of pkg/transport/tcp.go. The reader is the list of the bytes that are still to come;
-- `none` is an error, the end of the stream included.
use funsip.Base.{zero, ℕ, suc, ◌==◌, Option, none, some, List, [], ◌∷◌, ◌++◌, if◌then◌else◌}
use funsip.Base.Int.{ℤ, pos}
use funsip.Text.{Text, lit, is_empty, to_lower, trim_space, has_prefix, split_n2, atoi, AtoiError}

abbrev number_if : ℤ × Option AtoiError → Option ℤ
number_if (n, none) = some n
number_if (n, some e) = none

abbrev pub behind_colon : List Text → Option ℤ
behind_colon (name ∷ value ∷ []) = number_if (atoi (trim_space value))
behind_colon _ = none

-- What a trimmed line says of the length, if it is a line of that header.
abbrev pub length_in : Text → Option ℤ
length_in l =
    if has_prefix (to_lower l) (lit "content-length") then behind_colon (split_n2 b':' l) else none

-- contentLength with foundCL: the first length that is found counts.
abbrev pub first_found : Option ℤ → Text → Option ℤ
first_found (some n) l = some n
first_found none l = length_in l

abbrev pub cons_taken : ℕ → Option (Text × Text) → Option (Text × Text)
cons_taken c none = none
cons_taken c (some (taken, rest)) = some (c ∷ taken, rest)

-- io.ReadFull of `n` bytes, and what is left
abbrev pub read_full : ℕ → Text → Option (Text × Text)
read_full zero s = some ([], s)
read_full (suc n) [] = none
read_full (suc n) (c ∷ s) = cons_taken c (read_full n s)

abbrev pub with_body : Text → Option (Text × Text) → Option (Text × Text)
with_body head none = none
with_body head (some (body, rest)) = some (head ++ body, rest)

abbrev pub read_body : Text → Option ℤ → Text → Option (Text × Text)
read_body head (some (pos n)) s = with_body head (read_full n s)
read_body head _ s = some (head, s)

-- The loop over the header lines; `w` is what is read of the current line.
abbrev pub read_lines : Text → Text → Option ℤ → Text → Option (Text × Text)
read_lines head w len [] = none
read_lines head w len (c ∷ s) =
    let l = w ++ c ∷ [] in
    let trimmed = trim_space l in
    let now = first_found len trimmed in
    let next = read_lines (head ++ l) [] now s in
    let on = read_lines head l len s in
    if c == 10 then (if is_empty trimmed then read_body (head ++ l) now s else next) else on

-- readSIPMessage: the message, and what is left of the stream.
unfoldable pub read_sip_message : Text → Option (Text × Text)
read_sip_message s = read_lines [] [] none s
