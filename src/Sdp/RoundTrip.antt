-- ===== src/Sdp/RoundTrip.antt =====
-- Parse of pkg/sdp/sdp.go reads back what Bytes writes.
use funsip.Base.{◌≡◌, refl, ◌∙◌, sym, Bool, true, false, List, [], ◌∷◌, ◌++◌, All}
use mathlib.Core.Bool.{true≢false}
use funsip.Text.{Text, lit, is_empty}
use funsip.Sdp.Data.{Sdp, new_sdp}
use funsip.Sdp.Parser.{parse_field, parse}
use funsip.Sdp.Printer.{
  line_if, lines_each, times_lines, connection_line, attribute_lines, all_media_lines, sdp_lines,
  bytes,
}
use funsip.Sdp.Lines.{
  IsValue, parse_lines-with_ends, Reads, Reads-append, Reads-line_if, Reads-line_or,
  Reads-lines_each, IsAttribute, Reads-attribute_lines,
}
use funsip.Sdp.Medias.{IsConnection, IsSome, IsMedia}
use funsip.Sdp.MediaLines.{Reads-connection_line, Reads-all_media_lines}

abbrev has_times : List Text → Bool
has_times [] = false
has_times (t ∷ ts) = true

-- What Bytes writes as it is. Where the version, the name or the times are empty, it writes a default.
pub record IsWritable (s : Sdp) : Type 0 where
  pub version : (is_empty s.version ≡ false) × IsValue s.version
  pub origin : IsValue s.origin
  pub session_name : (is_empty s.session_name ≡ false) × IsValue s.session_name
  pub info : IsValue s.info
  pub uri : IsValue s.uri
  pub email : IsValue s.email
  pub phone : IsValue s.phone
  pub connection : IsSome IsConnection s.connection
  pub bandwidth : All IsValue s.bandwidth
  pub times : (has_times s.times ≡ true) × All IsValue s.times
  pub repeats : All IsValue s.repeats
  pub zone : IsValue s.zone
  pub key : IsValue s.key
  pub attributes : All IsAttribute s.attributes
  pub media : All IsMedia s.media

Reads-times_lines :
    (ts : List Text) (put : List Text → Sdp)
    → has_times ts ≡ true
    → All IsValue ts
    → ((us : List Text) (w : Text) → parse_field b't' w (put us) ≡ put (us ++ w ∷ []))
    → Reads (times_lines ts) (put []) (put ts)
Reads-times_lines [] put h w f = absurd (true≢false (sym h))
Reads-times_lines (t ∷ ts) put h w f = Reads-lines_each b't' (refl, refl) (t ∷ ts) [] put w f

-- The description as its first lines give it.
abbrev opening : Sdp → Sdp
opening s = record new_sdp {
  version = s.version;
  origin = s.origin;
  session_name = s.session_name;
  info = s.info;
  uri = s.uri;
  email = s.email;
  phone = s.phone;
}

abbrev later_lines : Sdp → List Text
later_lines s =
    connection_line s.connection
    ++ (lines_each b'b' s.bandwidth
        ++ (times_lines s.times
            ++ (lines_each b'r' s.repeats
                ++ (line_if b'z' s.zone
                    ++ (line_if b'k' s.key
                        ++ (attribute_lines s.attributes ++ all_media_lines s.media))))))

Reads-later_lines : (s : Sdp) → IsWritable s → Reads (later_lines s) (opening s) s
unfolding parse_field
Reads-later_lines s w =
    let s8 = record (opening s) { connection = s.connection } in
    let s9 = record s8 { bandwidth = s.bandwidth } in
    let s10 = record s9 { times = s.times } in
    let s11 = record s10 { repeats = s.repeats } in
    let s12 = record s11 { zone = s.zone } in
    let s13 = record s12 { key = s.key } in
    let s14 = record s13 { attributes = s.attributes } in
    Reads-append _ _
      (Reads-connection_line s.connection (λ o. record (opening s) { connection = o }) w.connection
        (λ c. refl))
      (Reads-append _ _
        (Reads-lines_each b'b' (refl, refl) s.bandwidth [] (λ us. record s8 { bandwidth = us })
          w.bandwidth (λ us v. refl))
        (Reads-append _ _
          (Reads-times_lines s.times (λ us. record s9 { times = us }) w.times.0 w.times.1
            (λ us v. refl))
          (Reads-append _ _
            (Reads-lines_each b'r' (refl, refl) s.repeats [] (λ us. record s10 { repeats = us })
              w.repeats (λ us v. refl))
            (Reads-append _ _
              (Reads-line_if b'z' (refl, refl) s.zone (λ v. record s11 { zone = v }) w.zone refl
                (λ v. refl))
              (Reads-append _ _
                (Reads-line_if b'k' (refl, refl) s.key (λ v. record s12 { key = v }) w.key refl
                  (λ v. refl))
                (Reads-append _ _
                  (Reads-attribute_lines s.attributes [] (λ us. record s13 { attributes = us })
                    w.attributes (λ us a. refl))
                  (Reads-all_media_lines s14 s.media [] w.media)))))))

Reads-sdp_lines : (s : Sdp) → IsWritable s → Reads (sdp_lines s) new_sdp s
unfolding parse_field sdp_lines
Reads-sdp_lines s w =
    let s1 = record new_sdp { version = s.version } in
    let s2 = record s1 { origin = s.origin } in
    let s3 = record s2 { session_name = s.session_name } in
    let s4 = record s3 { info = s.info } in
    let s5 = record s4 { uri = s.uri } in
    let s6 = record s5 { email = s.email } in
    let s7 = record s6 { phone = s.phone } in
    Reads-append _ _
      (Reads-line_or b'v' (refl, refl) (lit "0") s.version (λ v. record new_sdp { version = v })
        w.version.0 w.version.1 (λ v. refl))
      (Reads-append _ _
        (Reads-line_if b'o' (refl, refl) s.origin (λ v. record s1 { origin = v }) w.origin refl
          (λ v. refl))
        (Reads-append _ _
          (Reads-line_or b's' (refl, refl) (lit "-") s.session_name
            (λ v. record s2 { session_name = v }) w.session_name.0 w.session_name.1 (λ v. refl))
          (Reads-append _ _
            (Reads-line_if b'i' (refl, refl) s.info (λ v. record s3 { info = v }) w.info refl
              (λ v. refl))
            (Reads-append _ _
              (Reads-line_if b'u' (refl, refl) s.uri (λ v. record s4 { uri = v }) w.uri refl
                (λ v. refl))
              (Reads-append _ _
                (Reads-line_if b'e' (refl, refl) s.email (λ v. record s5 { email = v }) w.email refl
                  (λ v. refl))
                (Reads-append _ _
                  (Reads-line_if b'p' (refl, refl) s.phone (λ v. record s6 { phone = v }) w.phone
                    refl (λ v. refl))
                  (Reads-later_lines s w)))))))

-- Parsing what Bytes writes gives the description back, with its media in order, if no text in it holds
-- a line end, its version, name and times are not empty, and its words, attribute names and numbers are
-- such that they can be told apart.
pub parse-bytes : (s : Sdp) → IsWritable s → parse (bytes s) ≡ s
unfolding parse bytes
parse-bytes s w =
    let r = Reads-sdp_lines s w in parse_lines-with_ends (sdp_lines s) new_sdp r.values ∙ r.result
