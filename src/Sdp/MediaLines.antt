-- ===== src/Sdp/MediaLines.antt =====
-- Reading the lines that writeMedia of pkg/sdp/sdp.go writes, media by media.
use funsip.Base.{◌≡◌, refl, ◌∙◌, sym, ap, true, Option, none, some, List, [], ◌∷◌, ◌++◌, All}
use mathlib.Core.List.{append_assoc, append-nil}
use funsip.Sdp.Data.{Connection, Media, Sdp}
use funsip.Sdp.Parser.{update_last, has_media, here, put_connection, put_media, parse_field}
use funsip.Sdp.Printer.{
  line_if, lines_each, connection_text, connection_line, media_text, attribute_lines, media_lines,
  all_media_lines,
}
use funsip.Sdp.Lines.{
  Reads, Reads-append, Reads-line, Reads-line_if, Reads-lines_each, Reads-attribute_lines,
}
use funsip.Sdp.Medias.{
  IsConnection, connection_text-IsValue, parse_connection-text, IsSome, IsMedia, bare,
  parse_media-text, media_text-IsValue,
}

pub Reads-connection_line :
    (o : Option Connection) (put : Option Connection → Sdp)
    → IsSome IsConnection o
    → ((c : Connection) → put_connection (some c) (put none) ≡ put (some c))
    → Reads (connection_line o) (put none) (put o)
unfolding parse_field
Reads-connection_line none put w f = record { values = tt; result = refl }
Reads-connection_line (some c) put w f =
    Reads-line b'c' (refl, refl) (connection_text c) (connection_text-IsValue c w)
      (ap (λ r. put_connection r (put none)) (parse_connection-text c w) ∙ f c)

-- The description whose last media is `m`.
module _ (s : Sdp) (before : List Media) where
  abbrev ending_in : Media → Sdp
  ending_in m = record s { media = before ++ m ∷ [] }

  has_media-snoc : (ms : List Media) (m : Media) → has_media (ms ++ m ∷ []) ≡ true
  has_media-snoc [] m = refl
  has_media-snoc (x ∷ ms) m = refl

  update_last-snoc :
      (f : Media → Media) (ms : List Media) (m : Media)
      → update_last f (ms ++ m ∷ []) ≡ ms ++ f m ∷ []
  update_last-snoc f [] m = refl
  update_last-snoc f (x ∷ []) m = refl
  update_last-snoc f (x ∷ y ∷ ms) m = ap (λ t. x ∷ t) (update_last-snoc f (y ∷ ms) m)

  here-last :
      (f : Sdp → Sdp) (g : Media → Media) (m : Media) → here f g (ending_in m) ≡ ending_in (g m)
  here-last f g m = simp (has_media-snoc before m, update_last-snoc g before m)

  Reads-media_lines :
      (m : Media) → IsMedia m → Reads (media_lines m) (record s { media = before }) (ending_in m)
  unfolding parse_field media_lines connection_text
  Reads-media_lines m w =
      let with_info = record (bare m) { info = m.info } in
      let with_connection = record with_info { connection = m.connection } in
      let with_bandwidth = record with_connection { bandwidth = m.bandwidth } in
      let with_key = record with_bandwidth { key = m.key } in
      Reads-append _ _
        (Reads-line b'm' (refl, refl) (media_text m) (media_text-IsValue m w)
          (ap (λ r. put_media r (record s { media = before })) (parse_media-text m w)))
        (Reads-append (line_if b'i' m.info) _
          (Reads-line_if b'i' (refl, refl) m.info (λ v. ending_in (record (bare m) { info = v }))
            w.info refl
            (λ v. here-last (λ t. record t { info = v }) (λ n. record n { info = v }) (bare m)))
          (Reads-append (connection_line m.connection) _
            (Reads-connection_line m.connection
              (λ o. ending_in (record with_info { connection = o })) w.connection
              (λ c.
                here-last (λ t. record t { connection = some c })
                  (λ n. record n { connection = some c }) with_info))
            (Reads-append (lines_each b'b' m.bandwidth) _
              (Reads-lines_each b'b' (refl, refl) m.bandwidth []
                (λ us. ending_in (record with_connection { bandwidth = us })) w.bandwidth
                (λ us v.
                  here-last (λ t. record t { bandwidth = t.bandwidth ++ v ∷ [] })
                    (λ n. record n { bandwidth = n.bandwidth ++ v ∷ [] })
                    (record with_connection { bandwidth = us })))
              (Reads-append (line_if b'k' m.key) (attribute_lines m.attributes)
                (Reads-line_if b'k' (refl, refl) m.key
                  (λ v. ending_in (record with_bandwidth { key = v })) w.key refl
                  (λ v.
                    here-last (λ t. record t { key = v }) (λ n. record n { key = v })
                      with_bandwidth))
                (Reads-attribute_lines m.attributes []
                  (λ us. ending_in (record with_key { attributes = us })) w.attributes
                  (λ us a.
                    here-last (λ t. record t { attributes = t.attributes ++ a ∷ [] })
                      (λ n. record n { attributes = n.attributes ++ a ∷ [] })
                      (record with_key { attributes = us })))))))

pub Reads-all_media_lines :
    (s : Sdp) (media before : List Media)
    → All IsMedia media
    → Reads
        (all_media_lines media)
        (record s { media = before })
        (record s { media = before ++ media })
Reads-all_media_lines s [] before w = record {
  values = tt;
  result = ap (λ ms. record s { media = ms }) (sym (append-nil before));
}
Reads-all_media_lines s (m ∷ media) before (w, ws) =
    let rest =
      Reads-append (media_lines m) (all_media_lines media) (Reads-media_lines s before m w)
        (Reads-all_media_lines s media (before ++ m ∷ []) ws) in
    record {
      values = rest.values;
      result =
          rest.result ∙ ap (λ ms. record s { media = ms }) (append_assoc before (m ∷ []) media);
    }
