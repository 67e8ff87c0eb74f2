-- ===== src/Audio/Answer.antt =====
-- PlayAudio and callerRTPDest of pkg/proxy/proxy.go. ParseIP is a parameter.
use funsip.Base.{
  ℕ, ◌+◌, ◌-◌, ◌/◌, ◌%◌, ◌==◌, Bool, not, ◌||◌, Option, none, some, List, [], ◌∷◌, ◌++◌, length,
  update, if◌then◌else◌, ltb, zero, suc,
}
use funsip.Base.Int.{ℤ, pos}
use funsip.Text.{Text, lit, text_eq, is_empty, itoa, has_prefix}
use funsip.Sip.Headers.{get, set}
use funsip.Sip.Message.{Message, create_response, call_id}
use funsip.Sdp.Data.{Media, Connection}
use funsip.Sdp.Parser.{parse}
use funsip.Transaction.Layer.Respond.{respond_to_request}
use funsip.Proxy.Config.{Config, World, call_start, is_zero, address_of}
use funsip.Proxy.Forward.{on_layer}
use funsip.Audio.Player.{UdpAddr, PlaySession, set_destination, start, sdp_body}
use funsip.Audio.Plays.{
  Answers, OpenError, Plays, Opening, not_opened, opened_at, open_waits, open_session,
}

abbrev pub address_or : Text → Option Connection → Text
address_or session_addr none = session_addr
address_or session_addr (some c) = c.address

module _ (parse_ip : Text → Option (List ℕ)) where
  abbrev pub first_some : Option (List ℕ) → ℤ → Option UdpAddr → Option UdpAddr
  first_some none port later = later
  first_some (some ip) port later = some (record { ip = ip; port = port })

  -- The loop over the media
  abbrev pub audio_dest : Text → List Media → Option UdpAddr
  audio_dest session_addr [] = none
  audio_dest session_addr (m ∷ rest) =
      let later = audio_dest session_addr rest in
      if not (text_eq m.type (lit "audio")) || is_zero m.port
      then later
      else first_some (parse_ip (address_or session_addr m.connection)) m.port later

  -- callerRTPDest
  unfoldable pub caller_rtp_dest : Text → Option UdpAddr
  caller_rtp_dest body =
      let parsed = parse body in
      if is_empty body then none else audio_dest (address_or [] parsed.connection) parsed.media

-- strings.Contains
abbrev pub contains : Text → Text → Bool
contains part [] = is_empty part
contains part (c ∷ s) = has_prefix part (c ∷ s) || contains part s

abbrev hex_digit : ℕ → ℕ
hex_digit d = if ltb d 10 then b'0' + d else b'a' + (d - 10)

-- The digits of `%x`, which are at most 8 for 32 bits.
abbrev hex_digits : ℕ → ℕ → Text → Text
hex_digits zero n later = later
hex_digits (suc fuel) n later =
    let digits = hex_digit (n % 16) ∷ later in
    let more = hex_digits fuel (n / 16) digits in if n / 16 == 0 then digits else more

abbrev pub hex : ℕ → Text
hex n = hex_digits 8 n []

-- The To header with a tag.
abbrev pub with_to_tag : ℕ → Message → Message
with_to_tag ssrc resp =
    let to = get resp.headers (lit "To") in
    if contains (lit ";tag=") to then resp else record resp {
      headers = set resp.headers (lit "To") (to ++ (lit ";tag=" ++ (lit "funsip-" ++ hex ssrc)));
    }

abbrev pub with_answer : Config → Text → Message → Message
with_answer cfg body resp = record resp {
  body = body;
  headers =
      set
        (set (set resp.headers (lit "Content-Type") (lit "application/sdp")) (lit "Content-Length")
          (itoa (length body)))
        (lit "Contact") (lit "<sip:funsip@" ++ (address_of cfg.local_ip cfg.local_port ++ lit ">"));
}

-- The 200 that answers the call, at the time t.
unfoldable pub ok_response : Config → ℕ → PlaySession → Message → Message
unfolding sdp_body
ok_response cfg t s req =
    with_answer cfg (sdp_body t s) (with_to_tag s.ssrc (create_response req (pos 200) (lit "OK")))

abbrev respond : Message → Message → World → World
respond req resp w = on_layer (respond_to_request req resp) w

-- What the goroutine of PlayAudio does once it has rung long enough, with the session that it starts.
unfoldable pub answer_call : Config → ℕ → PlaySession → Message → World → PlaySession × World
unfolding ok_response
answer_call cfg t s req w =
    let answered = respond req (ok_response cfg t s req) w in
    (
      start s,
      record answered {
        emitted = record { kind = call_start; about = req; code = pos 200 } ∷ answered.emitted;
      },
    )

pub data PlayError : Type 0 where
  only_invite : PlayError
  open_audio : OpenError → PlayError

abbrev to_dest : Option UdpAddr → PlaySession → PlaySession
to_dest none s = s
to_dest (some addr) s = set_destination addr s

-- How PlayAudio ends: it comes back, or it waits in Open.
pub data Playing : Type 0 where
  played : Option PlayError → Plays → World → Playing
  play_waits : Plays → World → Playing

abbrev ring : (Text → Option (List ℕ)) → Message → Opening → Plays → World → Playing
ring parse_ip req (not_opened e) m w = played (some (open_audio e)) m w
ring parse_ip req (open_waits after) m w = play_waits after w
ring parse_ip req (opened_at i after) m w =
    played none
      (record after { heap = update (to_dest (caller_rtp_dest parse_ip req.body)) i after.heap })
      (respond req (create_response req (pos 180) (lit "Ringing")) w)

-- PlayAudio up to the start of its goroutine.
unfoldable pub play_audio :
    (Text → Option (List ℕ)) → Answers → Message → Text → Plays → World → Playing
unfolding caller_rtp_dest open_session
play_audio parse_ip a req filename m w =
    let rung = ring parse_ip req (open_session a (call_id req) filename m) m w in
    if not (text_eq req.method (lit "INVITE")) then played (some only_invite) m w else rung
