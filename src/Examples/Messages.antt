-- ===== src/Examples/Messages.antt =====
-- The messages and times of the examples.
use funsip.Base.{none}
use funsip.Base.Int.{pos}
use funsip.Text.{Text, lit}
use funsip.Sip.Headers.{Headers, new_headers, set, add}
use funsip.Sip.Message.{Message, new_request, new_response}

abbrev pub request_headers : Text → Headers
request_headers cseq =
    set
      (set
        (add (add new_headers (lit "Via") (lit "SIP/2.0/UDP 10.0.0.1:5070;branch=z9hG4bKa"))
          (lit "Via") (lit "SIP/2.0/UDP 10.0.0.2;branch=z9hG4bKb"))
        (lit "CSeq") cseq)
      (lit "To") (lit "<sip:bob@example.com>")

abbrev pub invite : Message
invite = record (new_request (lit "INVITE") none) {
  headers = request_headers (lit "1 INVITE");
  source_ip = lit "10.0.0.1";
  source_port = pos 5070;
  transport = lit "UDP";
}

abbrev pub options : Message
options = record (new_request (lit "OPTIONS") none) {
  headers = request_headers (lit "2 OPTIONS");
  source_ip = lit "10.0.0.1";
  source_port = pos 5070;
  transport = lit "TCP";
}

abbrev pub ringing : Message
ringing = new_response (pos 180) (lit "Ringing")

abbrev pub ok_response : Message
ok_response = new_response (pos 200) (lit "OK")

abbrev pub busy : Message
busy = new_response (pos 486) (lit "Busy Here")
