-- ===== src/Examples/AuthRuns.antt =====
-- Digest authentication (pkg/auth/digest.go) on a concrete input.
use funsip.Base.{none, ◌∷◌, ◌++◌}
use funsip.Text.{Text, lit}
use funsip.Sip.Headers.{new_headers, set}
use funsip.Sip.Message.{Message, new_request}
use funsip.Auth.{Lookup, subscriber}
use funsip.Auth.Signature.{Signature, signature_text}

-- In place of a hash, the text itself in brackets
abbrev bracket : Text → Text
bracket s = b'[' ∷ (s ++ lit "]")

abbrev any_subscriber : Text → Text → Lookup
any_subscriber user realm = subscriber (user ++ b'@' ∷ realm)

abbrev signature : Signature
signature = record {
  user = lit "al, jr";
  realm = lit "r";
  nonce = lit "n=1";
  uri = lit "u";
  response = lit "[al, jr@r:n=1:00000001:c:auth:[REGISTER:u]]";
  cnonce = lit "c";
  nc = lit "00000001";
}

abbrev signed : Message
signed = record (new_request (lit "REGISTER") none) {
  headers = set new_headers (lit "Authorization") (signature_text signature);
}
