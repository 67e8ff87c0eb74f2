-- ===== src/Auth/Signed.antt =====
-- Requests that a client has signed, before Authenticate of pkg/auth/digest.go.
use funsip.Base.{◌≡◌, ◌↔◌, ◌++◌}
use funsip.Text.{Text, lit}
use funsip.Sip.Message.{Message}
use funsip.Auth.{
  Lookup, lookup_failed, nobody, subscriber, AuthResult, accepted, rejected, lookup_error,
}
use funsip.Auth.Signature.{Signature}

module _ (md5hex : Text → Text) where
  -- The digest of RFC 2617, section 3.2.2.1, for qop `auth`.
  abbrev pub digest_of : Text → Text → Signature → Text
  digest_of ha1 method g = md5hex (
      ha1
      ++ (lit ":"
          ++ (g.nonce
              ++ (lit ":"
                  ++ (g.nc
                      ++ (lit ":"
                          ++ (g.cnonce
                              ++ (lit ":auth:" ++ md5hex (method ++ (lit ":" ++ g.uri))))))))))

  -- What the answer of the database makes of a request with a signature.
  abbrev pub Decides : Lookup → Text → Signature → AuthResult → Type 0
  Decides lookup_failed method g result = result ≡ lookup_error
  Decides nobody method g result = result ≡ rejected
  Decides (subscriber ha1) method g result =
      (result ≡ accepted) ↔ (g.response ≡ digest_of ha1 method g)
