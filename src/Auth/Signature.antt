-- ===== src/Auth/Signature.antt =====
-- The Authorization that a client writes, and how pkg/auth/digest.go reads it.
use funsip.Base.{◌≡◌, refl, ◌∙◌, ap, true, false, List, [], ◌∷◌, ◌++◌, some, All}
use funsip.Text.{Text, lit, is_empty, is_space, trim_space, trim_right, split_n2, cut}
use funsip.Text.Words.{Lacks, trim_right-join, trim_space-unspaced}
use funsip.Auth.{
  Credentials, parse_authorization, params_from, split_params, put_params, no_credentials, unquoted,
  is_quote,
}
use funsip.Auth.Params.{
  all_plain, params_from-param, params_from-plain, params_from-last, trim_right-none,
  trim_left-none, unquoted-quoted,
}

-- What a client fills in. The values stand between quotes, but for the nonce count.
pub record Signature : Type 0 where
  pub user : Text
  pub realm : Text
  pub nonce : Text
  pub uri : Text
  pub response : Text
  pub cnonce : Text
  pub nc : Text

abbrev closing : Signature → Text
closing g = lit " qop=auth," ++ (lit " nc=" ++ g.nc)

abbrev quoted : Text → Text → Text → Text
quoted key value rest = key ++ b'"' ∷ (value ++ b'"' ∷ b',' ∷ rest)

abbrev from_cnonce : Signature → Text
from_cnonce g = quoted (lit " cnonce=") g.cnonce (closing g)

abbrev from_response : Signature → Text
from_response g = quoted (lit " response=") g.response (from_cnonce g)

abbrev from_uri : Signature → Text
from_uri g = quoted (lit " uri=") g.uri (from_response g)

abbrev from_nonce : Signature → Text
from_nonce g = quoted (lit " nonce=") g.nonce (from_uri g)

abbrev from_realm : Signature → Text
from_realm g = quoted (lit " realm=") g.realm (from_nonce g)

abbrev fields_of : Signature → Text
fields_of g = quoted (lit "username=") g.user (from_realm g)

-- The value of the header (RFC 2617, section 3.2.2).
abbrev pub signature_text : Signature → Text
signature_text g = lit "Digest " ++ fields_of g

-- The values can be written so: no quotes inside, and a nonce count that is one plain word.
pub record IsWritable (g : Signature) : Type 0 where
  pub user : Lacks b'"' g.user
  pub realm : Lacks b'"' g.realm
  pub nonce : Lacks b'"' g.nonce
  pub uri : Lacks b'"' g.uri
  pub response : Lacks b'"' g.response
  pub cnonce : Lacks b'"' g.cnonce
  pub nc_unquoted : Lacks b'"' g.nc
  pub nc_unspaced : All (λ c. is_space c ≡ false) g.nc
  pub nc_plain : all_plain g.nc ≡ true

abbrev param_of : Text → Text → Text
param_of key value = key ++ b'"' ∷ (value ++ b'"' ∷ [])

param_then :
    (k v s : Text) (ps : List Text)
    → all_plain k ≡ true
    → Lacks b'"' v
    → params_from false [] s ≡ ps
    → params_from false [] (quoted k v s) ≡ param_of k v ∷ ps
param_then k v s ps plain h e = params_from-param k v s plain h ∙ ap (λ qs. param_of k v ∷ qs) e

closing_params :
    (g : Signature)
    → IsWritable g
    → params_from false [] (closing g) ≡ lit " qop=auth" ∷ (lit " nc=" ++ g.nc) ∷ []
closing_params g h =
    params_from-plain [] (lit " qop=auth") (b',' ∷ (lit " nc=" ++ g.nc)) refl
    ∙ ap (λ ps. lit " qop=auth" ∷ ps) (params_from-last b' ' (lit "nc=" ++ g.nc) h.nc_plain)

module _ (g : Signature) where
  abbrev cnonce_params : List Text
  cnonce_params = param_of (lit " cnonce=") g.cnonce ∷ lit " qop=auth" ∷ (lit " nc=" ++ g.nc) ∷ []

  abbrev response_params : List Text
  response_params = param_of (lit " response=") g.response ∷ cnonce_params

  abbrev uri_params : List Text
  uri_params = param_of (lit " uri=") g.uri ∷ response_params

  abbrev nonce_params : List Text
  nonce_params = param_of (lit " nonce=") g.nonce ∷ uri_params

  abbrev realm_params : List Text
  realm_params = param_of (lit " realm=") g.realm ∷ nonce_params

  split_params-signature :
      IsWritable g → split_params (fields_of g) ≡ param_of (lit "username=") g.user ∷ realm_params
  unfolding split_params
  split_params-signature h =
      param_then (lit "username=") g.user (from_realm g) realm_params refl h.user (
        param_then (lit " realm=") g.realm (from_nonce g) nonce_params refl h.realm (
          param_then (lit " nonce=") g.nonce (from_uri g) uri_params refl h.nonce (
            param_then (lit " uri=") g.uri (from_response g) response_params refl h.uri (
              param_then (lit " response=") g.response (from_cnonce g) cnonce_params refl h.response
                (param_then (lit " cnonce=") g.cnonce (closing g) _ refl h.cnonce
                  (closing_params g h))))))

-- The credentials that were meant.
abbrev pub credentials_of : Signature → Credentials
credentials_of g = record {
  username = g.user;
  realm = g.realm;
  nonce = g.nonce;
  uri = g.uri;
  response = g.response;
  algorithm = [];
  opaque_ = [];
  qop = lit "auth";
  nc = g.nc;
  cnonce = g.cnonce;
}

unquoted-nc : (g : Signature) → IsWritable g → unquoted g.nc ≡ g.nc
unquoted-nc g h =
    rw
      (
        trim_space-unspaced g.nc h.nc_unspaced,
        trim_left-none is_quote g.nc h.nc_unquoted,
        trim_right-none is_quote g.nc h.nc_unquoted,
      )
      refl

read_params :
    (g : Signature)
    → IsWritable g
    → put_params (split_params (fields_of g)) no_credentials ≡ credentials_of g
unfolding split_n2 cut trim_space
read_params g h =
    rw
      (
        split_params-signature g h,
        unquoted-quoted g.user h.user,
        unquoted-quoted g.realm h.realm,
        unquoted-quoted g.nonce h.nonce,
        unquoted-quoted g.uri h.uri,
        unquoted-quoted g.response h.response,
        unquoted-quoted g.cnonce h.cnonce,
        unquoted-nc g h,
      )
      refl

quoted_trimmed :
    (k v s : Text)
    → is_empty s ≡ false
    → trim_right is_space s ≡ s
    → trim_right is_space (quoted k v s) ≡ quoted k v s
quoted_trimmed k v s full e = trim_right-join is_space k (b'"' ∷ (v ++ b'"' ∷ b',' ∷ s)) refl (
    trim_right-join is_space (b'"' ∷ v) (b'"' ∷ b',' ∷ s) refl
      (trim_right-join is_space (b'"' ∷ b',' ∷ []) s full e))

trimmed : (g : Signature) → IsWritable g → trim_space (signature_text g) ≡ signature_text g
unfolding trim_space
trimmed g h = trim_right-join is_space (lit "Digest ") (fields_of g) refl (
    quoted_trimmed (lit "username=") g.user (from_realm g) refl (
      quoted_trimmed (lit " realm=") g.realm (from_nonce g) refl (
        quoted_trimmed (lit " nonce=") g.nonce (from_uri g) refl (
          quoted_trimmed (lit " uri=") g.uri (from_response g) refl (
            quoted_trimmed (lit " response=") g.response (from_cnonce g) refl (
              quoted_trimmed (lit " cnonce=") g.cnonce (closing g) refl (
                trim_right-join is_space (lit " qop=auth, nc") (lit "=" ++ g.nc) refl
                  (trim_right-none is_space (lit "=" ++ g.nc) (refl, h.nc_unspaced)))))))))

pub parse_authorization-signature :
    (g : Signature)
    → IsWritable g
    → parse_authorization (signature_text g) ≡ some (credentials_of g)
unfolding parse_authorization
parse_authorization-signature g h = rw (trimmed g h, read_params g h) refl
