-- ===== src/Auth.antt =====
-- pkg/auth/digest.go: digest authentication. MD5 and the database of subscribers are parameters: the
-- hash of a text in hexadecimal, and GetSubscriber, which fails, finds nobody, or finds a subscriber with
-- an HA1.
pub mod Params
pub mod Signature
pub mod Signed
use funsip.Base.{
  ℕ, ◌==◌, Bool, true, false, not, ◌||◌, ◌&&◌, Option, none, some, List, [], ◌∷◌, ◌++◌,
  if◌then◌else◌,
}
use funsip.Text.{
  Text, lit, text_eq, is_empty, trim_space, trim_left, trim_right, has_prefix, split_n2,
}
use funsip.Sip.Headers.{get}
use funsip.Sip.Message.{Message, cseq_method}

pub record Challenge : Type 0 where
  pub realm : Text
  pub nonce : Text
  pub opaque_ : Text
  pub stale : Bool

-- String
unfoldable pub challenge_text : Challenge → Text
challenge_text c =
    lit "Digest realm=\""
    ++ (c.realm
        ++ (lit "\", nonce=\""
            ++ (c.nonce
                ++ (lit "\", opaque=\""
                    ++ (c.opaque_
                        ++ (lit "\", algorithm=MD5, qop=\"auth\""
                            ++ (if c.stale then lit ", stale=true" else [])))))))

pub record Credentials : Type 0 where
  pub username : Text
  pub realm : Text
  pub nonce : Text
  pub uri : Text
  pub response : Text
  pub algorithm : Text
  pub opaque_ : Text
  pub qop : Text
  pub nc : Text
  pub cnonce : Text

abbrev pub no_credentials : Credentials
no_credentials = record {
  username = [];
  realm = [];
  nonce = [];
  uri = [];
  response = [];
  algorithm = [];
  opaque_ = [];
  qop = [];
  nc = [];
  cnonce = [];
}

abbrev last_param : Text → List Text
last_param [] = []
last_param (c ∷ w) = (c ∷ w) ∷ []

-- splitParams: `w` is what is read of the current parameter.
abbrev pub params_from : Bool → Text → Text → List Text
params_from quoted w [] = last_param w
params_from quoted w (c ∷ s) =
    let turned = params_from (not quoted) (w ++ c ∷ []) s in
    let next = params_from quoted [] s in
    let on = params_from quoted (w ++ c ∷ []) s in
    if c == b'"' then turned else if c == b',' && not quoted then w ∷ next else on

unfoldable pub split_params : Text → List Text
split_params s = params_from false [] s

-- The switch of ParseAuthorization
abbrev pub put_credential : Text → Text → Credentials → Credentials
put_credential key v c =
    if text_eq key (lit "username")
    then record c { username = v }
    else if text_eq key (lit "realm")
    then record c { realm = v }
    else if text_eq key (lit "nonce")
    then record c { nonce = v }
    else if text_eq key (lit "uri")
    then record c { uri = v }
    else if text_eq key (lit "response")
    then record c { response = v }
    else if text_eq key (lit "algorithm")
    then record c { algorithm = v }
    else if text_eq key (lit "opaque")
    then record c { opaque_ = v }
    else if text_eq key (lit "qop")
    then record c { qop = v }
    else if text_eq key (lit "nc")
    then record c { nc = v }
    else if text_eq key (lit "cnonce")
    then record c { cnonce = v }
    else c

abbrev is_quote : ℕ → Bool
is_quote c = c == b'"'

abbrev pub unquoted : Text → Text
unquoted s = trim_right is_quote (trim_left is_quote (trim_space s))

abbrev pub put_param : List Text → Credentials → Credentials
put_param (k ∷ v ∷ []) c = put_credential (trim_space k) (unquoted v) c
put_param _ c = c

abbrev pub put_params : List Text → Credentials → Credentials
put_params [] c = c
put_params (p ∷ ps) c = put_params ps (put_param (split_n2 b'=' p) c)

abbrev behind : Text → Text → Text
behind [] s = s
behind (d ∷ t) [] = []
behind (d ∷ t) (c ∷ s) = behind t s

-- ParseAuthorization
unfoldable pub parse_authorization : Text → Option Credentials
unfolding split_params
parse_authorization s =
    let trimmed = trim_space s in
    if has_prefix trimmed (lit "Digest ")
    then some (put_params (split_params (behind (lit "Digest ") trimmed)) no_credentials)
    else none

pub data Lookup : Type 0 where
  lookup_failed nobody : Lookup
  subscriber : Text → Lookup

pub data AuthResult : Type 0 where
  accepted rejected lookup_error : AuthResult

abbrev joined : Text → List Text → Text
joined first [] = first
joined first (t ∷ ts) = first ++ b':' ∷ joined t ts

abbrev pub method_of : Message → Text
method_of req = if req.is_request then req.method else cseq_method req

abbrev pub authorization_of : Message → Text
authorization_of req =
    if is_empty (get req.headers (lit "Authorization"))
    then get req.headers (lit "Proxy-Authorization")
    else get req.headers (lit "Authorization")

module _ (md5hex : Text → Text) where
  -- computeResponse
  unfoldable pub compute_response : Text → Text → Text → Text → Text → Text → Text → Text
  compute_response ha1 nonce nc cnonce qop method uri =
      let ha2 = md5hex (joined method (uri ∷ [])) in
      if text_eq qop (lit "auth") || text_eq qop (lit "auth-int")
      then md5hex (joined ha1 (nonce ∷ nc ∷ cnonce ∷ qop ∷ ha2 ∷ []))
      else md5hex (joined ha1 (nonce ∷ ha2 ∷ []))

  -- ComputeHA1
  unfoldable pub compute_ha1 : Text → Text → Text → Text
  compute_ha1 username realm password = md5hex (joined username (realm ∷ password ∷ []))

  abbrev pub check_against : Lookup → Credentials → Message → AuthResult
  check_against lookup_failed creds req = lookup_error
  check_against nobody creds req = rejected
  check_against (subscriber ha1) creds req =
      if text_eq
        (compute_response ha1 creds.nonce creds.nc creds.cnonce creds.qop (method_of req) creds.uri)
        creds.response
      then accepted
      else rejected

  module _ (get_subscriber : Text → Text → Lookup) where
    abbrev pub with_credentials : Option Credentials → Message → AuthResult
    with_credentials none req = rejected
    with_credentials (some creds) req =
        check_against (get_subscriber creds.username creds.realm) creds req

    -- Authenticate. The code picks a realm from its argument and its own, and then does not use it.
    unfoldable pub authenticate : Message → Text → AuthResult
    unfolding parse_authorization compute_response
    authenticate req realm =
        if is_empty (authorization_of req)
        then rejected
        else with_credentials (parse_authorization (authorization_of req)) req

-- CreateChallenge, with the two values that generateNonce draws
unfoldable pub create_challenge : Text → Text → Text → Text → Challenge
create_challenge own realm nonce opaque_value = record {
  realm = if is_empty realm then own else realm;
  nonce = nonce;
  opaque_ = opaque_value;
  stale = false;
}
