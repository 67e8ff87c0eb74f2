-- ===== src/Proxy/Config.antt =====
-- The proxy of pkg/proxy/proxy.go and what surrounds it. Metrics are left out.
use funsip.Base.{
  ℕ, ◌==◌, Bool, true, false, ◌&&◌, ◌||◌, not, Option, none, some, List, [], ◌∷◌, ◌++◌,
  if◌then◌else◌,
}
use funsip.Base.Int.{ℤ, pos, negsuc}
use funsip.Text.{Text, lit, text_eq, is_empty, cut, cut_last, atoi}
use funsip.Sip.Message.{Message}
use funsip.Sip.Message.Wire.{int_text}
use funsip.Sip.Uri.{Uri}
use funsip.Sip.Via.{Via}
use funsip.Sdp.Data.{Sdp}
use funsip.Transaction.Layer.State.{Layer}

-- `rport_first` is the order in which Go visits the two parameters of the proxy's Via when it prints
-- them, which may be either.
pub record Config : Type 0 where
  pub local_ip : Text
  pub local_port : ℤ
  pub domain : Text
  pub rport_first : Bool

-- What the proxy uses of others. `lookup_host` is the first address that net.LookupHost gives, if any;
-- `anchor_answer` is, for a Call-ID with a media session, what the session makes of an answer: `none`
-- where AnchorAnswer fails.
pub record Surroundings : Type 0 where
  pub lookup_host : Text → Option Text
  pub anchor_answer : Text → Option (Sdp → Option Sdp)

pub data EventKind : Type 0 where
  auth_failed call_start call_attempt : EventKind

pub record Emitted : Type 0 where
  pub kind : EventKind
  pub about : Message
  pub code : ℤ

-- `confirmed` records the calls of confirmDialog and `emitted` the events, the last one first.
pub record World : Type 0 where
  pub layer : Layer
  pub confirmed : List Message
  pub emitted : List Emitted

abbrev pub is_zero : ℤ → Bool
is_zero (pos n) = n == 0
is_zero (negsuc n) = false

abbrev pub same_port : ℤ → ℤ → Bool
same_port (pos m) (pos n) = m == n
same_port (negsuc m) (negsuc n) = m == n
same_port _ _ = false

abbrev pub or_5060 : ℤ → ℤ
or_5060 port = if is_zero port then pos 5060 else port

abbrev pub or_udp : Text → Text
or_udp transport = if is_empty transport then lit "UDP" else transport

-- `fmt.Sprintf("%s:%d", host, port)`
abbrev pub address_of : Text → ℤ → Text
address_of host port = host ++ b':' ∷ int_text port

abbrev pub has_byte : ℕ → Text → Bool
has_byte b [] = false
has_byte b (c ∷ s) = c == b || has_byte b s

abbrev bracketed : Option (Text × Text) → Option (Text × Text)
bracketed none = none
bracketed (some (host, [])) = none
bracketed (some (host, (c ∷ port))) =
    if c == b':' && not (has_byte b':' port || has_byte b'[' (host ++ port) || has_byte b']' port)
    then some (host, port)
    else none

abbrev plain : Text → Option (Text × Text) → Option (Text × Text)
plain s none = none
plain s (some (host, port)) =
    if has_byte b':' host || has_byte b'[' s || has_byte b']' s then none else some (host, port)

-- net.SplitHostPort; `none` is its error.
unfoldable pub split_host_port : Text → Option (Text × Text)
split_host_port [] = none
split_host_port (c ∷ s) =
    if c == b'[' then bracketed (cut b']' s) else plain (c ∷ s) (cut_last b':' (c ∷ s))

abbrev pub or_text : Option Text → Text → Text
or_text none s = s
or_text (some t) s = t

module _ (around : Surroundings) where
  abbrev first_address : Text → ℤ → Text × ℤ
  first_address host port = (or_text (around.lookup_host host) host, port)

  abbrev resolved : Text → Option (Text × Text) → Text × ℤ
  resolved dst none = first_address dst (pos 5060)
  resolved dst (some (host, port)) = first_address host (or_5060 (atoi port).0)

  -- resolveDestination
  unfoldable pub resolve_destination : Text → Text × ℤ
  unfolding split_host_port
  resolve_destination dst = resolved dst (split_host_port dst)

abbrev pub own_params : Bool → Text → List (Text × Text)
own_params true branch = (lit "rport", []) ∷ (lit "branch", branch) ∷ []
own_params false branch = (lit "branch", branch) ∷ (lit "rport", []) ∷ []

module _ (cfg : Config) where
  -- The Via that the proxy puts on top.
  abbrev pub own_via : Text → Text → Via
  own_via transport branch = record {
    transport = transport;
    host = cfg.local_ip;
    port = cfg.local_port;
    params = own_params cfg.rport_first branch;
  }

  abbrev pub record_route : Text
  record_route = lit "<sip:" ++ (address_of cfg.local_ip cfg.local_port ++ lit ";lr>")

  -- isOurRoute
  unfoldable pub is_our_route : Uri → Bool
  is_our_route uri =
      if text_eq uri.host cfg.local_ip || text_eq uri.host cfg.domain
      then same_port (or_5060 uri.port) cfg.local_port
      else false
