-- ===== src/Transaction/Keys.antt =====
-- The types and keys of pkg/transaction/transaction.go.
use funsip.Base.{Bool, true, false, Option, none, some, [], ◌∷◌, ◌++◌, if◌then◌else◌}
use funsip.Text.{Text, lit, text_eq, has_prefix}
use funsip.Sip.Via.{Via, branch, sent_by}
use funsip.Sip.Message.{Message, top_via, cseq_method}

pub data State : Type 0 where
  trying calling proceeding completed confirmed terminated : State

pub data TxType : Type 0 where
  ict nict ist nist : TxType

unfoldable pub state_text : State → Text
state_text trying = lit "Trying"
state_text calling = lit "Calling"
state_text proceeding = lit "Proceeding"
state_text completed = lit "Completed"
state_text confirmed = lit "Confirmed"
state_text terminated = lit "Terminated"

unfoldable pub type_text : TxType → Text
type_text ict = lit "ICT"
type_text nict = lit "NICT"
type_text ist = lit "IST"
type_text nist = lit "NIST"

abbrev pub is_terminated : State → Bool
is_terminated terminated = true
is_terminated _ = false

abbrev pub is_proceeding : State → Bool
is_proceeding proceeding = true
is_proceeding _ = false

abbrev pub is_ict : TxType → Bool
is_ict ict = true
is_ict _ = false

abbrev pub is_ist : TxType → Bool
is_ist ist = true
is_ist _ = false

pub record Key : Type 0 where
  pub branch : Text
  pub method : Text
  pub sent_by : Text
  pub is_client : Bool

-- Key.String
unfoldable pub key_text : Key → Text
key_text k =
    (if k.is_client then lit "client" else lit "server")
    ++ b':' ∷ (k.method ++ b':' ∷ (k.branch ++ b':' ∷ k.sent_by))

abbrev pub empty_key : Key
empty_key = record { branch = []; method = []; sent_by = []; is_client = false }

abbrev key_of_via : Text → Bool → Option Via → Key
key_of_via method client none = empty_key
key_of_via method client (some v) = record {
  branch = branch v;
  method = method;
  sent_by = sent_by v;
  is_client = client;
}

-- An ACK belongs to the transaction of its INVITE.
abbrev pub server_method : Text → Text
server_method m = if text_eq m (lit "ACK") then lit "INVITE" else m

unfoldable pub make_server_key : Message → Key
make_server_key msg = key_of_via (server_method msg.method) false (top_via msg)

unfoldable pub make_invite_key_from_cancel : Message → Key
make_invite_key_from_cancel cancel = key_of_via (lit "INVITE") false (top_via cancel)

unfoldable pub make_client_key : Message → Key
make_client_key msg = key_of_via (cseq_method msg) true (top_via msg)

-- IsMagicBranch
unfoldable pub is_magic_branch : Text → Bool
is_magic_branch b = has_prefix b (lit "z9hG4bK")
