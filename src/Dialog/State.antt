-- ===== src/Dialog/State.antt =====
-- The state of pkg/dialog/dialog.go. A dialog is an object that the map and its timer share: what Go holds
-- as a pointer is a place in `heap`. A capture file is its number in `files`, with whether it is open.
-- The metrics, the play file's name and the report of the media analyzer are left out.
use funsip.Base.{
  ℕ, ◌+◌, ◌==◌, Bool, false, ◌&&◌, ◌||◌, Option, List, [], ◌∷◌, ◌++◌, leb, ltb, if◌then◌else◌,
  length, update, lookup,
}
use funsip.Base.Int.{ℤ}
use funsip.Text.{Text, text_keys, lit, itoa}
use funsip.Sip.Message.{Message}
use funsip.Sip.Uri.{Uri}

pub record Options : Type 0 where
  pub dlg_gate : Bool
  pub pcap : Bool
  pub timeout : ℕ

-- In seconds: 61 minutes
abbrev pub default_timeout : ℕ
default_timeout = 3660

-- timeout; a duration is not negative here.
abbrev pub timeout_of : Options → ℕ
timeout_of o = if ltb 0 o.timeout then o.timeout else default_timeout

pub record Side : Type 0 where
  pub aor : Uri
  pub tag : Text
  pub contact : Option Uri
  pub addr : Text
  pub transport : Text

pub record Dialog : Type 0 where
  pub call_id : Text
  pub caller : Side
  pub callee : Option Side
  pub confirmed : Bool
  pub dlg_gate : Bool
  pub pcap : Option ℕ
  pub timer : Bool
  pub timeout : ℕ
  pub created_at : ℕ
  pub cseq : ℕ

-- A packet given to a capture file.
pub record Capture : Type 0 where
  pub file : ℕ
  pub src : Text
  pub src_port : ℤ
  pub dst : Text
  pub dst_port : ℤ
  pub payload : Text

-- The call-end event of a dialog.
pub record CallEnd : Type 0 where
  pub place : ℕ
  pub originator : Text
  pub seconds : ℕ

-- `sent`, `ends`, `cleaned` and `captured` record the calls of the sender, of the event sink, of
-- mediaCleanup and of the capture files, the last one first.
pub record Manager : Type 0 where
  pub heap : List Dialog
  pub dialogs : List (Text × ℕ)
  pub files : List Bool
  pub pcap_dir : Text
  pub local_ip : Text
  pub local_port : ℤ
  pub dlg_gate : Bool
  pub sent : List (Message × Text × Text)
  pub ends : List CallEnd
  pub cleaned : List Text
  pub captured : List Capture

-- NewManager
unfoldable pub new_manager : Text → ℤ → Text → Manager
new_manager local_ip local_port pcap_dir = record {
  heap = [];
  dialogs = [];
  files = [];
  pcap_dir = pcap_dir;
  local_ip = local_ip;
  local_port = local_port;
  dlg_gate = false;
  sent = [];
  ends = [];
  cleaned = [];
  captured = [];
}

-- DialogCount
unfoldable pub dialog_count : Manager → ℕ
dialog_count m = length m.dialogs

abbrev pub find_dialog : Text → Manager → Option ℕ
find_dialog call_id m = lookup text_keys call_id m.dialogs

abbrev pub on_dialog : ℕ → (Dialog → Dialog) → Manager → Manager
on_dialog i f m = record m { heap = update f i m.heap }

abbrev pub is_safe : ℕ → Bool
is_safe c =
    (leb b'a' c && leb c b'z')
    || (leb b'A' c && leb c b'Z')
    || (leb b'0' c && leb c b'9')
    || c == b'-'
    || c == b'.'
    || c == b'_'

abbrev pub safe_byte : ℕ → ℕ
safe_byte c = if is_safe c then c else b'_'

-- The loop of pcapFilename: it ends once more than 80 bytes are written, `n` of them before.
abbrev pub safe_part : ℕ → Text → Text
safe_part n [] = []
safe_part n (c ∷ s) = safe_byte c ∷ (if ltb 80 (n + 1) then [] else safe_part (n + 1) s)

-- pcapFilename, at a time in nanoseconds. A byte above 127 is a letter of its own here.
unfoldable pub pcap_filename : Text → ℕ → Text
pcap_filename call_id now =
    lit "dialog-" ++ (safe_part 7 call_id ++ (lit "-" ++ (itoa now ++ lit ".pcap")))
