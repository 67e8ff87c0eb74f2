-- ===== src/Dialog/Byes.antt =====
-- The BYEs that sendBYE of pkg/dialog/dialog.go builds, as RFC 3261 has them.
use funsip.Base.{ℕ, ◌≡◌, refl, ap, Option-cases, inl, inr, Option, none, some, List, [], ◌∷◌, ◌++◌}
use funsip.Base.Int.{ℤ}
use funsip.Text.{Text, lit, itoa, to_lower, to_upper}
use funsip.Proxy.Config.{address_of, or_udp}
use funsip.Sip.Headers.{get_all}
use funsip.Sip.Headers.Multimap.{sets, Edit, apply, apply_all, get_all-history}
use funsip.Sip.Message.{Message, new_request}
use funsip.Sip.Uri.{Uri, uri_text}
use funsip.Dialog.State.{Side}
use funsip.Dialog.Endings.{bye_between, tagged, contact_or_aor}

-- Where a side is reached: its contact, or where none is known its address of record.
abbrev target_of : Option Uri → Uri → Uri
target_of none aor = aor
target_of (some contact) aor = contact

-- A BYE of a call, to one side as if from the other.
pub record IsBye (call_id : Text) (from to : Side) (cseq : ℕ) (bye : Message) : Type 0 where
  pub method : bye.method ≡ lit "BYE"
  pub target : bye.request_uri ≡ some (target_of to.contact to.aor)
  pub sender :
      get_all bye.headers (lit "From")
      ≡ (lit "<" ++ (uri_text from.aor ++ (lit ">;tag=" ++ from.tag))) ∷ []
  pub receiver :
      get_all bye.headers (lit "To")
      ≡ (lit "<" ++ (uri_text to.aor ++ (lit ">;tag=" ++ to.tag))) ∷ []
  pub call : get_all bye.headers (lit "Call-ID") ≡ call_id ∷ []
  pub number : get_all bye.headers (lit "CSeq") ≡ (itoa cseq ++ lit " BYE") ∷ []
  pub bodiless : bye.body ≡ []

-- The Via of a BYE.
abbrev via_of : Text → ℤ → Text → Text → Text
via_of local_ip local_port transport branch =
    lit "SIP/2.0/"
    ++ (to_upper (or_udp transport)
        ++ b' ' ∷ (address_of local_ip local_port ++ (lit ";branch=" ++ (branch ++ lit ";rport"))))

contact_or_aor-target_of : (s : Side) → contact_or_aor s ≡ target_of s.contact s.aor
contact_or_aor-target_of s = elim (Option-cases s.contact) [
  | inl e ↦ rw e refl
  | inr (u, e) ↦ rw e refl
]

pub bye_between-IsBye :
    (local_ip : Text) (local_port : ℤ) (call_id : Text) (from to : Side) (cseq : ℕ) (branch : Text)
    → IsBye call_id from to cseq (bye_between local_ip local_port call_id from to cseq branch)
unfolding bye_between new_request apply_all apply to_lower
bye_between-IsBye local_ip local_port call_id from to cseq branch =
    let edits : List Edit =
      sets (lit "Via") (via_of local_ip local_port from.transport branch)
      ∷ sets (lit "Max-Forwards") (lit "70")
      ∷ sets (lit "From") (tagged from)
      ∷ sets (lit "To") (tagged to)
      ∷ sets (lit "Call-ID") call_id
      ∷ sets (lit "CSeq") (itoa cseq ++ lit " BYE")
      ∷ sets (lit "Content-Length") (lit "0")
      ∷ [] in
    record {
      method = refl;
      target = ap some (contact_or_aor-target_of to);
      sender = get_all-history edits (lit "From");
      receiver = get_all-history edits (lit "To");
      call = get_all-history edits (lit "Call-ID");
      number = get_all-history edits (lit "CSeq");
      bodiless = refl;
    }
