-- ===== src/Transaction/Layer/Due.antt =====
-- The CANCELs that sendCancelForBranch of pkg/transaction/layer.go builds, and which branches they go to.
use funsip.Base.{
  ℕ, ◌≡◌, refl, ◌∙◌, ap, Bool, true, false, ◌&&◌, ◌||◌, Option, none, some, List, [], ◌∷◌, ◌++◌,
  get_elem?, if◌then◌else◌, Bool-cases, inl, inr,
}
use funsip.Text.{Text, lit, to_lower}
use funsip.Sip.Headers.{new_headers, get, get_all}
use funsip.Sip.Headers.Invariant.{IsIndexed, new_headers-IsIndexed, set-IsIndexed}
use funsip.Sip.Headers.Multimap.{sets, Edit, apply, apply_all, get_all-history}
use funsip.Sip.Message.{Message, new_request, cseq_num}
use funsip.Sip.Message.Responses.{get_all-add_each}
use funsip.Sip.Message.Wire.{int_text}
use funsip.Transaction.Keys.{
  State, trying, calling, proceeding, completed, confirmed, terminated, TxType, ict, nict, ist,
  nist, is_ict, is_proceeding,
}
use funsip.Transaction.Client.{ClientTx, new_client_non_invite_tx, is_calling}
use funsip.Transaction.Layer.Branches.{cancel_for, is_pending}

-- The CANCEL of an INVITE (RFC 3261, section 9.1).
pub record IsCancelOf (invite cancel : Message) : Type 0 where
  pub method : cancel.method ≡ lit "CANCEL"
  pub target : cancel.request_uri ≡ invite.request_uri
  pub via : get_all cancel.headers (lit "Via") ≡ get invite.headers (lit "Via") ∷ []
  pub from : get_all cancel.headers (lit "From") ≡ get invite.headers (lit "From") ∷ []
  pub to : get_all cancel.headers (lit "To") ≡ get invite.headers (lit "To") ∷ []
  pub call : get_all cancel.headers (lit "Call-ID") ≡ get invite.headers (lit "Call-ID") ∷ []
  pub number :
      get_all cancel.headers (lit "CSeq") ≡ (int_text (cseq_num invite) ++ lit " CANCEL") ∷ []
  pub route : get_all cancel.headers (lit "Route") ≡ get_all invite.headers (lit "Route")

pub cancel_for-IsCancelOf : (invite : Message) → IsCancelOf invite (cancel_for invite)
unfolding cancel_for new_request apply_all apply to_lower
cancel_for-IsCancelOf invite =
    let edits : List Edit =
      sets (lit "Via") (get invite.headers (lit "Via"))
      ∷ sets (lit "From") (get invite.headers (lit "From"))
      ∷ sets (lit "To") (get invite.headers (lit "To"))
      ∷ sets (lit "Call-ID") (get invite.headers (lit "Call-ID"))
      ∷ sets (lit "CSeq") (int_text (cseq_num invite) ++ lit " CANCEL")
      ∷ sets (lit "Max-Forwards") (lit "70")
      ∷ [] in
    let indexed : IsIndexed (apply_all new_headers edits) = set-IsIndexed _ _ _ (
      set-IsIndexed _ _ _ (
        set-IsIndexed _ _ _ (
          set-IsIndexed _ _ _
            (set-IsIndexed _ _ _ (set-IsIndexed _ _ _ new_headers-IsIndexed))))) in
    let reads = λ (m : Text).
      get_all-add_each (lit "Route") (get_all invite.headers (lit "Route"))
        (apply_all new_headers edits) m indexed in
    record {
      method = refl;
      target = refl;
      via = reads (lit "Via") ∙ get_all-history edits (lit "Via");
      from = reads (lit "From") ∙ get_all-history edits (lit "From");
      to = reads (lit "To") ∙ get_all-history edits (lit "To");
      call = reads (lit "Call-ID") ∙ get_all-history edits (lit "Call-ID");
      number = reads (lit "CSeq") ∙ get_all-history edits (lit "CSeq");
      route =
          reads (lit "Route")
          ∙ ap (λ vs. vs ++ get_all invite.headers (lit "Route"))
              (get_all-history edits (lit "Route"));
    }

-- An INVITE that has no final response yet.
abbrev pub waits : TxType → State → Bool
waits ict calling = true
waits ict proceeding = true
waits _ _ = false

pending-waits :
    (t : TxType) (s : State) → (is_ict t && (is_calling s || is_proceeding s)) ≡ waits t s
pending-waits ict trying = refl
pending-waits ict calling = refl
pending-waits ict proceeding = refl
pending-waits ict completed = refl
pending-waits ict confirmed = refl
pending-waits ict terminated = refl
pending-waits nict s = refl
pending-waits ist s = refl
pending-waits nist s = refl

pub is_pending-waits : (tx : ClientTx) → is_pending tx ≡ waits tx.tx_type tx.state
is_pending-waits tx = pending-waits tx.tx_type tx.state

-- The branches at some places that wait, in order.
abbrev with_waiting : Option ClientTx → List ClientTx → List ClientTx
with_waiting none rest = rest
with_waiting (some tx) rest = if waits tx.tx_type tx.state then tx ∷ rest else rest

abbrev pub waiting : List ClientTx → List ℕ → List ClientTx
waiting heap [] = []
waiting heap (i ∷ is) = with_waiting (get_elem? heap i) (waiting heap is)

-- A fresh transaction of a branch's CANCEL, to where its INVITE went.
pub record Cancels (now : ℕ) (branch tx : ClientTx) : Type 0 where
  pub cancel : Message
  pub request : IsCancelOf branch.request cancel
  pub opened : tx ≡ new_client_non_invite_tx cancel branch.dest branch.transport now

-- One transaction for each branch, in order.
abbrev pub CancelEach : ℕ → List ClientTx → List ClientTx → Type 0
CancelEach now [] [] = Unit
CancelEach now (branch ∷ rest) (tx ∷ txs) = Cancels now branch tx × CancelEach now rest txs
CancelEach now _ _ = ⊥

abbrev pub cancelling : ClientTx → ℕ → ClientTx
cancelling tx now = new_client_non_invite_tx (cancel_for tx.request) tx.dest tx.transport now

-- The CANCEL that a transaction is due: one to where its INVITE went, if the branch is pending.
abbrev pub due_cancel : Option ClientTx → ℕ → List ClientTx
due_cancel none now = []
due_cancel (some tx) now = if is_pending tx then cancelling tx now ∷ [] else []

abbrev pub due_cancels : List ClientTx → List ℕ → ℕ → List ClientTx
due_cancels heap [] now = []
due_cancels heap (i ∷ is) now = due_cancel (get_elem? heap i) now ++ due_cancels heap is now

cancel_opened : (now : ℕ) (branch : ClientTx) → Cancels now branch (cancelling branch now)
cancel_opened now branch = record {
  cancel = cancel_for branch.request;
  request = cancel_for-IsCancelOf branch.request;
  opened = refl;
}

-- What sendCancelForBranch opens, after the tests of its caller's loop.
pub due_cancel-CancelEach :
    (o : Option ClientTx) (now : ℕ) (rest cancels : List ClientTx)
    → CancelEach now rest cancels
    → CancelEach now (with_waiting o rest) (due_cancel o now ++ cancels)
due_cancel-CancelEach none now rest cancels h = h
due_cancel-CancelEach (some tx) now rest cancels h = elim (Bool-cases (waits tx.tx_type tx.state)) [
  | inl e ↦ rw (is_pending-waits tx, e) (cancel_opened now tx, h)
  | inr e ↦ rw (is_pending-waits tx, e) h
]

pub due_cancels-CancelEach :
    (heap : List ClientTx) (is : List ℕ) (now : ℕ)
    → CancelEach now (waiting heap is) (due_cancels heap is now)
due_cancels-CancelEach heap [] now = tt
due_cancels-CancelEach heap (i ∷ is) now =
    due_cancel-CancelEach (get_elem? heap i) now (waiting heap is) (due_cancels heap is now)
      (due_cancels-CancelEach heap is now)
