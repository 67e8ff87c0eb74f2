-- ===== src/Transaction/Layer/Servers.antt =====
-- The creation of client transactions (pkg/transaction/layer.go) changes no server transaction.
use funsip.Base.{
  ℕ, ◌≡◌, refl, ◌∙◌, inl, inr, Option, none, some, List, [], ◌∷◌, get_elem?, lookup, Option-cases,
  if-both,
}
use funsip.Text.{Text, text_keys}
use funsip.Sip.Message.{Message}
use funsip.Transaction.Layer.State.{Layer}
use funsip.Transaction.Layer.Branches.{
  some_keys, new_client_tx, cancel_branches, present, cancel_pending,
}

-- What the creation of client transactions leaves alone.
pub record SameServers (l k : Layer) : Type 0 where
  pub heap : k.server_heap ≡ l.server_heap
  pub txs : k.server_txs ≡ l.server_txs
  pub calls : k.handed ≡ l.handed

pub new_client_tx-SameServers :
    (origin : Option Message) (fwd : Message) (dest transport : Text) (now : ℕ) (l : Layer)
    → SameServers l (new_client_tx origin fwd dest transport now l)
unfolding new_client_tx
new_client_tx-SameServers none fwd dest transport now l = record {
  heap = refl;
  txs = refl;
  calls = refl;
}
new_client_tx-SameServers (some req) fwd dest transport now l = record {
  heap = refl;
  txs = refl;
  calls = refl;
}

SameServers-trans : (l k j : Layer) → SameServers l k → SameServers k j → SameServers l j
SameServers-trans l k j a b = record {
  heap = b.heap ∙ a.heap;
  txs = b.txs ∙ a.txs;
  calls = b.calls ∙ a.calls;
}

cancel_branches-SameServers :
    (is : List ℕ) (now : ℕ) (l : Layer) → SameServers l (cancel_branches is now l)
cancel_branches-SameServers [] now l = record { heap = refl; txs = refl; calls = refl }
cancel_branches-SameServers (i ∷ is) now l = elim (Option-cases (get_elem? l.client_heap i)) [
  | inl e ↦ rw e (cancel_branches-SameServers is now l)
  | inr (tx, e) ↦ rw e (
      SameServers-trans l _ _
        (if-both (SameServers l) _ (new_client_tx-SameServers none _ _ _ now l)
          (record { heap = refl; txs = refl; calls = refl }))
        (cancel_branches-SameServers is now _))
]

pub cancel_pending-SameServers :
    (key : Text) (now : ℕ) (l : Layer) → SameServers l (cancel_pending key now l)
unfolding cancel_pending
cancel_pending-SameServers key now l =
    cancel_branches-SameServers
      (present l.client_txs (some_keys (lookup text_keys key l.server_to_clients))) now l
