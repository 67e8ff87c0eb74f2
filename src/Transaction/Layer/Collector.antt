-- ===== src/Transaction/Layer/Collector.antt =====
-- What the collector of pkg/transaction/layer.go (gc) leaves in the maps.
use funsip.Base.{
  ℕ, ◌≡◌, refl, inl, inr, Bool, true, false, some, List, [], ◌∷◌, arith, get_elem?, keep_if, lookup,
  All, Bool-cases, keep_if-All,
}
use funsip.Text.{Text, text_keys}
use funsip.Transaction.Client.{ClientTx}
use funsip.Transaction.Server.{ServerTx}
use funsip.Transaction.Layer.State.{Layer}
use funsip.Transaction.Layer.Ends.{
  server_done, client_done, open_servers, open_clients, unlink, is_known, live_links, link_or_drop,
  gc,
}

abbrev is_filled : List Text → Bool
is_filled [] = false
is_filled (k ∷ ks) = true

-- A link that is worth keeping: it has a key, and all its keys are known.
abbrev IsLive : List (Text × ℕ) → Text × List Text → Type 0
IsLive m link = (is_filled link.1 ≡ true) × All (λ k. is_known m k ≡ true) link.1

-- What the maps hold after a collection: only transactions that have not ended, and only links from a
-- key to a list that is not empty of keys that are in the map of client transactions.
pub record IsCollected (l : Layer) : Type 0 where
  pub servers : All (λ e. server_done (get_elem? l.server_heap e.1) ≡ false) l.server_txs
  pub clients : All (λ e. client_done (get_elem? l.client_heap e.1) ≡ false) l.client_txs
  pub links : All (IsLive l.client_txs) l.server_to_clients

open_servers-All :
    (heap : List ServerTx) (m : List (Text × ℕ))
    → All (λ e. server_done (get_elem? heap e.1) ≡ false) (open_servers heap m)
open_servers-All heap [] = tt
open_servers-All heap ((k, i) ∷ m) = elim (Bool-cases (server_done (get_elem? heap i))) [
  | inl e ↦ rw e (open_servers-All heap m)
  | inr e ↦ rw e (e, open_servers-All heap m)
]

open_clients-All :
    (heap : List ClientTx) (m : List (Text × ℕ))
    → All (λ e. client_done (get_elem? heap e.1) ≡ false) (open_clients heap m)
open_clients-All heap [] = tt
open_clients-All heap ((k, i) ∷ m) = elim (Bool-cases (client_done (get_elem? heap i))) [
  | inl e ↦ rw e (open_clients-All heap m)
  | inr e ↦ rw e (e, open_clients-All heap m)
]

link_or_drop-All :
    (m : List (Text × ℕ)) (k : Text) (cs : List Text) (rest : List (Text × List Text))
    → All (λ c. is_known m c ≡ true) cs
    → All (IsLive m) rest
    → All (IsLive m) (link_or_drop k cs rest)
link_or_drop-All m k [] rest known h = h
link_or_drop-All m k (c ∷ cs) rest known h = ((refl, known), h)

live_links-All :
    (m : List (Text × ℕ)) (links : List (Text × List Text)) → All (IsLive m) (live_links m links)
live_links-All m [] = tt
live_links-All m ((k, cs) ∷ links) =
    link_or_drop-All m k (keep_if (is_known m) cs) (live_links m links)
      (keep_if-All (is_known m) cs) (live_links-All m links)

-- After a collection no map holds a transaction that has ended, and no link a key that is not in the
-- map of client transactions or an empty list.
gc-IsCollected : (l : Layer) → IsCollected (gc l)
unfolding gc
gc-IsCollected l = record {
  servers = open_servers-All l.server_heap l.server_txs;
  clients = open_clients-All l.client_heap l.client_txs;
  links =
      live_links-All (open_clients l.client_heap l.client_txs)
        (unlink l.server_heap l.server_txs l.server_to_clients);
}

open_servers-lookup :
    (heap : List ServerTx) (key : Text) (i : ℕ) (m : List (Text × ℕ))
    → lookup text_keys key m ≡ some i
    → server_done (get_elem? heap i) ≡ false
    → lookup text_keys key (open_servers heap m) ≡ some i
open_servers-lookup heap key i [] h o = h
open_servers-lookup heap key i ((k, j) ∷ m) h o = ground (arith, open_servers-lookup heap key i m)

open_clients-lookup :
    (heap : List ClientTx) (key : Text) (i : ℕ) (m : List (Text × ℕ))
    → lookup text_keys key m ≡ some i
    → client_done (get_elem? heap i) ≡ false
    → lookup text_keys key (open_clients heap m) ≡ some i
open_clients-lookup heap key i [] h o = h
open_clients-lookup heap key i ((k, j) ∷ m) h o = ground (arith, open_clients-lookup heap key i m)

-- A collection drops no transaction that has not ended: a key that led to an open server transaction
-- still does, and so does a key that led to an open client transaction.
gc-keeps_open :
    (l : Layer) (server_key client_key : Text) (i j : ℕ)
    → lookup text_keys server_key l.server_txs ≡ some i
    → server_done (get_elem? l.server_heap i) ≡ false
    → lookup text_keys client_key l.client_txs ≡ some j
    → client_done (get_elem? l.client_heap j) ≡ false
    → (lookup text_keys server_key (gc l).server_txs ≡ some i)
      × (lookup text_keys client_key (gc l).client_txs ≡ some j)
unfolding gc
gc-keeps_open l server_key client_key i j server open_server client open_client = (
  open_servers-lookup l.server_heap server_key i l.server_txs server open_server,
  open_clients-lookup l.client_heap client_key j l.client_txs client open_client,
)
