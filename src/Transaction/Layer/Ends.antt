-- ===== src/Transaction/Layer/Ends.antt =====
-- The end of transactions in pkg/transaction/layer.go: the goroutines on `Done`, and the collector.
use funsip.Base.{
  ℕ, ◌-◌, Bool, true, false, Option, none, some, List, [], ◌∷◌, if◌then◌else◌, get_elem?, erase_idx,
  keep_if, lookup, delete,
}
use funsip.Text.{Text, text_keys}
use funsip.Transaction.Client.{ClientTx}
use funsip.Transaction.Server.{ServerTx}
use funsip.Transaction.Layer.State.{Watcher, Layer, server_end, cancel_end, client_end}

-- cancelInviteTimer
abbrev pub cancel_invite_timer : Text → Layer → Layer
cancel_invite_timer key l = record l { invite_timers = delete text_keys key l.invite_timers }

abbrev pub server_done : Option ServerTx → Bool
server_done none = false
server_done (some tx) = tx.done

abbrev pub client_done : Option ClientTx → Bool
client_done none = false
client_done (some tx) = tx.done

abbrev pub is_over : Watcher → Layer → Bool
is_over (server_end i key) l = server_done (get_elem? l.server_heap i)
is_over (cancel_end i) l = server_done (get_elem? l.server_heap i)
is_over (client_end i) l = client_done (get_elem? l.client_heap i)

-- What the goroutine does besides the counter.
abbrev pub clean_up : Watcher → Layer → Layer
clean_up (server_end i key) l = cancel_invite_timer key l
clean_up (cancel_end i) l = l
clean_up (client_end i) l = l

abbrev wake_one : ℕ → Option Watcher → Layer → Layer
wake_one n none l = l
wake_one n (some w) l =
    if is_over w l
    then clean_up w (record l { watchers = erase_idx l.watchers n; tx_active = l.tx_active - 1 })
    else l

-- One of the goroutines sees the end of its transaction.
unfoldable pub wake : ℕ → Layer → Layer
wake n l = wake_one n (get_elem? l.watchers n) l

abbrev pub open_servers : List ServerTx → List (Text × ℕ) → List (Text × ℕ)
open_servers heap [] = []
open_servers heap ((k, i) ∷ m) =
    if server_done (get_elem? heap i) then open_servers heap m else (k, i) ∷ open_servers heap m

abbrev pub unlink :
    List ServerTx → List (Text × ℕ) → List (Text × List Text) → List (Text × List Text)
unlink heap [] links = links
unlink heap ((k, i) ∷ m) links =
    if server_done (get_elem? heap i)
    then unlink heap m (delete text_keys k links)
    else unlink heap m links

abbrev pub open_clients : List ClientTx → List (Text × ℕ) → List (Text × ℕ)
open_clients heap [] = []
open_clients heap ((k, i) ∷ m) =
    if client_done (get_elem? heap i) then open_clients heap m else (k, i) ∷ open_clients heap m

abbrev pub is_some {ℓ} : {A : Type ℓ} → Option A → Bool
is_some none = false
is_some (some a) = true

abbrev pub is_known : List (Text × ℕ) → Text → Bool
is_known m k = is_some (lookup text_keys k m)

abbrev pub link_or_drop : Text → List Text → List (Text × List Text) → List (Text × List Text)
link_or_drop k [] rest = rest
link_or_drop k (c ∷ cs) rest = (k, c ∷ cs) ∷ rest

abbrev pub live_links : List (Text × ℕ) → List (Text × List Text) → List (Text × List Text)
live_links m [] = []
live_links m ((k, cs) ∷ links) = link_or_drop k (keep_if (is_known m) cs) (live_links m links)

-- gc
unfoldable pub gc : Layer → Layer
gc l =
    let clients = open_clients l.client_heap l.client_txs in
    record l {
      server_txs = open_servers l.server_heap l.server_txs;
      client_txs = clients;
      server_to_clients =
          live_links clients (unlink l.server_heap l.server_txs l.server_to_clients);
    }
