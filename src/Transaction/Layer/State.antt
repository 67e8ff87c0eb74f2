-- ===== src/Transaction/Layer/State.antt =====
-- The state of pkg/transaction/layer.go: the maps, the counters and the goroutines that wait.
use funsip.Base.{ℕ, suc, Bool, Option, List, [], ◌∷◌, ◌++◌, length, update, lookup, insert}
use funsip.Base.Int.{ℤ, pos}
use funsip.Text.{Text, text_keys}
use funsip.Sip.Message.{Message}
use funsip.Transaction.Keys.{key_text, make_server_key}
use funsip.Transaction.Client.{ClientTx}
use funsip.Transaction.Server.{ServerTx}

-- A goroutine that waits on `Done` of a transaction. That of a server transaction also stops the INVITE
-- timer of a key, except where the transaction is that of a matched CANCEL.
pub data Watcher : Type 0 where
  server_end : ℕ → Text → Watcher
  cancel_end : ℕ → Watcher
  client_end : ℕ → Watcher

-- The timer that armInviteTimeout starts; it fires once.
pub record InviteTimer : Type 0 where
  pub owner : ℕ
  pub live : Bool

pub record Layer : Type 0 where
  pub server_heap : List ServerTx
  pub client_heap : List ClientTx
  pub server_txs : List (Text × ℕ)
  pub client_txs : List (Text × ℕ)
  pub server_to_clients : List (Text × List Text)
  pub invite_timers : List (Text × InviteTimer)
  pub invite_timeout : ℤ
  pub watchers : List Watcher
  pub tx_created : ℕ
  pub tx_active : ℕ
  pub total_resp_time : ℕ
  pub resp_count : ℕ
  pub handed : List Message
  pub stateless : List (Message × Text × Text)

-- NewLayer, in milliseconds
unfoldable pub new_layer : Layer
new_layer = record {
  server_heap = [];
  client_heap = [];
  server_txs = [];
  client_txs = [];
  server_to_clients = [];
  invite_timers = [];
  invite_timeout = pos 180000;
  watchers = [];
  tx_created = 0;
  tx_active = 0;
  total_resp_time = 0;
  resp_count = 0;
  handed = [];
  stateless = [];
}

-- SetInviteTimeout
abbrev pub set_invite_timeout : ℤ → Layer → Layer
set_invite_timeout timeout l = record l { invite_timeout = timeout }

abbrev pub hand : Message → Layer → Layer
hand req l = record l { handed = req ∷ l.handed }

abbrev pub on_server : ℕ → (ServerTx → ServerTx) → Layer → Layer
on_server i f l = record l { server_heap = update f i l.server_heap }

abbrev pub on_client : ℕ → (ClientTx → ClientTx) → Layer → Layer
on_client i f l = record l { client_heap = update f i l.client_heap }

abbrev pub server_key : Message → Text
server_key msg = key_text (make_server_key msg)

abbrev pub find_server : Text → Layer → Option ℕ
find_server key l = lookup text_keys key l.server_txs

-- FindServerTx
abbrev pub find_server_tx : Message → Layer → Option ℕ
find_server_tx msg l = find_server (server_key msg) l

-- A new transaction in the map, with its counters and the goroutine that waits for its end.
abbrev pub add_server : Text → ServerTx → Watcher → Layer → Layer
add_server key tx w l = record l {
  server_heap = l.server_heap ++ tx ∷ [];
  server_txs = insert text_keys key (length l.server_heap) l.server_txs;
  watchers = l.watchers ++ w ∷ [];
  tx_created = suc l.tx_created;
  tx_active = suc l.tx_active;
}
