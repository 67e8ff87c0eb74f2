-- ===== src/Transaction/Layer/Steps.antt =====
-- The layer of pkg/transaction/layer.go as a machine: calls from outside, timers, goroutines, collections.
use funsip.Base.{ℕ, Option, List, [], ◌∷◌}
use funsip.Base.Int.{ℤ}
use funsip.Text.{Text}
use funsip.Sip.Message.{Message}
use funsip.Transaction.Timers.{TimerName}
use funsip.Transaction.Client.{ClientTx, new_client_invite_tx, new_client_non_invite_tx, is_calling}
use funsip.Transaction.Client as Client
use funsip.Transaction.Server.{ServerTx, new_server_invite_tx, new_server_non_invite_tx}
use funsip.Transaction.Server as Server
use funsip.Transaction.Layer.State.{set_invite_timeout, Layer, on_server, on_client}
use funsip.Transaction.Layer.Branches.{new_client_tx, cancel_pending_branches}
use funsip.Transaction.Layer.Respond.{receive_message, respond_to_request, expire_invite}
use funsip.Transaction.Layer.Ends.{wake, gc}

pub data LayerEvent : Type 0 where
  sets_timeout : ℤ → LayerEvent
  arrives : Message → ℕ → LayerEvent
  opens : Option Message → Message → Text → Text → ℕ → LayerEvent
  answers : Message → Message → LayerEvent
  cancels : Message → ℕ → LayerEvent
  server_fires : ℕ → TimerName → LayerEvent
  client_fires : ℕ → TimerName → LayerEvent
  invite_expires : Text → ℕ → LayerEvent
  wakes : ℕ → LayerEvent
  collects : LayerEvent

unfoldable pub step : Layer → LayerEvent → Layer
step l (sets_timeout timeout) = set_invite_timeout timeout l
step l (arrives msg now) = receive_message msg now l
step l (opens origin fwd dest transport now) = new_client_tx origin fwd dest transport now l
step l (answers req resp) = respond_to_request req resp l
step l (cancels origin now) = cancel_pending_branches origin now l
step l (server_fires i n) = on_server i (Server.fire n) l
step l (client_fires i n) = on_client i (Client.fire n) l
step l (invite_expires key now) = expire_invite key now l
step l (wakes n) = wake n l
step l collects = gc l

unfoldable pub run : Layer → List LayerEvent → Layer
run l [] = l
run l (c ∷ cs) = run (step l c) cs
