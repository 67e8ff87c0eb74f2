-- ===== src/Examples/ClientRuns.antt =====
-- Client transactions (pkg/transaction/client.go) on concrete inputs.
use funsip.Base.{◌≤◌, ◌≡◌, refl, inl, true, List, [], ◌∷◌}
use funsip.Text.{lit}
use funsip.Sip.Message.{new_response}
use funsip.Transaction.Keys.{terminated}
use funsip.Transaction.Timers.{td}
use funsip.Transaction.Client.{
  ClientTx, new_client_invite_tx, new_client_non_invite_tx, ClientEvent, receives, fires, step, run,
}
use funsip.Transaction.Client.Invariant.{
  IsSound, running, finals, new_client_invite_tx-IsSound, new_client_non_invite_tx-IsSound,
  client_step-IsSound,
}
use funsip.Transaction.Client.Progress.{
  ◌⟶◌, client_step-⟶, invite_answered_once, last_timer, client_last_timer-ends,
}
use funsip.Examples.Messages.{invite, options, ringing, busy}

abbrev inviting : ClientTx
inviting = new_client_invite_tx invite (lit "10.0.0.9:5060") (lit "UDP") 0

abbrev asking : ClientTx
asking = new_client_non_invite_tx options (lit "10.0.0.9:5060") (lit "TCP") 0

abbrev inviting-IsSound : IsSound inviting
inviting-IsSound = new_client_invite_tx-IsSound invite (lit "10.0.0.9:5060") (lit "UDP") 0

abbrev asking-IsSound : IsSound asking
asking-IsSound = new_client_non_invite_tx-IsSound options (lit "10.0.0.9:5060") (lit "TCP") 0

abbrev refused : List ClientEvent
refused = receives ringing ∷ receives busy ∷ receives busy ∷ fires td ∷ []

refused_ends : (run inviting refused).state ≡ terminated
unfolding run step new_client_invite_tx new_response
refused_ends = refl

client_step-IsSound_example : IsSound (step inviting (receives busy))
client_step-IsSound_example = client_step-IsSound inviting (receives busy) inviting-IsSound

client_step-⟶_example : inviting.state ⟶ (step inviting (receives busy)).state
client_step-⟶_example = client_step-⟶ inviting (receives busy) inviting-IsSound

invite_answered_once_example : finals (run inviting refused).out ≤ 1
invite_answered_once_example =
    (invite_answered_once invite (lit "10.0.0.9:5060") (lit "UDP") 0 refused).0

client_last_timer-ends_example :
    (running (last_timer asking.tx_type asking.state) asking ≡ true)
    × ((step asking (fires (last_timer asking.tx_type asking.state))).done ≡ true)
unfolding new_client_non_invite_tx
client_last_timer-ends_example = client_last_timer-ends asking asking-IsSound refl (inl (λ e. cc))

abbrev ringing_tx : ClientTx
ringing_tx = step inviting (receives ringing)
