-- ===== src/Examples/ServerRuns.antt =====
-- Server transactions (pkg/transaction/server.go) on concrete inputs.
use funsip.Base.{◌≡◌, refl, true, List, [], ◌∷◌}
use funsip.Sip.Message.{new_response, new_request}
use funsip.Transaction.Keys.{confirmed}
use funsip.Transaction.Timers.{tg, th}
use funsip.Transaction.Server.{
  ServerTx, trying_for, new_server_invite_tx, ServerEvent, responds, repeats, acks, fires, step,
  run,
}
use funsip.Transaction.Server.Invariant.{
  IsSound, OneFinal, running, new_server_invite_tx-IsSound, server_step-IsSound,
}
use funsip.Transaction.Server.Progress.{
  ◌⟶◌, server_step-⟶, invite-OneFinal, server_last_timer-ends, repeat_before_final,
}
use funsip.Examples.Messages.{invite, ringing, busy}

abbrev invited : ServerTx
invited = new_server_invite_tx invite 0

abbrev invited-IsSound : IsSound invited
invited-IsSound = new_server_invite_tx-IsSound invite 0

abbrev refused : List ServerEvent
refused = responds ringing ∷ responds busy ∷ repeats invite ∷ fires tg ∷ acks ∷ []

refused_confirmed : (run invited refused).state ≡ confirmed
unfolding run step new_server_invite_tx new_response new_request
refused_confirmed = refl

server_step-IsSound_example : IsSound (step invited (responds busy))
server_step-IsSound_example = server_step-IsSound invited (responds busy) invited-IsSound

server_step-⟶_example : invited.state ⟶ (step invited (responds busy)).state
server_step-⟶_example = server_step-⟶ invited (responds busy) invited-IsSound

invite-OneFinal_example : OneFinal (run (new_server_invite_tx invite 0) refused).out
invite-OneFinal_example = invite-OneFinal invite 0 refused

server_last_timer-ends_example :
    (running th (step invited (responds busy)) ≡ true)
    × ((step (step invited (responds busy)) (fires th)).done ≡ true)
unfolding step new_server_invite_tx new_response new_request
server_last_timer-ends_example =
    server_last_timer-ends (step invited (responds busy))
      (server_step-IsSound invited (responds busy) invited-IsSound) refl refl

repeat_before_final_example :
    let tx = step invited (responds ringing) in
    step tx (repeats invite) ≡ record tx {
      out = record { response = trying_for invite; to = tx.dest; over = tx.transport } ∷ tx.out;
    }
unfolding step new_server_invite_tx new_response
repeat_before_final_example =
    (repeat_before_final (step invited (responds ringing)) invite
        (server_step-IsSound invited (responds ringing) invited-IsSound) refl).0
      refl
