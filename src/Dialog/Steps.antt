-- ===== src/Dialog/Steps.antt =====
-- The dialogs of pkg/dialog/dialog.go as a machine: calls from outside and timers. A capture does not
-- change what the other calls see, and CloseAll ends the machine.
use funsip.Base.{ℕ, Bool, Option, List, [], ◌∷◌}
use funsip.Text.{Text}
use funsip.Sip.Message.{Message}
use funsip.Dialog.State.{Options, Manager}
use funsip.Dialog.Manager.{SetupResult, set_up, not_set_up, setup, confirm_from_response}
use funsip.Dialog.Endings.{terminate, fire_timeout}

pub data DialogEvent : Type 0 where
  sets_up : Message → Options → Bool → ℕ → DialogEvent
  confirms : Message → DialogEvent
  terminates : Text → Option Message → ℕ → DialogEvent
  times_out : ℕ → Text → Text → ℕ → DialogEvent

abbrev pub manager_of : SetupResult → Manager
manager_of (set_up i m) = m
manager_of (not_set_up e m) = m

unfoldable pub step : Manager → DialogEvent → Manager
step m (sets_up req opts opens now) = manager_of (setup req opts opens now m)
step m (confirms resp) = confirm_from_response resp m
step m (terminates call_id bye now) = (terminate call_id bye now m).0
step m (times_out i branch_1 branch_2 now) = fire_timeout i branch_1 branch_2 now m

unfoldable pub run : Manager → List DialogEvent → Manager
run m [] = m
run m (c ∷ cs) = run (step m c) cs
