-- ===== src/Registrar/Binding.antt =====
-- type Binding of pkg/store/db.go. Times are seconds.
use funsip.Base.Int.{ℤ}
use funsip.Text.{Text}

pub record Binding : Type 0 where
  pub aor : Text
  pub contact : Text
  pub expires_at : ℤ
  pub received_ip : Text
  pub received_port : ℤ
  pub transport : Text
  pub user_agent : Text
  pub call_id : Text
  pub cseq : ℤ
