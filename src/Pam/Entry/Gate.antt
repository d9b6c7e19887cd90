-- ===== src/Pam/Entry/Gate.antt =====
-- Who may use `pam_sm_authenticate`.
use lingmo_authenticate.Pam.State.{Pam}
use lingmo_authenticate.Pam.Args.{Args}
