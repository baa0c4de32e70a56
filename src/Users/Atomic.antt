-- ===== src/Users/Atomic.antt =====
-- What a call of the repository that reports an error leaves.
use step_ui_ng.Users.Table.{Table}
use step_ui_ng.Users.Role.{Role}
