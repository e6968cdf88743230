-- ===== src/Hooks.antt =====
-- hooks.rs: the hooks are not supported, whatever the connection.
use ecto_libsql.Common.{Str, str}

-- The pair of atoms that all of them return; a process is not looked at.
abbrev unsupported : Str × Str
unsupported = (str "error", str "unsupported")

pub set_update_hook : {Pid : Type 0} → Str → Pid → Str × Str
set_update_hook conn_id pid = unsupported

pub clear_update_hook : Str → Str × Str
clear_update_hook conn_id = unsupported

pub set_authorizer : {Pid : Type 0} → Str → Pid → Str × Str
set_authorizer conn_id pid = unsupported
