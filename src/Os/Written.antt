-- ===== src/Os/Written.antt =====
-- os/mod.rs: a pid file from `create_pid_file` to `kill_by_pid_file`.
use nyanpasu_utils.Prelude.{Bool, true, false, Option, none, some}
use nyanpasu_utils.System.World.{World, Node, file}

-- The name is free, or that of a regular file.
abbrev pub takes_text : Option Node → Bool
takes_text none = true
takes_text (some (file s)) = true
takes_text (some n) = false
