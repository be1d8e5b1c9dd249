-- ===== src/Shared/Env.antt =====
-- The environment of a process: what the two config.ts files read it through.
use nexus_queue.Prelude.{Option, none, some}
use nexus_queue.Prelude.Tests.{if◌then◌else◌}
use nexus_queue.Prelude.Texts.{Text, is_empty}
use nexus_queue.Program.World.{Result, err}

abbrev pub Env : Type 0
Env = Text → Option Text

-- `if (!value) throw new Error(message)`, and what follows.
abbrev pub require : {A : Type 0} → Option Text → Text → (Text → Result A) → Result A
require none message rest = err message
require (some t) message rest = if is_empty t then err message else rest t
