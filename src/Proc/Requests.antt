-- ===== src/Proc/Requests.antt =====
-- proc.c: exit of a process with more than one thread.
use op_sys.Base.{◌≢◌}
use op_sys.Proc.{uninit, terminated, Thread, Proc}

-- A thread that has been started and has not ended.
abbrev pub IsAlive : Thread → Type 0
IsAlive th = (th.state ≢ terminated) × (th.state ≢ uninit)
