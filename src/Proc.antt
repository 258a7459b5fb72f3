-- ===== src/Proc.antt =====
-- proc.h, and the process table of proc.c: processes, each with its row of threads, and the
-- lookups that the operations share. The operations are in the children.
-- A `struct proc *` is its index in `ptable.proc`, a `struct kthread *` the index of its process and
-- its own in that process's row of `ptable.ttable`, and a null pointer is `none`. `p->threads` is set
-- once, to the row of `p`, and only used afterwards, so the row stands in the process.
-- A section under `ptable.lock` is one function. The counters `nextpid` and `nexttid` are 32-bit
-- patterns that wrap.
mod Read
pub mod Wakeup
pub mod Alloc
pub mod Ids
pub mod Fresh
pub mod Create
pub mod Creation
pub mod Races
pub mod Exit
pub mod Orphans
pub mod Reaping
pub mod Joins
pub mod Requests
mod Tests
use op_sys.Base.{get_or, set, replicate, ℕ, ◌+◌, ◌%◌, Bool, true, false, Option, none, List, []}

abbrev pub nproc : ℕ
nproc = 64

abbrev pub nthread : ℕ
nthread = 16

abbrev pub kstack_size : ℕ
kstack_size = 4096

pub data ProcState : Type 0 where
  unused embryo used zombie : ProcState

pub data ThreadState : Type 0 where
  uninit sleeping runnable running blocked terminated : ThreadState

-- The addresses that threads sleep on: null, a process, a thread, or anything else.
pub data Chan : Type 0 where
  null : Chan
  of_proc : ℕ → Chan
  of_thread : ℕ → ℕ → Chan
  other : ℕ → Chan

-- The registers that the process code sets; `rest` stands for the other words of the frame.
pub record Trapframe : Type 0 where
  pub eip : ℕ
  pub esp : ℕ
  pub eax : ℕ
  pub rest : ℕ

-- Where a saved context continues: zeroed memory, or `forkret`.
pub data Entry : Type 0 where
  nowhere forkret : Entry

-- The calls that a process operation makes into the allocator, the file table, the log and the file
-- system, in order. What they do there is not part of the process table.
pub data Call : Type 0 where
  kfree : Option ℕ → Call
  freevm : Option ℕ → Call
  filedup : ℕ → Call
  fileclose : ℕ → Call
  idup : Option ℕ → Call
  iput : Option ℕ → Call
  begin_op end_op : Call

-- `tf_at` and `context_at` are the pointers `tf` and `context`, and `tf` and `context_eip` what they
-- point to.
pub record Thread : Type 0 where
  pub kstack : Option ℕ
  pub ustack : ℕ
  pub state : ThreadState
  pub tid : ℕ
  pub tproc : Option ℕ
  pub tf_at : ℕ
  pub tf : Trapframe
  pub context_at : ℕ
  pub context_eip : Entry
  pub chan : Chan
  pub exit_request : Bool

pub record Proc : Type 0 where
  pub sz : ℕ
  pub pgdir : Option ℕ
  pub state : ProcState
  pub pid : ℕ
  pub parent : Option ℕ
  pub killed : Bool
  pub ofile : List (Option ℕ)
  pub cwd : Option ℕ
  pub name : List ℕ
  pub threads : List Thread

pub record Ptable : Type 0 where
  pub procs : List Proc
  pub next_pid : ℕ
  pub next_tid : ℕ
  pub initproc : Option ℕ

-- `nextpid` and `nexttid` after `++`, as 32-bit patterns.
abbrev pub next_id : ℕ → ℕ
next_id n = (n + 1) % 4294967296

abbrev pub blank_frame : Trapframe
blank_frame = record { eip = 0; esp = 0; eax = 0; rest = 0 }

-- Zeroed memory.
abbrev pub no_thread : Thread
no_thread = record {
  kstack = none;
  ustack = 0;
  state = uninit;
  tid = 0;
  tproc = none;
  tf_at = 0;
  tf = blank_frame;
  context_at = 0;
  context_eip = nowhere;
  chan = null;
  exit_request = false;
}

abbrev pub no_proc : Proc
no_proc = record {
  sz = 0;
  pgdir = none;
  state = unused;
  pid = 0;
  parent = none;
  killed = false;
  ofile = replicate 16 none;
  cwd = none;
  name = [];
  threads = replicate nthread no_thread;
}

abbrev pub boot : Ptable
boot = record { procs = replicate nproc no_proc; next_pid = 1; next_tid = 1; initproc = none }

abbrev pub is_unused : ProcState → Bool
is_unused unused = true
is_unused embryo = false
is_unused used = false
is_unused zombie = false

abbrev pub is_used : ProcState → Bool
is_used used = true
is_used unused = false
is_used embryo = false
is_used zombie = false

abbrev pub is_zombie : ProcState → Bool
is_zombie zombie = true
is_zombie unused = false
is_zombie embryo = false
is_zombie used = false

abbrev pub is_uninit : ThreadState → Bool
is_uninit uninit = true
is_uninit sleeping = false
is_uninit runnable = false
is_uninit running = false
is_uninit blocked = false
is_uninit terminated = false

abbrev pub is_sleeping : ThreadState → Bool
is_sleeping sleeping = true
is_sleeping uninit = false
is_sleeping runnable = false
is_sleeping running = false
is_sleeping blocked = false
is_sleeping terminated = false

abbrev pub is_runnable : ThreadState → Bool
is_runnable runnable = true
is_runnable uninit = false
is_runnable sleeping = false
is_runnable running = false
is_runnable blocked = false
is_runnable terminated = false

abbrev pub is_running : ThreadState → Bool
is_running running = true
is_running uninit = false
is_running sleeping = false
is_running runnable = false
is_running blocked = false
is_running terminated = false

abbrev pub is_terminated : ThreadState → Bool
is_terminated terminated = true
is_terminated uninit = false
is_terminated sleeping = false
is_terminated runnable = false
is_terminated running = false
is_terminated blocked = false

-- The process or thread behind a pointer.
abbrev pub proc_at : Ptable → ℕ → Proc
proc_at t i = get_or t.procs i no_proc

abbrev pub thread_of : Proc → ℕ → Thread
thread_of p j = get_or p.threads j no_thread

abbrev pub thread_at : Ptable → ℕ → ℕ → Thread
thread_at t i j = thread_of (proc_at t i) j

abbrev pub set_proc : Ptable → ℕ → Proc → Ptable
set_proc t i p = record t { procs = set t.procs i p }

abbrev pub set_thread : Ptable → ℕ → ℕ → Thread → Ptable
set_thread t i j th =
    set_proc t i (record (proc_at t i) { threads = set (proc_at t i).threads j th })
