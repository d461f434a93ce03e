-- ===== src/Scheduler/State.antt =====
-- The globals of scheduler.c, sleep.c and timer.c that the scheduler works on. A task is named by the
-- address of its control block, 0 for NULL.
use cho_os.Prelude.{ℕ, Bool, ◌==◌, if◌then◌else◌}

-- The `TASK_STATE_...` constants.
pub data TaskState : Type 0 where
  terminated not_found dead ready_to_run running sleeping : TaskState

-- `struct TaskControlBlock`
pub record TaskControlBlock : Type 0 where
  pub id : ℕ
  pub esp : ℕ
  pub esp0 : ℕ
  pub cr3 : ℕ
  pub next : ℕ
  pub state : TaskState
  pub time_used : ℕ
  pub stack_base : ℕ
  pub target_wakeup_time : ℕ

pub record Sched : Type 0 where
  pub last_tick : ℕ
  pub ticks_since_boot : ℕ
  pub current_pid : ℕ
  pub irq_disable_counter : ℕ
  pub postpone_counter : ℕ
  pub postponed_flag : ℕ
  -- the interrupt flag of the processor, which `cli` and `sti` set
  pub interrupts : Bool
  pub current : ℕ
  pub first_ready : ℕ
  pub last_ready : ℕ
  pub dead_tasks : ℕ
  pub sleeping_tasks : ℕ
  pub task : ℕ → TaskControlBlock

abbrev pub put_task : (ℕ → TaskControlBlock) → ℕ → TaskControlBlock → ℕ → TaskControlBlock
put_task h p t a = if a == p then t else h a

-- `p->next = q`
abbrev pub set_next : ℕ → ℕ → Sched → Sched
set_next p q s = let t = s.task p in record s { task = put_task s.task p (record t { next = q }) }

-- `p->state = v`
abbrev pub set_state : ℕ → TaskState → Sched → Sched
set_state p v s = let t = s.task p in record s { task = put_task s.task p (record t { state = v }) }

-- How a call ends: it returns in the task that made it, or the processor has gone over to another
-- task, and what the call has left to do waits until its own task runs again.
pub data Flow (A : Type 0) : Type 0 where
  returns : A → Flow A
  switches : A → Flow A

infixl 5 ◌>>=◌
abbrev pub ◌>>=◌ : Flow Sched → (Sched → Flow Sched) → Flow Sched
returns s >>= k = k s
switches s >>= k = switches s
