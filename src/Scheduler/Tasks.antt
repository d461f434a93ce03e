-- ===== src/Scheduler/Tasks.antt =====
-- task.c, sleep.c and the task lists of scheduler.c. A walk along a list takes fuel; where it runs
-- out the call has not returned.
use cho_os.Prelude.{
  true, ℕ, zero, suc, ◌+◌, ◌%◌, ◌^◌, ◌&&◌, ◌||◌, not, Option, none, some, leb, ◌==◌, if◌then◌else◌,
  add32, mul32,
}
use cho_os.Scheduler.State.{
  TaskState, terminated, not_found, dead, ready_to_run, running, sleeping, TaskControlBlock, Sched,
  put_task, set_next, set_state, Flow, returns, switches, ◌>>=◌,
}
use cho_os.Scheduler.Switch.{lock_scheduler, unlock_scheduler, schedule, update_time_used}

-- The code by which `create_kernel_task` and `unblock_task` put a task at the end of the queue.
unfoldable pub append_ready : ℕ → Sched → Sched
append_ready t s =
    if s.first_ready == 0
    then record s { first_ready = t; last_ready = t }
    else (let s1 = set_next s.last_ready t s in record s1 { last_ready = t })

unfoldable pub block_task : TaskState → Sched → Flow Sched
unfolding lock_scheduler unlock_scheduler schedule
block_task reason s =
    let locked = lock_scheduler s in
    unlock_scheduler (set_state locked.current reason locked) >>= schedule

unfoldable pub unblock_task : ℕ → Sched → Flow Sched
unfolding lock_scheduler unlock_scheduler append_ready
unblock_task t s =
    unlock_scheduler (append_ready t (set_next t 0 (set_state t ready_to_run (lock_scheduler s))))

-- `current_task_PCB->next = dead_tasks; dead_tasks = current_task_PCB;`
unfoldable pub push_dead : Sched → Sched
push_dead s = let s1 = set_next s.current s.dead_tasks s in record s1 { dead_tasks = s.current }

-- The abort behind the last call is reached where this flow returns.
unfoldable pub terminate_task : Sched → Flow Sched
unfolding lock_scheduler unlock_scheduler push_dead block_task
terminate_task s = unlock_scheduler (push_dead (lock_scheduler s)) >>= block_task terminated

-- Likewise.
unfoldable pub mark_task_for_death : Sched → Flow Sched
unfolding lock_scheduler unlock_scheduler push_dead schedule
mark_task_for_death s =
    let locked = lock_scheduler s in
    unlock_scheduler (push_dead (set_state locked.current dead locked)) >>= schedule

-- What `micro_sleep_until` writes while it holds the lock.
unfoldable pub enlist_sleeper : ℕ → Sched → Sched
enlist_sleeper micro_seconds s =
    let c = s.current in
    let t = s.task c in
    let s1 = record s {
      task = put_task s.task c (record t { target_wakeup_time = micro_seconds });
    } in
    let s2 = set_next c s1.sleeping_tasks s1 in record s2 { sleeping_tasks = c }

unfoldable pub micro_sleep_until : ℕ → Sched → Flow Sched
unfolding lock_scheduler unlock_scheduler block_task enlist_sleeper
micro_sleep_until micro_seconds s =
    unlock_scheduler (enlist_sleeper micro_seconds (lock_scheduler s)) >>= block_task sleeping

-- The argument of `micro_sleep_until` is 32 bits wide, so the deadline is cut to that.
unfoldable pub micro_sleep : ℕ → Sched → Flow Sched
unfolding micro_sleep_until
micro_sleep micro_seconds s = micro_sleep_until (add32 s.ticks_since_boot micro_seconds) s

unfoldable pub sleep : ℕ → Sched → Flow Sched
unfolding micro_sleep
sleep seconds s = micro_sleep (mul32 seconds 1000) s

-- the loop of `internal_update_awoken_taskes`
unfoldable pub wake_from : ℕ → ℕ → ℕ → ℕ → Sched → Option (Flow Sched)
wake_from zero now prev curr s = none
wake_from (suc fuel) now prev curr s =
    let next = (s.task curr).next in
    let unlinked = if prev == 0 then record s { sleeping_tasks = next } else set_next prev next s in
    let woken : Option (Flow Sched) = elim (unblock_task curr unlinked) [
      | returns s' ↦ wake_from fuel now prev next s'
      | switches s' ↦ some (switches s')
    ] in
    let kept = wake_from fuel now curr next s in
    if curr == 0
    then some (returns s)
    else if leb (s.task curr).target_wakeup_time now
    then woken
    else kept

unfoldable pub update_awoken_tasks : ℕ → ℕ → Sched → Option (Flow Sched)
update_awoken_tasks fuel now s =
    let locked = lock_scheduler s in
    elim (wake_from fuel now 0 locked.sleeping_tasks locked) [
      | none ↦ none
      | some flow ↦ some (flow >>= unlock_scheduler)
    ]

-- a walk of `get_task_state`: the state of the first task with the number, if there is one
unfoldable pub state_in : ℕ → ℕ → ℕ → Sched → Option (Option TaskState)
state_in zero pid node s = none
state_in (suc fuel) pid node s =
    let t = s.task node in
    let rest = state_in fuel pid t.next s in
    if node == 0 then some none else if t.id == pid then some (some t.state) else rest

unfoldable pub or_else :
    Option (Option TaskState) → Option (Option TaskState) → Option (Option TaskState)
or_else none next = none
or_else (some none) next = next
or_else (some (some v)) next = some (some v)

unfoldable pub get_task_state : ℕ → ℕ → Sched → Option TaskState
unfolding state_in or_else
get_task_state fuel pid s =
    let walks =
      or_else (state_in fuel pid s.first_ready s)
        (or_else (state_in fuel pid s.sleeping_tasks s) (state_in fuel pid s.dead_tasks s)) in
    let found : Option TaskState = elim walks [
      | none ↦ none
      | some none ↦ some not_found
      | some (some v) ↦ some v
    ] in
    let c = s.task s.current in if not (s.current == 0) && c.id == pid then some c.state else found

-- The globals once the running code is a task, in the block `kernel_task`, which was zeroed first.
abbrev pub initialized : ℕ → ℕ → Sched → Sched
initialized kernel_task cr3 s =
    let block : TaskControlBlock = record {
      id = s.current_pid % 2 ^ 32;
      esp = 0;
      esp0 = 0;
      cr3 = cr3;
      next = kernel_task;
      state = running;
      time_used = 0;
      stack_base = 0;
      target_wakeup_time = 0;
    } in
    record s {
      current = kernel_task;
      task = put_task s.task kernel_task block;
      last_tick = s.ticks_since_boot;
      postpone_counter = 0;
      postponed_flag = 0;
      irq_disable_counter = 0;
      interrupts = true;
    }

-- What `multitasking_initialize` sets up, for the block that `kmalloc` returned and the address space
-- register; without a block it aborts. The timer event that it installs is in the timer's list.
unfoldable pub multitasking_initialize : ℕ → ℕ → Sched → Option Sched
multitasking_initialize kernel_task cr3 s =
    if kernel_task == 0 then none else some (initialized kernel_task cr3 s)

-- What `create_kernel_task` writes, for the two blocks that `kmalloc` returned, the stack pointer
-- that `_forge_kernel_stack` built and the address space register. The control block is zeroed first.
unfoldable pub create_kernel_task : ℕ → ℕ → ℕ → ℕ → Sched → Flow Sched
unfolding lock_scheduler unlock_scheduler append_ready
create_kernel_task new_task stack_base forged_esp cr3 s =
    let locked = lock_scheduler s in
    let pid = (locked.current_pid + 1) % 2 ^ 64 in
    let stack_top = add32 stack_base 16384 in
    let block : TaskControlBlock = record {
      id = pid % 2 ^ 32;
      esp = forged_esp;
      esp0 = stack_top;
      cr3 = cr3;
      next = 0;
      state = ready_to_run;
      time_used = 0;
      stack_base = stack_base;
      target_wakeup_time = 0;
    } in
    let s1 = record locked { current_pid = pid; task = put_task locked.task new_task block } in
    unlock_scheduler (append_ready new_task s1)

-- The tests of `create_kernel_task` on what `kmalloc` returned: it aborts, `none` here, without either
-- block.
unfoldable pub checked_kernel_task : ℕ → ℕ → ℕ → ℕ → Sched → Option (Flow Sched)
unfolding create_kernel_task
checked_kernel_task new_task stack_base forged_esp cr3 s =
    if (new_task == 0) || (stack_base == 0)
    then none
    else some (create_kernel_task new_task stack_base forged_esp cr3 s)

unfoldable pub get_current_task_time_used : Sched → ℕ × Sched
get_current_task_time_used s = let s1 = update_time_used s in ((s1.task s1.current).time_used, s1)
