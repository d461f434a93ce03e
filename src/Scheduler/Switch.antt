-- ===== src/Scheduler/Switch.antt =====
-- scheduler.c and switch_to_task.S: the locks and the choice of the next task. The counters are
-- 32 bits wide, the times 64.
use cho_os.Prelude.{ℕ, ◌+◌, ◌-◌, ◌%◌, ◌^◌, Bool, true, false, ◌==◌, if◌then◌else◌, add32, sub32}
use cho_os.Scheduler.State.{
  TaskState, ready_to_run, running, Sched, put_task, set_next, set_state, Flow, returns, switches,
  ◌>>=◌,
}

unfoldable pub lock_scheduler : Sched → Sched
lock_scheduler s = record s {
  interrupts = false;
  irq_disable_counter = add32 s.irq_disable_counter 1;
  postpone_counter = add32 s.postpone_counter 1;
}

unfoldable pub update_time_used : Sched → Sched
update_time_used s =
    let elapsed = (s.ticks_since_boot % 2 ^ 64 + 2 ^ 64 - s.last_tick % 2 ^ 64) % 2 ^ 64 in
    let t = s.task s.current in
    record s {
      last_tick = s.ticks_since_boot;
      task = put_task s.task s.current (record t { time_used = (t.time_used + elapsed) % 2 ^ 64 });
    }

-- `_switch_to_task`, up to the point where the next task's stack is in use.
unfoldable pub switch_to_task : ℕ → Sched → Flow Sched
switch_to_task next s =
    if s.postpone_counter == 0
    then switches (set_state next running (record s { current = next }))
    else returns (record s { postponed_flag = 1 })

-- the test of `schedule` on the current task's state
unfoldable pub is_runnable : TaskState → Bool
is_runnable running = true
is_runnable ready_to_run = true
is_runnable _ = false

-- The code by which `schedule` puts a task at the end of the ready queue.
unfoldable pub append_last : ℕ → Sched → Sched
append_last t s =
    if s.last_ready == 0
    then record s { first_ready = t; last_ready = t }
    else (let s1 = set_next s.last_ready t s in record s1 { last_ready = t })

-- A current task that could go on running is put at the end of the ready queue.
unfoldable pub requeue_current : Sched → Sched
unfolding is_runnable append_last
requeue_current s =
    let c = s.current in
    if is_runnable (s.task c).state
    then append_last c (set_next c 0 (set_state c ready_to_run s))
    else s

unfoldable pub schedule : Sched → Flow Sched
unfolding update_time_used switch_to_task requeue_current
schedule s =
    let next_task = s.first_ready in
    let rest = (s.task next_task).next in
    let s1 = record s { first_ready = rest; last_ready = if rest == 0 then 0 else s.last_ready } in
    if s.postpone_counter == 0
    then (if next_task == 0
        then returns s
        else switch_to_task next_task (requeue_current (update_time_used s1)))
    else returns (record s { postponed_flag = 1 })

-- The end of `unlock_scheduler`, behind the switch that may have been postponed.
unfoldable pub release_interrupts : Sched → Sched
release_interrupts s =
    let n = sub32 s.irq_disable_counter 1 in
    record s { irq_disable_counter = n; interrupts = if n == 0 then true else s.interrupts }

unfoldable pub unlock_scheduler : Sched → Flow Sched
unfolding schedule release_interrupts
unlock_scheduler s =
    let n = sub32 s.postpone_counter 1 in
    let s1 = record s { postpone_counter = n } in
    let postponed =
      if s.postponed_flag == 0 then returns s1 else schedule (record s1 { postponed_flag = 0 }) in
    (if n == 0 then postponed else returns s1) >>= λ s2. returns (release_interrupts s2)

-- the code in which a new task begins
pub task_start_up : Sched → Sched
task_start_up s = record s { interrupts = true }
