-- ===== src/Scheduler/Tests.antt =====
-- The scheduler with a running task at 100 and two tasks that wait, at 200 and 300.
use cho_os.Memory.Machine.{◌>>=◌}
use cho_os.Prelude.{
  ℕ, List, Option, none, ◌≡◌, refl, true, some, [], ◌∷◌, ◌==◌, if◌then◌else◌, arith,
}
use cho_os.Scheduler.State.{
  TaskState, ready_to_run, running, sleeping, dead, TaskControlBlock, Sched, returns, switches,
}
use cho_os.Scheduler.Switch.{schedule, is_runnable}
use cho_os.Scheduler.Tasks.{
  block_task, micro_sleep_until, update_awoken_tasks, multitasking_initialize, checked_kernel_task,
}
use cho_os.Scheduler.Queue.{IsReady}
use cho_os.Scheduler.RoundRobin.{Rotated, schedule-Rotated}
use cho_os.Scheduler.Fairness.{rounds, rounds-runs}
use cho_os.Scheduler.Awaken.{Wakes, update_awoken_tasks-Wakes}
use cho_os.Scheduler.Start.{first_switch}
use cho_os.Scheduler.Cleanup.{dead_tasks_cleanup, allocations, free_all, dead_tasks_cleanup-frees}
use cho_os.Scheduler.Block.{IsQuiet, relocked, block_task-Rotated, micro_sleep_until-alone}

abbrev block_of : ℕ → ℕ → TaskState → TaskControlBlock
block_of id next state = record {
  id = id;
  esp = 0;
  esp0 = 0;
  cr3 = 0;
  next = next;
  state = state;
  time_used = 0;
  stack_base = 0;
  target_wakeup_time = 0;
}

abbrev blocks : ℕ → TaskControlBlock
blocks a =
    if a == 100
    then block_of 0 0 running
    else if a == 200
    then block_of 1 300 ready_to_run
    else block_of 2 0 ready_to_run

abbrev sample : Sched
sample = record {
  last_tick = 3;
  ticks_since_boot = 5;
  current_pid = 2;
  irq_disable_counter = 0;
  postpone_counter = 0;
  postponed_flag = 0;
  interrupts = true;
  current = 100;
  first_ready = 200;
  last_ready = 300;
  dead_tasks = 0;
  sleeping_tasks = 0;
  task = blocks;
}

abbrev alone : Sched
alone = record sample { first_ready = 0; last_ready = 0 }

sample-IsReady : IsReady sample (200 ∷ 300 ∷ [])
sample-IsReady = record { linked = omega arith; last = refl; distinct = ground arith }

sample-IsQuiet : IsQuiet sample
sample-IsQuiet = omega arith

schedule-Rotated_example :
    (s' : Sched) × (schedule sample ≡ switches s') × Rotated sample 200 (300 ∷ []) s'
schedule-Rotated_example =
    schedule-Rotated sample 200 (300 ∷ []) refl sample-IsReady (ground arith) (omega arith)

rounds-runs_example :
    ((rounds 2 sample).current ≡ 300) × (((rounds 2 sample).task 300).state ≡ running)
rounds-runs_example =
    rounds-runs sample (200 ∷ []) 300 [] refl sample-IsReady (ground arith) (omega arith)

block_task-Rotated_example :
    (s' : Sched) × (block_task sleeping sample ≡ switches s')
    × IsReady s' (300 ∷ [])
    × (s'.current ≡ 200)
    × ((s'.task 200).state ≡ running)
    × ((s'.task 100).state ≡ sleeping)
unfolding is_runnable
block_task-Rotated_example =
    block_task-Rotated sleeping sample 200 (300 ∷ []) sample-IsQuiet refl refl sample-IsReady
      (ground arith) (omega arith)

micro_sleep_until-alone_example :
    (s' : Sched) × (micro_sleep_until 50 alone ≡ returns s')
    × (s'.current ≡ 100)
    × ((s'.task 100).state ≡ sleeping)
    × (s'.sleeping_tasks ≡ 100)
micro_sleep_until-alone_example = micro_sleep_until-alone 50 alone (omega arith) refl refl

abbrev crowd_blocks : ℕ → TaskControlBlock
crowd_blocks a =
    if a == 400
    then block_of 7 0 sleeping
    else if a == 500
    then (let b = block_of 8 0 dead in record b { stack_base = 0x9000 })
    else blocks a

-- Task 400 sleeps, and 500 is dead.
abbrev crowd : Sched
crowd = record sample { sleeping_tasks = 400; dead_tasks = 500; task = crowd_blocks }

-- a heap that notes what it frees, and fails for NULL
abbrev noting : ℕ → List ℕ → Option (List ℕ)
noting p freed = if p == 0 then none else some (p ∷ freed)

dead_tasks_cleanup-frees_example : dead_tasks_cleanup noting 5 crowd [] ≡ (
    free_all noting (allocations crowd_blocks (500 ∷ [])) [] >>= λ h.
    some (h, returns (record (relocked crowd) { dead_tasks = 0 })))
dead_tasks_cleanup-frees_example =
    dead_tasks_cleanup-frees noting 5 crowd (500 ∷ []) [] (omega arith) (omega arith) (omega arith)

first_switch_example :
    (s1 : Sched) × (s2 : Sched) × (s3 : Sched) × (multitasking_initialize 100 4096 alone ≡ some s1)
    × (checked_kernel_task 400 8192 9000 4096 s1 ≡ some (returns s2))
    × (schedule s2 ≡ switches s3)
    × (s3.current ≡ 400)
    × ((s3.task 400).state ≡ running)
    × IsReady s3 (100 ∷ [])
first_switch_example =
    first_switch 100 4096 400 8192 9000 alone (omega arith) (omega arith) (omega arith)
      (omega arith) refl refl (omega arith)

-- Tasks 400 and 500 sleep, the second one until tick 9.
abbrev drowsy : Sched
drowsy = record sample {
  sleeping_tasks = 400;
  task = λ a.
      if a == 400
      then record (block_of 3 500 sleeping) { target_wakeup_time = 12 }
      else if a == 500
      then record (block_of 4 0 sleeping) { target_wakeup_time = 9 }
      else blocks a;
}

drowsy-IsReady : IsReady drowsy (200 ∷ 300 ∷ [])
drowsy-IsReady = record { linked = omega arith; last = refl; distinct = ground arith }

update_awoken_tasks-Wakes_example :
    (s' : Sched) × (update_awoken_tasks 3 9 drowsy ≡ some (returns s'))
    × Wakes 9 (400 ∷ 500 ∷ []) (200 ∷ 300 ∷ []) drowsy s'
update_awoken_tasks-Wakes_example =
    update_awoken_tasks-Wakes 3 9 drowsy (400 ∷ 500 ∷ []) (200 ∷ 300 ∷ []) refl (omega arith)
      (omega arith) drowsy-IsReady (omega arith) (ground arith) (ground arith) (omega arith)
