-- ===== src/Scheduler/Create.antt =====
-- What `create_kernel_task` does to the ready queue.
use cho_os.Prelude.{ℕ, ◌+◌, ◌<◌, ◌%◌, ◌^◌, ◌≡◌, ◌≢◌, ◌∙◌, List, [], ◌∷◌, ◌++◌, arith}
use cho_os.Scheduler.State.{ready_to_run, Sched, put_task, returns}
use cho_os.Scheduler.Switch.{lock_scheduler}
use cho_os.Scheduler.Tasks.{append_ready, create_kernel_task}
use cho_os.Scheduler.Queue.{IsReady, NotIn, append_ready-IsReady, put_task-IsReady}
use cho_os.Scheduler.Block.{IsQuiet, released, unlock-released, append_ready-AppendKeeps}

-- With no switch postponed, the lock counters and the task numbers below their limits, and a
-- control block that is not NULL and not in the queue, `create_kernel_task` returns; the new task
-- is ready, at the end of the queue, its number is the last one given out plus one, and the task
-- that runs and the locks held are the same, and no other task changes its state.
pub create_kernel_task-IsReady :
    (t stack_base esp cr3 : ℕ) (s : Sched) (q : List ℕ)
    → IsQuiet s
    → IsReady s q
    → NotIn t q
    → t ≢ 0
    → s.current_pid + 1 < 2 ^ 32
    → (s' : Sched) × (create_kernel_task t stack_base esp cr3 s ≡ returns s')
      × IsReady s' (q ++ (t ∷ []))
      × ((s'.task t).state ≡ ready_to_run)
      × (s'.current_pid ≡ s.current_pid + 1)
      × (s'.current ≡ s.current)
      × (s'.postpone_counter ≡ s.postpone_counter)
      × ((a : ℕ) → a ≢ t → (s'.task a).state ≡ (s.task a).state)
unfolding create_kernel_task lock_scheduler
create_kernel_task-IsReady t stack_base esp cr3 s q quiet r out ne small =
    let s1 = record (lock_scheduler s) {
      current_pid = (s.current_pid + 1) % 2 ^ 64;
      task = put_task s.task t _;
    } in
    let s2 = append_ready t s1 in
    let keeps = append_ready-AppendKeeps t s1 in
    let r1 : IsReady s1 q =
      put_task-IsReady t _
        (record (lock_scheduler s) { current_pid = (s.current_pid + 1) % 2 ^ 64 }) q
        (record { linked = r.linked; last = r.last; distinct = r.distinct }) out in
    let r2 = append_ready-IsReady t s1 q r1 out ne (ground arith) in
    (
      released s2,
      unlock-released s2 (keeps.flag ∙ quiet.none_postponed),
      record { linked = r2.linked; last = r2.last; distinct = r2.distinct },
      keeps.states t ∙ (ground arith),
      keeps.pids ∙ omega (arith, small),
      keeps.current,
      omega (arith, keeps.postpone, quiet.room),
      λ a other. keeps.states a ∙ (ground (arith, other)),
    )
