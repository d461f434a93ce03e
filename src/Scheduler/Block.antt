-- ===== src/Scheduler/Block.antt =====
-- task.c and sleep.c: a task that blocks, sleeps or is put back in the queue.
use cho_os.Prelude.{
  ℕ, ◌+◌, ◌^◌, ◌<◌, ◌≡◌, ◌≢◌, refl, ap₂, ◌∙◌, subst, true, false, List, [], ◌∷◌, ◌++◌, ◌==◌,
  if◌then◌else◌, arith, Bool-cases, inl, inr, add32, sub32,
}
use cho_os.Scheduler.State.{
  TaskState, ready_to_run, running, sleeping, Sched, set_next, set_state, returns, switches,
}
use cho_os.Scheduler.Switch.{
  lock_scheduler, unlock_scheduler, release_interrupts, schedule, is_runnable,
}
use cho_os.Scheduler.Tasks.{
  append_ready, block_task, unblock_task, enlist_sleeper, micro_sleep_until,
}
use cho_os.Scheduler.Queue.{NotIn, IsReady, put_task-IsReady, append_ready-IsReady}
use cho_os.Scheduler.RoundRobin.{schedule-Rotated}

-- No switch is postponed, and the lock counters have room for one more.
pub record IsQuiet (s : Sched) : Type 0 where
  pub none_postponed : s.postponed_flag ≡ 0
  pub irq_room : s.irq_disable_counter + 1 < 2 ^ 32
  pub room : s.postpone_counter + 1 < 2 ^ 32

-- the state after an unlock that has no postponed switch to make
abbrev pub released : Sched → Sched
released s =
    let n = sub32 s.irq_disable_counter 1 in
    record s {
      postpone_counter = sub32 s.postpone_counter 1;
      irq_disable_counter = n;
      interrupts = if n == 0 then true else s.interrupts;
    }

pub unlock-released : (s : Sched) → s.postponed_flag ≡ 0 → unlock_scheduler s ≡ returns (released s)
unfolding unlock_scheduler release_interrupts
unlock-released s quiet =
    let plain : (s.postponed_flag == 0) ≡ true = ground arith in
    elim (Bool-cases (sub32 s.postpone_counter 1 == 0)) [
      | inl outer ↦ rw (outer, plain)
      | inr inner ↦ rw inner
    ]

-- what a lock and its unlock leave, if nothing happens to the counters in between
abbrev pub relocked : Sched → Sched
relocked s = record s { interrupts = if s.irq_disable_counter == 0 then true else false }

-- With no switch postponed and the lock counters below their limits, `unlock_scheduler` takes back
-- what `lock_scheduler` did: the counters are as before, interrupts are on again exactly when the
-- outermost lock is released, and no switch takes place.
pub unlock-lock :
    (s : Sched) → IsQuiet s → unlock_scheduler (lock_scheduler s) ≡ returns (relocked s)
unfolding lock_scheduler
unlock-lock s quiet =
    let counter : sub32 (add32 s.postpone_counter 1) 1 ≡ s.postpone_counter =
      omega (arith, quiet.room) in
    let irq : sub32 (add32 s.irq_disable_counter 1) 1 ≡ s.irq_disable_counter =
      omega (arith, quiet.irq_room) in
    unlock-released (lock_scheduler s) quiet.none_postponed
    ∙ ap₂
        (λ (p i : ℕ). returns (record s {
          postpone_counter = p;
          irq_disable_counter = i;
          interrupts = if i == 0 then true else false;
        }))
        counter irq

-- Appending touches the queue and `next` fields only.
pub record AppendKeeps (s s' : Sched) : Type 0 where
  pub current : s'.current ≡ s.current
  pub flag : s'.postponed_flag ≡ s.postponed_flag
  pub postpone : s'.postpone_counter ≡ s.postpone_counter
  pub irq : s'.irq_disable_counter ≡ s.irq_disable_counter
  pub pids : s'.current_pid ≡ s.current_pid
  pub sleepers : s'.sleeping_tasks ≡ s.sleeping_tasks
  pub states : (a : ℕ) → (s'.task a).state ≡ (s.task a).state
  pub deadlines : (a : ℕ) → (s'.task a).target_wakeup_time ≡ (s.task a).target_wakeup_time

pub append_ready-AppendKeeps : (t : ℕ) (s : Sched) → AppendKeeps s (append_ready t s)
unfolding append_ready
append_ready-AppendKeeps t s = elim (Bool-cases (s.first_ready == 0)) [
  | inl empty ↦ rw empty (record {
    current = refl;
    flag = refl;
    postpone = refl;
    irq = refl;
    pids = refl;
    sleepers = refl;
    states = λ a. refl;
    deadlines = λ a. refl;
  })
  | inr waiting ↦ rw waiting (record {
    current = refl;
    flag = refl;
    postpone = refl;
    irq = refl;
    pids = refl;
    sleepers = refl;
    states = λ a. ground arith;
    deadlines = λ a. ground arith;
  })
]

-- With no switch postponed and the lock counters below their limits, `unblock_task` of a task that
-- is not in the queue returns; the task is ready, at the end of the queue, and the task that runs
-- is the same.
pub unblock_task-IsReady :
    (t : ℕ) (s : Sched) (q : List ℕ)
    → IsQuiet s
    → IsReady s q
    → NotIn t q
    → t ≢ 0
    → (s' : Sched) × (unblock_task t s ≡ returns s')
      × IsReady s' (q ++ (t ∷ []))
      × ((s'.task t).state ≡ ready_to_run)
      × (s'.current ≡ s.current)
unfolding unblock_task lock_scheduler
unblock_task-IsReady t s q quiet r out ne =
    let s1 = set_next t 0 (set_state t ready_to_run (lock_scheduler s)) in
    let s2 = append_ready t s1 in
    let keeps = append_ready-AppendKeeps t s1 in
    let r1 : IsReady s1 q =
      put_task-IsReady t _ (set_state t ready_to_run (lock_scheduler s)) q
        (put_task-IsReady t _ (lock_scheduler s) q
          (record { linked = r.linked; last = r.last; distinct = r.distinct }) out)
        out in
    let r2 = append_ready-IsReady t s1 q r1 out ne (ground arith) in
    (
      released s2,
      unlock-released s2 (keeps.flag ∙ quiet.none_postponed),
      record { linked = r2.linked; last = r2.last; distinct = r2.distinct },
      keeps.states t ∙ (ground arith),
      keeps.current,
    )

-- With no lock held, no switch postponed and the lock counters below their limits, where a task
-- runs that is not in the queue, `block_task` for a reason that is not a runnable state gives the
-- processor to the first task that waits; the blocked one has that state and is left out of the
-- queue.
pub block_task-Rotated :
    (reason : TaskState) (s : Sched) (t : ℕ) (q : List ℕ)
    → IsQuiet s
    → s.postpone_counter ≡ 0
    → is_runnable reason ≡ false
    → IsReady s (t ∷ q)
    → NotIn s.current (t ∷ q)
    → s.current ≢ 0
    → (s' : Sched) × (block_task reason s ≡ switches s')
      × IsReady s' q
      × (s'.current ≡ t)
      × ((s'.task t).state ≡ running)
      × ((s'.task s.current).state ≡ reason)
unfolding block_task lock_scheduler
block_task-Rotated reason s t q quiet free stuck r out ne =
    let c = s.current in
    let s1 = set_state c reason (lock_scheduler s) in
    let s2 = released s1 in
    let r1 =
      put_task-IsReady c _ (lock_scheduler s) (t ∷ q)
        (record { linked = r.linked; last = r.last; distinct = r.distinct }) out in
    let r2 : IsReady s2 (t ∷ q) = record {
      linked = r1.linked;
      last = r1.last;
      distinct = r1.distinct;
    } in
    let is : (s2.task c).state ≡ reason = ground arith in
    let stops : is_runnable (s2.task c).state ≡ false = rw is stuck in
    let (s', e, rot) = schedule-Rotated s2 t q (omega (arith, free)) r2 out ne in
    (
      s',
      rw (unlock-released s1 quiet.none_postponed) e,
      subst (λ b. IsReady s' (if b then q ++ (c ∷ []) else q)) stops rot.queue,
      rot.chosen,
      rot.runs,
      rot.stepped_back ∙ rw (stops) is,
    )

block_task-alone :
    (reason : TaskState) (s : Sched)
    → IsQuiet s
    → s.postpone_counter ≡ 0
    → s.first_ready ≡ 0
    → block_task reason s ≡ returns (released (set_state s.current reason (lock_scheduler s)))
unfolding block_task lock_scheduler schedule
block_task-alone reason s quiet free none_ready =
    let s1 = released (set_state s.current reason (lock_scheduler s)) in
    let counter : (s1.postpone_counter == 0) ≡ true = ground (arith, free) in
    let empty : (s.first_ready == 0) ≡ true = ground arith in
    rw (unlock-released (set_state s.current reason (lock_scheduler s)) quiet.none_postponed)
      (rw (counter, empty))

-- With no lock held, no switch postponed, the lock counters below their limits and no other task
-- ready, `micro_sleep_until` returns at once: the caller is still the running task, though its
-- state says that it sleeps, and it stands first on the list of sleepers.
pub micro_sleep_until-alone :
    (deadline : ℕ) (s : Sched)
    → IsQuiet s
    → s.postpone_counter ≡ 0
    → s.first_ready ≡ 0
    → (s' : Sched) × (micro_sleep_until deadline s ≡ returns s')
      × (s'.current ≡ s.current)
      × ((s'.task s.current).state ≡ sleeping)
      × (s'.sleeping_tasks ≡ s.current)
unfolding micro_sleep_until lock_scheduler enlist_sleeper
micro_sleep_until-alone deadline s quiet free none_ready =
    let s1 = enlist_sleeper deadline (lock_scheduler s) in
    let s2 = released s1 in
    let quiet2 : IsQuiet s2 = record {
      none_postponed = quiet.none_postponed;
      irq_room = omega (arith, quiet.irq_room);
      room = omega (arith, quiet.room);
    } in
    (
      released (set_state s.current sleeping (lock_scheduler s2)),
      rw (unlock-released s1 quiet.none_postponed)
          (block_task-alone sleeping s2 quiet2 (omega (arith, free)) none_ready),
      refl,
      ground arith,
      refl,
    )
