-- ===== src/Scheduler/Start.antt =====
-- From `multitasking_initialize` to the first switch.
use cho_os.Prelude.{
  ◌||◌, ◌==◌, false, some, ap, ℕ, ◌+◌, ◌<◌, ◌^◌, ◌≡◌, ◌≢◌, refl, ap, sym, ◌∙◌, subst, some, [], ◌∷◌,
  ◌==◌, arith, false,
}
use cho_os.Scheduler.State.{running, Sched, returns, switches}
use cho_os.Scheduler.Switch.{schedule, is_runnable}
use cho_os.Scheduler.Tasks.{initialized, multitasking_initialize, checked_kernel_task}
use cho_os.Scheduler.Queue.{IsReady, NotIn}
use cho_os.Scheduler.Block.{IsQuiet}
use cho_os.Scheduler.RoundRobin.{schedule-Rotated, after_requeue}
use cho_os.Scheduler.Create.{create_kernel_task-IsReady}

-- What `multitasking_initialize` leaves, from empty queues.
record Started (kernel_task : ℕ) (s s' : Sched) : Type 0 where
  ready : IsReady s' []
  quiet : IsQuiet s'
  current : s'.current ≡ kernel_task
  free : s'.postpone_counter ≡ 0
  pids : s'.current_pid ≡ s.current_pid
  runs : (s'.task kernel_task).state ≡ running

started :
    (kernel_task cr3 : ℕ) (s : Sched)
    → kernel_task ≢ 0
    → s.first_ready ≡ 0
    → s.last_ready ≡ 0
    → (s' : Sched) × (multitasking_initialize kernel_task cr3 s ≡ some s')
      × Started kernel_task s s'
unfolding multitasking_initialize
started kernel_task cr3 s ne first last =
    let block : (kernel_task == 0) ≡ false = ground (arith, ne) in
    (
      initialized kernel_task cr3 s,
      rw block refl,
      record {
        ready = record { linked = first; last = last; distinct = tt };
        quiet = record { none_postponed = refl; irq_room = omega arith; room = omega arith };
        current = refl;
        free = refl;
        pids = refl;
        runs = ground arith;
      },
    )

-- From empty queues, with task numbers below their limit, two control blocks and a stack, none of them
-- NULL, `multitasking_initialize` and then `create_kernel_task` return without an abort, and the first
-- `schedule` goes over to the new task, which runs, while the code that ran before waits, alone.
pub first_switch :
    (kernel_task cr3 new_task stack_base esp : ℕ) (s : Sched)
    → kernel_task ≢ 0
    → new_task ≢ 0
    → stack_base ≢ 0
    → kernel_task ≢ new_task
    → s.first_ready ≡ 0
    → s.last_ready ≡ 0
    → s.current_pid + 1 < 2 ^ 32
    → (s1 : Sched) × (s2 : Sched) × (s3 : Sched) × (multitasking_initialize kernel_task cr3 s
        ≡ some s1)
      × (checked_kernel_task new_task stack_base esp cr3 s1 ≡ some (returns s2))
      × (schedule s2 ≡ switches s3)
      × (s3.current ≡ new_task)
      × ((s3.task new_task).state ≡ running)
      × IsReady s3 (kernel_task ∷ [])
unfolding is_runnable checked_kernel_task
first_switch kernel_task cr3 new_task stack_base esp s nk nn ns apart first last pids =
    let blocks : ((new_task == 0) || (stack_base == 0)) ≡ false = ground (arith, nn, ns) in
    let (s1, e1, st) = started kernel_task cr3 s nk first last in
    let (s2, e2, r2, _, _, current, free, states) =
      create_kernel_task-IsReady new_task stack_base esp cr3 s1 [] st.quiet st.ready tt nn
        (omega (arith, st.pids, pids)) in
    let state : (s2.task kernel_task).state ≡ running = states kernel_task apart ∙ st.runs in
    let at : s2.current ≡ kernel_task = current ∙ st.current in
    let (s3, e3, rotated) =
      schedule-Rotated s2 new_task [] (free ∙ st.free) r2
        (subst (λ c. NotIn c (new_task ∷ [])) (sym at) (apart, tt)) (λ z. nk (sym at ∙ z)) in
    (
      s1,
      s2,
      s3,
      e1,
      rw (checked_kernel_task, blocks) (ap some e2),
      e3,
      rotated.chosen,
      rotated.runs,
      subst (λ b. IsReady s3 (after_requeue b [] kernel_task)) (ap is_runnable state)
          (subst (λ c. IsReady s3 (after_requeue (is_runnable (s2.task c).state) [] c)) at
            rotated.queue),
    )
