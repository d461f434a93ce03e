-- ===== src/Scheduler/Woken.antt =====
-- What `unblock_task` does to every task.
use cho_os.Prelude.{ℕ, ◌≡◌, ◌≢◌, refl, ◌∙◌, false, List, [], ◌∷◌, ◌++◌, ◌==◌, arith, NotIn}
use cho_os.Scheduler.State.{ready_to_run, Sched, set_next, set_state, returns}
use cho_os.Scheduler.Switch.{lock_scheduler}
use cho_os.Scheduler.Tasks.{append_ready, unblock_task}
use cho_os.Scheduler.Queue.{IsReady, last_of, NotIn-last_of, append_ready-IsReady, put_task-IsReady}
use cho_os.Scheduler.Block.{IsQuiet, released, unlock-released, append_ready-AppendKeeps}

-- What waking one task comes to.
pub record Woken (t : ℕ) (q : List ℕ) (s s' : Sched) : Type 0 where
  pub ready : IsReady s' (q ++ (t ∷ []))
  pub quiet : IsQuiet s'
  pub runs : (s'.task t).state ≡ ready_to_run
  pub current : s'.current ≡ s.current
  pub sleepers : s'.sleeping_tasks ≡ s.sleeping_tasks
  pub deadlines : (a : ℕ) → (s'.task a).target_wakeup_time ≡ (s.task a).target_wakeup_time
  pub states : (a : ℕ) → a ≢ t → (s'.task a).state ≡ (s.task a).state
  pub others : (a : ℕ) → a ≢ t → NotIn a q → s'.task a ≡ s.task a

append_ready-others :
    (t : ℕ) (s : Sched) (q : List ℕ) (a : ℕ)
    → IsReady s q
    → NotIn a q
    → (append_ready t s).task a ≡ s.task a
unfolding append_ready
append_ready-others t s [] a r out = rw (append_ready, r.linked) refl
append_ready-others t s (y ∷ ys) a r out =
    let some_first : (s.first_ready == 0) ≡ false = ground (arith, r.linked.0, r.linked.1) in
    let other : (a == last_of (y ∷ ys)) ≡ false = ground (arith, NotIn-last_of a y ys out) in
    rw (append_ready, some_first, r.last, other) refl

pub unblock_task-Woken :
    (t : ℕ) (s : Sched) (q : List ℕ)
    → IsQuiet s
    → IsReady s q
    → NotIn t q
    → t ≢ 0
    → (s' : Sched) × (unblock_task t s ≡ returns s') × Woken t q s s'
unfolding unblock_task lock_scheduler
unblock_task-Woken t s q quiet r out ne =
    let s1 = set_next t 0 (set_state t ready_to_run (lock_scheduler s)) in
    let s2 = append_ready t s1 in
    let keeps = append_ready-AppendKeeps t s1 in
    let r1 : IsReady s1 q =
      put_task-IsReady t _ (set_state t ready_to_run (lock_scheduler s)) q
        (put_task-IsReady t _ (lock_scheduler s) q
          (record { linked = r.linked; last = r.last; distinct = r.distinct }) out)
        out in
    let r2 = append_ready-IsReady t s1 q r1 out ne (ground arith) in
    (
      released s2,
      unlock-released s2 (keeps.flag ∙ quiet.none_postponed),
      record {
        ready = record { linked = r2.linked; last = r2.last; distinct = r2.distinct };
        quiet = record {
          none_postponed = keeps.flag ∙ quiet.none_postponed;
          irq_room = omega (arith, keeps.irq, quiet.irq_room);
          room = omega (arith, keeps.postpone, quiet.room);
        };
        runs = keeps.states t ∙ (ground arith);
        current = keeps.current;
        sleepers = keeps.sleepers;
        deadlines = λ a. keeps.deadlines a ∙ (ground arith);
        states = λ a other. keeps.states a ∙ (ground (arith, other));
        others = λ a other o.
            let apart : (a == t) ≡ false = ground (arith, other) in
            append_ready-others t s1 q a r1 o ∙ rw apart refl;
      },
    )
