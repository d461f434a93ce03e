-- ===== src/Scheduler/RoundRobin.antt =====
-- `schedule` as round robin over the list of ready tasks.
use cho_os.Prelude.{
  ℕ, ◌≡◌, ◌≢◌, refl, ◌∙◌, sym, subst, Bool, true, false, List, [], ◌∷◌, ◌++◌, ◌==◌, if◌then◌else◌,
  arith, Bool-cases, ◌&&◌, inl, inr,
}
use cho_os.Scheduler.State.{ready_to_run, running, Sched, set_next, set_state, switches}
use cho_os.Scheduler.Switch.{
  schedule, update_time_used, requeue_current, switch_to_task, is_runnable, append_last,
}
use cho_os.Scheduler.Queue.{
  NotIn, IsReady, Linked-put, NotIn-snoc, append_ready-IsReady, append_last-eq-append_ready,
  put_task-IsReady, IsReady-tail,
}

-- What the queue becomes when the current task steps back.
abbrev pub after_requeue : Bool → List ℕ → ℕ → List ℕ
after_requeue runnable q c = if runnable then q ++ (c ∷ []) else q

requeue-IsReady :
    (s : Sched) (q : List ℕ)
    → IsReady s q
    → NotIn s.current q
    → s.current ≢ 0
    → IsReady (requeue_current s) (after_requeue (is_runnable (s.task s.current).state) q s.current)
unfolding requeue_current
requeue-IsReady s q r out ne = elim (Bool-cases (is_runnable (s.task s.current).state)) [
  | inl goes_on ↦
      let c = s.current in
      let s1 = set_next c 0 (set_state c ready_to_run s) in
      let r1 : IsReady s1 q =
        put_task-IsReady c _ (set_state c ready_to_run s) q (put_task-IsReady c _ s q r out) out in
      rw (goes_on, append_last-eq-append_ready c s1 q r1)
        (append_ready-IsReady c s1 q r1 out ne (ground arith))
  | inr stops ↦ rw stops r
]

-- `schedule` has gone over from the task `c`, with state `v`, to `t`, and left `q` waiting.
pub record Rotated (s : Sched) (t : ℕ) (q : List ℕ) (s' : Sched) : Type 0 where
  pub chosen : s'.current ≡ t
  pub runs : (s'.task t).state ≡ running
  pub queue : IsReady s' (after_requeue (is_runnable (s.task s.current).state) q s.current)
  pub stepped_back :
      (s'.task s.current).state
      ≡ (if is_runnable (s.task s.current).state then ready_to_run else (s.task s.current).state)
  pub others : (a : ℕ) → a ≢ t → a ≢ s.current → (s'.task a).state ≡ (s.task a).state
  pub apart : NotIn t (after_requeue (is_runnable (s.task s.current).state) q s.current)
  pub unlocked : s'.postpone_counter ≡ 0

requeue-state :
    (s : Sched) (a : ℕ)
    → s.current ≢ 0
    → ((requeue_current s).task a).state ≡ (
        if a == s.current && is_runnable (s.task s.current).state
        then ready_to_run
        else (s.task a).state)
unfolding requeue_current append_last
requeue-state s a ne = ground arith

requeue-NotIn :
    (t c : ℕ) (q : List ℕ) (b : Bool) → t ≢ c → NotIn t q → NotIn t (after_requeue b q c)
requeue-NotIn t c q true ne out = NotIn-snoc t c q ne out
requeue-NotIn t c q false ne out = out

update_time_used-IsReady :
    (s : Sched) (q : List ℕ) → IsReady s q → NotIn s.current q → IsReady (update_time_used s) q
unfolding update_time_used
update_time_used-IsReady s q r out = record {
  linked = Linked-put s.task s.first_ready s.current _ q out r.linked;
  last = r.last;
  distinct = r.distinct;
}

update_time_used-state :
    (s : Sched) (a : ℕ) → ((update_time_used s).task a).state ≡ (s.task a).state
unfolding update_time_used
update_time_used-state s a = ground arith

update_time_used-rest :
    (s : Sched)
    → ((update_time_used s).current ≡ s.current)
      × ((update_time_used s).postpone_counter ≡ s.postpone_counter)
unfolding update_time_used
update_time_used-rest s = (refl, refl)

requeue-postpone : (s : Sched) → (requeue_current s).postpone_counter ≡ s.postpone_counter
unfolding requeue_current append_last
requeue-postpone s = ground arith

-- the state that `_switch_to_task` leaves where it does switch
abbrev entered : ℕ → Sched → Sched
entered t s = set_state t running (record s { current = t })

switch-entered :
    (t : ℕ) (s : Sched) → s.postpone_counter ≡ 0 → switch_to_task t s ≡ switches (entered t s)
unfolding switch_to_task
switch-entered t s free = rw free

-- the queue without its first task
abbrev dequeued : ℕ → Sched → Sched
dequeued t s =
    let rest = (s.task t).next in
    record s { first_ready = rest; last_ready = if rest == 0 then 0 else s.last_ready }

schedule-steps :
    (s : Sched) (t : ℕ)
    → s.postpone_counter ≡ 0
    → s.first_ready ≡ t
    → t ≢ 0
    → schedule s ≡ switch_to_task t (requeue_current (update_time_used (dequeued t s)))
unfolding schedule
schedule-steps s t free first ne =
    let valid : (t == 0) ≡ false = ground arith in simp (free, first, valid)

-- With no lock held and a task waiting, where a task runs that is not in the ready queue,
-- `schedule` goes over to the first one of the queue, which runs; the task that was running goes
-- to the end of the queue and becomes ready, unless its state says that it is blocked, and no
-- other task changes its state. It is not in the queue then, and no lock is held.
pub schedule-Rotated :
    (s : Sched) (t : ℕ) (q : List ℕ)
    → s.postpone_counter ≡ 0
    → IsReady s (t ∷ q)
    → NotIn s.current (t ∷ q)
    → s.current ≢ 0
    → (s' : Sched) × (schedule s ≡ switches s') × Rotated s t q s'
schedule-Rotated s t q free r out ne =
    let s1 = dequeued t s in
    let s2 = update_time_used s1 in
    let s3 = requeue_current s2 in
    let rest = update_time_used-rest s1 in
    let state = update_time_used-state s1 in
    let out2 : NotIn s2.current q = rw (rest.0) out.1 in
    let r2 = update_time_used-IsReady s1 q (IsReady-tail s t q r) out.1 in
    let r3 = requeue-IsReady s2 q r2 out2 (rw (rest.0) ne) in
    let shape : after_requeue (is_runnable (s2.task s2.current).state) q s2.current
        ≡ after_requeue (is_runnable (s.task s.current).state) q s.current =
      rw (rest.0, state s.current) in
    let queue = subst (IsReady s3) shape r3 in
    let fresh = requeue-NotIn t s.current q _ (λ e. out.0 (sym e)) r.distinct.0 in
    let states : (a : ℕ)
        → (s3.task a).state ≡ (
            if a == s.current && is_runnable (s.task s.current).state
            then ready_to_run
            else (s.task a).state) =
      (λ a. requeue-state s2 a (rw (rest.0) ne) ∙ rw (rest.0, state s.current, state a)) in
    (
      entered t s3,
      schedule-steps s t free r.linked.0 r.linked.1
          ∙ switch-entered t s3 (requeue-postpone s2 ∙ rest.1 ∙ free),
      record {
        chosen = refl;
        runs = ground arith;
        queue =
            put_task-IsReady t _ (record s3 { current = t }) _
              (record { linked = queue.linked; last = queue.last; distinct = queue.distinct })
              fresh;
        stepped_back = ground (arith, states s.current, out.0);
        others = λ a nt nc. ground (arith, states a);
        apart = fresh;
        unlocked = requeue-postpone s2 ∙ rest.1 ∙ free;
      },
    )
