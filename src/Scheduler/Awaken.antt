-- ===== src/Scheduler/Awaken.antt =====
-- `internal_update_awoken_taskes` wakes the tasks that are due.
use mathlib.Core.List.{append-nil, append_assoc}
use cho_os.Prelude.{
  ℕ, zero, suc, ◌+◌, ◌^◌, ◌<◌, ◌≡◌, ◌≢◌, refl, ap, sym, ◌∙◌, subst, true, false, some, List, [],
  ◌∷◌, ◌++◌, length, leb, ◌==◌, if◌then◌else◌, arith, Bool-cases, inl, inr, Distinct,
}
use cho_os.Scheduler.State.{TaskState, ready_to_run, TaskControlBlock, Sched, returns}
use cho_os.Scheduler.Switch.{lock_scheduler}
use cho_os.Scheduler.Tasks.{unblock_task, wake_from, update_awoken_tasks}
use cho_os.Scheduler.Queue.{IsReady, Linked, NotIn-snoc, Linked-put}
use cho_os.Scheduler.Block.{released, unlock-released}
use cho_os.Scheduler.Woken.{unblock_task-Woken}
use cho_os.Scheduler.Sleepers.{
  due, asleep, contains, AllApart, AllApart-snoc, NotIn-zero, Linked-agree, link_of, relink,
  relink-Relinked, Asleep, Awoken,
}

link_first :
    (prev n : ℕ) (s : Sched) → (prev == 0) ≡ true → link_of prev s ≡ n → s.sleeping_tasks ≡ n
link_first prev n s first e = rw first at e

link_later :
    (prev n : ℕ) (s : Sched) → (prev == 0) ≡ false → link_of prev s ≡ n → (s.task prev).next ≡ n
link_later prev n s later e = rw later at e

wake_from-kept :
    (fuel now prev curr : ℕ) (s : Sched)
    → (curr == 0) ≡ false
    → leb (s.task curr).target_wakeup_time now ≡ false
    → wake_from (suc fuel) now prev curr s ≡ wake_from fuel now curr (s.task curr).next s
unfolding wake_from
wake_from-kept fuel now prev curr s going later = rw (wake_from, going, later) refl

wake_from-woken :
    (fuel now prev curr : ℕ) (s s2 : Sched)
    → (curr == 0) ≡ false
    → leb (s.task curr).target_wakeup_time now ≡ true
    → unblock_task curr (relink prev (s.task curr).next s) ≡ returns s2
    → wake_from (suc fuel) now prev curr s ≡ wake_from fuel now prev (s.task curr).next s2
unfolding wake_from
wake_from-woken fuel now prev curr s s2 going due_now e = rw (wake_from, going, due_now, e) refl

wake_from-Awoken :
    (deadline : ℕ → ℕ) (fuel now prev curr : ℕ) (xs q : List ℕ) (s : Sched)
    → Asleep deadline prev xs q s
    → link_of prev s ≡ curr
    → length xs < fuel
    → (s' : Sched) × (wake_from fuel now prev curr s ≡ some (returns s'))
      × Awoken deadline now prev xs q s s'
unfolding wake_from
wake_from-Awoken deadline zero now prev curr xs q s h e less = absurd (omega arith)
wake_from-Awoken deadline (suc fuel) now prev curr [] q s h e less =
    let ended : (curr == 0) ≡ true = ground (arith, e, h.linked) in
    (
      s,
      rw (wake_from, ended) refl,
      record {
        linked = h.linked;
        ready = subst (IsReady s) (sym (append-nil q)) h.ready;
        quiet = h.quiet;
        current = refl;
        states = λ a. refl;
        others = λ a ne o p. refl;
        sleepers = λ ne. refl;
      },
    )
wake_from-Awoken deadline (suc fuel) now prev curr (x ∷ xs) q s h e less =
    let at : curr ≡ x = sym e ∙ h.linked.0 in
    let nonzero = h.linked.1 in
    let going : (x == 0) ≡ false = ground (arith, nonzero) in
    let next = (s.task x).next in
    let fewer : length xs < fuel = omega (arith, less) in
    elim (Bool-cases (leb (deadline x) now)) [
      | inl woken ↦
          let s1 = relink prev next s in
          let u = relink-Relinked prev next s q h.ready h.quiet h.prev_apart in
          let (s2, e2, w) = unblock_task-Woken x s1 q u.quiet u.ready h.apart.0 nonzero in
          let linked1 : Linked s1.task next xs = (elim (Bool-cases (prev == 0)) [
            | inl first ↦ rw first h.linked.2
            | inr later ↦ rw later (Linked-put s.task next prev _ xs h.behind.1 h.linked.2)
          ]) in
          let here : link_of prev s2 ≡ next = (elim (Bool-cases (prev == 0)) [
            | inl first ↦ rw first (w.sleepers ∙ link_first prev next s1 first u.at)
            | inr later ↦ rw later (
                ap (λ (b : TaskControlBlock). b.next) (w.others prev h.behind.0 h.prev_apart)
                ∙ link_later prev next s1 later u.at)
          ]) in
          let h' : Asleep deadline prev xs (q ++ (x ∷ [])) s2 = record {
            linked =
                subst (λ p. Linked s2.task p xs) (sym here)
                  (Linked-agree s1.task s2.task next x xs q w.others h.distinct.0 h.apart.1
                    linked1);
            distinct = h.distinct.1;
            apart = AllApart-snoc xs q x h.apart.1 h.distinct.0;
            behind = h.behind.1;
            prev_apart = NotIn-snoc prev x q h.behind.0 h.prev_apart;
            ready = w.ready;
            quiet = w.quiet;
            times = λ a. w.deadlines a ∙ u.deadlines a ∙ h.times a;
          } in
          let (s', e', ih) =
            wake_from-Awoken deadline fuel now prev next xs (q ++ (x ∷ [])) s2 h' here fewer in
          let due_now : leb (s.task x).target_wakeup_time now ≡ true =
            ap (λ (d : ℕ). leb d now) (h.times x) ∙ woken in
          (
            s',
            subst (λ c. wake_from (suc fuel) now prev c s ≡ some (returns s')) (sym at)
                (wake_from-woken fuel now prev x s s2 going due_now e2 ∙ e'),
            record {
              linked = rw woken ih.linked;
              ready =
                  rw woken
                    (subst (IsReady s') (append_assoc q (x ∷ []) (due deadline now xs)) ih.ready);
              quiet = ih.quiet;
              current = ih.current ∙ w.current ∙ u.current;
              states = λ a. rw woken (elim (Bool-cases (x == a)) [
                | inl same ↦
                    let x_is : x ≡ a = ground arith in
                    let it : (s2.task a).state ≡ ready_to_run =
                      subst (λ y. (s2.task y).state ≡ ready_to_run) x_is w.runs in
                    rw same (
                      ih.states a ∙ (elim (Bool-cases (contains a (due deadline now xs))) [
                        | inl c ↦ rw c refl
                        | inr c ↦ rw c it
                      ]))
                | inr other ↦
                    let ne : a ≢ x = (λ z. ground (arith, z, other)) in
                    rw other (
                      ih.states a
                      ∙ ap
                          (λ (v : TaskState).
                            if contains a (due deadline now xs) then ready_to_run else v)
                          (w.states a ne ∙ u.states a))
              ]);
              others = λ a ne o p.
                  ih.others a ne o.1 (NotIn-snoc a x q o.0 p) ∙ w.others a o.0 p ∙ u.others a ne;
              sleepers = λ ne. ih.sleepers ne ∙ w.sleepers ∙ u.sleepers ne;
            },
          )
      | inr kept ↦
          let h' : Asleep deadline x xs q s = record {
            linked = rw going h.linked.2;
            distinct = h.distinct.1;
            apart = h.apart.1;
            behind = h.distinct.0;
            prev_apart = h.apart.0;
            ready = h.ready;
            quiet = h.quiet;
            times = h.times;
          } in
          let (s', e', w) =
            wake_from-Awoken deadline fuel now x next xs q s h' (rw going refl) fewer in
          let later : leb (s.task x).target_wakeup_time now ≡ false =
            ap (λ (d : ℕ). leb d now) (h.times x) ∙ kept in
          let head : link_of prev s' ≡ x = (elim (Bool-cases (prev == 0)) [
            | inl first ↦ rw first (w.sleepers nonzero ∙ (rw first at h.linked.0))
            | inr last ↦ rw last (
                ap (λ (b : TaskControlBlock). b.next)
                  (w.others prev h.behind.0 h.behind.1 h.prev_apart)
                ∙ (rw last at h.linked.0))
          ]) in
          (
            s',
            subst (λ c. wake_from (suc fuel) now prev c s ≡ some (returns s')) (sym at)
                (wake_from-kept fuel now prev x s going later ∙ e'),
            record {
              linked = rw kept (head, nonzero, (rw going at w.linked));
              ready = rw kept w.ready;
              quiet = w.quiet;
              current = w.current;
              states = λ a. rw kept (w.states a);
              others = λ a ne o p. w.others a o.0 o.1 p;
              sleepers = λ ne. w.sleepers nonzero;
            },
          )
    ]

-- What `internal_update_awoken_taskes` does to the ready queue `q` and the sleeping tasks `xs`.
pub record Wakes (now : ℕ) (xs q : List ℕ) (s s' : Sched) : Type 0 where
  pub sleepers :
      Linked s'.task s'.sleeping_tasks (asleep (λ a. (s.task a).target_wakeup_time) now xs)
  pub ready : IsReady s' (q ++ due (λ a. (s.task a).target_wakeup_time) now xs)
  pub states :
      (a : ℕ)
      → (s'.task a).state ≡ (
          if contains a (due (λ a. (s.task a).target_wakeup_time) now xs)
          then ready_to_run
          else (s.task a).state)
  pub current : s'.current ≡ s.current

-- With no switch postponed, room for two more locks, and fuel for each sleeping task, where the sleeping
-- tasks form a list of tasks that are not in the ready queue, `internal_update_awoken_taskes` returns.
-- The tasks whose time has come are ready, at the end of the queue and in the order of the list; the
-- others stay on the list in their order, no other task changes its state, and the task that runs is the
-- same.
pub update_awoken_tasks-Wakes :
    (fuel now : ℕ) (s : Sched) (xs q : List ℕ)
    → s.postponed_flag ≡ 0
    → s.irq_disable_counter + 2 < 2 ^ 32
    → s.postpone_counter + 2 < 2 ^ 32
    → IsReady s q
    → Linked s.task s.sleeping_tasks xs
    → Distinct xs
    → AllApart xs q
    → length xs < fuel
    → (s' : Sched) × (update_awoken_tasks fuel now s ≡ some (returns s')) × Wakes now xs q s s'
unfolding update_awoken_tasks lock_scheduler
update_awoken_tasks-Wakes fuel now s xs q quiet irq room r l d apart less =
    let locked = lock_scheduler s in
    let deadline = (λ (a : ℕ). (s.task a).target_wakeup_time) in
    let start : Asleep deadline 0 xs q locked = record {
      linked = l;
      distinct = d;
      apart = apart;
      behind = NotIn-zero s.task s.sleeping_tasks xs l;
      prev_apart = NotIn-zero s.task s.first_ready q r.linked;
      ready = record { linked = r.linked; last = r.last; distinct = r.distinct };
      quiet = record {
        none_postponed = quiet;
        irq_room = omega (arith, irq);
        room = omega (arith, room);
      };
      times = λ a. refl;
    } in
    let (s1, e, w) =
      wake_from-Awoken deadline fuel now 0 locked.sleeping_tasks xs q locked start refl less in
    (
      released s1,
      rw (update_awoken_tasks, e) (ap some (unlock-released s1 w.quiet.none_postponed)),
      record {
        sleepers = w.linked;
        ready = record {
          linked = w.ready.linked;
          last = w.ready.last;
          distinct = w.ready.distinct;
        };
        states = w.states;
        current = w.current;
      },
    )
