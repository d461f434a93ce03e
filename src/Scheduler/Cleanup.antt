-- ===== src/Scheduler/Cleanup.antt =====
-- `dead_tasks_cleanup` and `free_task` of scheduler.c, and what they free.
use cho_os.Prelude.{
  ℕ, zero, suc, ◌<◌, ◌≡◌, refl, ap, false, Option, none, some, List, [], ◌∷◌, length, ◌==◌,
  if◌then◌else◌, arith,
}
use cho_os.Memory.Machine.{◌>>=◌}
use cho_os.Scheduler.State.{Sched, Flow, returns}
use cho_os.Scheduler.Switch.{lock_scheduler, unlock_scheduler}
use cho_os.Scheduler.Queue.{Linked, Blocks}
use cho_os.Scheduler.Block.{IsQuiet, relocked, unlock-lock}

-- `kfree` is a parameter on the state of the heap, which fails where it does not return.
module _ {H : Type 0} (kfree : ℕ → H → Option H) where
  unfoldable pub free_task : ℕ → Sched → H → Option H
  free_task node s h = kfree (s.task node).stack_base h >>= λ h1. kfree node h1

  -- `dead_tasks_cleanup` up to its unlock.
  unfoldable pub free_dead : ℕ → ℕ → Sched → H → Option H
  unfolding free_task
  free_dead zero node s h = none
  free_dead (suc fuel) node s h =
      let next = (s.task node).next in
      let rest = free_task node s h >>= λ h1. free_dead fuel next s h1 in
      if node == 0 then some h else rest

  unfoldable pub dead_tasks_cleanup : ℕ → Sched → H → Option (H × Flow Sched)
  unfolding lock_scheduler unlock_scheduler free_dead
  dead_tasks_cleanup fuel s h =
      let locked = lock_scheduler s in
      free_dead fuel locked.dead_tasks locked h >>= λ h1.
      some (h1, unlock_scheduler (record locked { dead_tasks = 0 }))

-- the two allocations of each task of the list, the stack first
pub allocations : Blocks → List ℕ → List ℕ
allocations h [] = []
allocations h (t ∷ ts) = (h t).stack_base ∷ t ∷ allocations h ts

module _ {H : Type 0} (kfree : ℕ → H → Option H) where
  -- the pointers freed one after the other
  pub free_all : List ℕ → H → Option H
  free_all [] h = some h
  free_all (p ∷ ps) h = kfree p h >>= free_all ps

  free_pair :
      (stack block : ℕ) (ps : List ℕ) (h : H) (o : Option H) (k : H → Option H)
      → ((h : H) → k h ≡ free_all ps h)
      → ((o >>= λ h1. kfree block h1) >>= k) ≡ (o >>= free_all (block ∷ ps))
  unfolding free_all
  free_pair stack block ps h none k same = refl
  free_pair stack block ps h (some h1) k same = after (kfree block h1)
    where
      after : (o : Option H) → (o >>= k) ≡ (o >>= free_all ps)
      after none = refl
      after (some h2) = same h2

  free_dead_lem :
      (fuel node : ℕ) (s : Sched) (q : List ℕ) (h : H)
      → Linked s.task node q
      → length q < fuel
      → free_dead kfree fuel node s h ≡ free_all (allocations s.task q) h
  unfolding free_dead free_task free_all allocations
  free_dead_lem zero node s q h l less = absurd (omega arith)
  free_dead_lem (suc fuel) node s [] h l less = ground (arith, l)
  free_dead_lem (suc fuel) node s (t ∷ ts) h l less =
      let valid : (t == 0) ≡ false = ground (arith, l.1) in
      rw (l.0, valid)
        (free_pair (s.task t).stack_base t (allocations s.task ts) h (kfree (s.task t).stack_base h)
          (free_dead kfree fuel (s.task t).next s)
          (λ h1. free_dead_lem fuel (s.task t).next s ts h1 l.2 (omega arith)))

  -- With no switch postponed and the lock counters below their limits, and with more fuel than there are
  -- dead tasks, `dead_tasks_cleanup` calls `kfree` for the stack and then for the control block of each
  -- dead task, in the order of the list, and for nothing else. It returns if all these calls return, NULL
  -- given to `kfree` where a task has no stack included; the list is then empty, and the rest as a lock
  -- and its unlock leave it.
  pub dead_tasks_cleanup-frees :
      (fuel : ℕ) (s : Sched) (q : List ℕ) (h : H)
      → IsQuiet s
      → Linked s.task s.dead_tasks q
      → length q < fuel
      → dead_tasks_cleanup kfree fuel s h ≡ (
          free_all (allocations s.task q) h >>= λ h1.
          some (h1, returns (record (relocked s) { dead_tasks = 0 })))
  unfolding dead_tasks_cleanup lock_scheduler
  dead_tasks_cleanup-frees fuel s q h quiet l less =
      let freed = free_dead_lem fuel s.dead_tasks (lock_scheduler s) q h l less in
      let unlocked =
        unlock-lock (record s { dead_tasks = 0 })
          (record {
            none_postponed = quiet.none_postponed;
            irq_room = quiet.irq_room;
            room = quiet.room;
          }) in
      rw freed (ap (λ f. free_all (allocations s.task q) h >>= λ h1. some (h1, f)) unlocked)
