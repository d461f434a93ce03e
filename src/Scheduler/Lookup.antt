-- ===== src/Scheduler/Lookup.antt =====
-- What `get_task_state` finds.
use cho_os.Prelude.{
  ℕ, zero, suc, ◌<◌, ◌≡◌, refl, ap₂, ◌∙◌, Bool, true, false, Option, none, some, List, [], ◌∷◌,
  ◌++◌, length, ◌==◌, if◌then◌else◌, arith, Bool-cases, inl, inr,
}
use cho_os.Scheduler.State.{TaskState, not_found, Sched}
use cho_os.Scheduler.Tasks.{state_in, or_else, get_task_state}
use cho_os.Scheduler.Queue.{Linked, Blocks}

-- the state of the first task of the list with that number, if there is one
pub find_state : ℕ → Blocks → List ℕ → Option TaskState
find_state pid h [] = none
find_state pid h (t ∷ ts) = if (h t).id == pid then some (h t).state else find_state pid h ts

-- what a lookup answers
pub reported : Option TaskState → TaskState
reported none = not_found
reported (some v) = v

-- the running task, as a list
abbrev pub running_tasks : Sched → List ℕ
running_tasks s = if s.current == 0 then [] else s.current ∷ []

if-some :
    (b : Bool) (v : TaskState) (o : Option TaskState)
    → (if b then some (some v) else some o) ≡ some (if b then some v else o)
if-some true v o = refl
if-some false v o = refl

state_in_lem :
    (fuel pid node : ℕ) (s : Sched) (q : List ℕ)
    → Linked s.task node q
    → length q < fuel
    → state_in fuel pid node s ≡ some (find_state pid s.task q)
unfolding state_in find_state
state_in_lem zero pid node s q l h = absurd (omega arith)
state_in_lem (suc fuel) pid node s [] l h = ground (arith, l)
state_in_lem (suc fuel) pid node s (t ∷ ts) l h =
    let ih = state_in_lem fuel pid (s.task t).next s ts l.2 (omega arith) in
    let valid : (t == 0) ≡ false = ground (arith, l.1) in
    rw (state_in, l.0, valid, ih) (if-some ((s.task t).id == pid) _ _)

-- Searching one list after another is searching the lists joined.
find_state-append :
    (pid : ℕ) (h : Blocks) (q r : List ℕ)
    → or_else (some (find_state pid h q)) (some (find_state pid h r))
      ≡ some (find_state pid h (q ++ r))
unfolding find_state or_else
find_state-append pid h [] r = refl
find_state-append pid h (t ∷ ts) r = elim (Bool-cases ((h t).id == pid)) [
  | inl e ↦ rw (find_state, e) refl
  | inr e ↦ rw (find_state, e) (find_state-append pid h ts r)
]

three_walks :
    (fuel pid : ℕ) (s : Sched) (ready asleep gone : List ℕ)
    → Linked s.task s.first_ready ready
    → Linked s.task s.sleeping_tasks asleep
    → Linked s.task s.dead_tasks gone
    → length ready < fuel
    → length asleep < fuel
    → length gone < fuel
    → or_else
        (state_in fuel pid s.first_ready s)
        (or_else (state_in fuel pid s.sleeping_tasks s) (state_in fuel pid s.dead_tasks s))
      ≡ some (find_state pid s.task (ready ++ (asleep ++ gone)))
three_walks fuel pid s ready asleep gone lr ls ld hr hs hd =
    ap₂ or_else (state_in_lem fuel pid s.first_ready s ready lr hr) (
      ap₂ or_else (state_in_lem fuel pid s.sleeping_tasks s asleep ls hs)
        (state_in_lem fuel pid s.dead_tasks s gone ld hd)
      ∙ find_state-append pid s.task asleep gone)
    ∙ find_state-append pid s.task ready (asleep ++ gone)

-- Where the ready, the sleeping and the dead tasks form lists, `get_task_state` ends with fuel for
-- the longest of them, and returns the state of the first task with the number among the running
-- task, the ready, the sleeping and the dead ones, in that order, or `not_found`.
pub get_task_state-finds :
    (fuel pid : ℕ) (s : Sched) (ready asleep gone : List ℕ)
    → Linked s.task s.first_ready ready
    → Linked s.task s.sleeping_tasks asleep
    → Linked s.task s.dead_tasks gone
    → length ready < fuel
    → length asleep < fuel
    → length gone < fuel
    → get_task_state fuel pid s
      ≡ some (reported (find_state pid s.task (running_tasks s ++ (ready ++ (asleep ++ gone)))))
unfolding get_task_state find_state reported
get_task_state-finds fuel pid s ready asleep gone lr ls ld hr hs hd =
    let walks = three_walks fuel pid s ready asleep gone lr ls ld hr hs hd in
    elim (Bool-cases (s.current == 0)) [
      | inl idle ↦ rw (get_task_state, walks, idle) (answered _)
      | inr runs ↦ elim (Bool-cases ((s.task s.current).id == pid)) [
        | inl same ↦ rw (get_task_state, walks, runs, find_state, same) refl
        | inr other ↦ rw (get_task_state, walks, runs, find_state, other) (answered _)
      ]
    ]
  where
    answered :
        (o : Option TaskState)
        → (elim o as (λ x. Option TaskState) [ none ↦ some not_found | some v ↦ some v ])
          ≡ some (reported o)
    answered none = refl
    answered (some v) = refl
