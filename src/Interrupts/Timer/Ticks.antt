-- ===== src/Interrupts/Timer/Ticks.antt =====
-- A clock tick calls the functions of the timer events.
use cho_os.Prelude.{
  ℕ, zero, suc, ◌+◌, ◌%◌, ◌^◌, ◌<◌, ◌≡◌, ap, sym, refl, ◌∙◌, subst, subst₂, some, List, [], ◌∷◌,
  length, arith,
}
use cho_os.Interrupts.Timer.{TimerEvent, Timer, call_from, irq_0_handler}
use cho_os.Interrupts.Timer.Events.{Linked}

-- the functions of the events, in the order of the list
pub functions : (ℕ → TimerEvent) → List ℕ → List ℕ
functions h [] = []
functions h (x ∷ xs) = (h x).func ∷ functions h xs

module _ {E : Type 0} (call : ℕ → ℕ → Timer E → Timer E) where
  -- those functions called one after the other, each with the ticks that it finds
  pub called : List ℕ → Timer E → Timer E
  called [] t = t
  called (f ∷ fs) t = called fs (call f t.ticks_since_boot t)

  -- An installed function leaves the list of events alone.
  abbrev pub KeepsEvents : Type 0
  KeepsEvents =
      (f ticks : ℕ) (t : Timer E)
      → ((call f ticks t).event ≡ t.event) × ((call f ticks t).timer_events ≡ t.timer_events)

  call_from_lem :
      (fuel p : ℕ) (xs : List ℕ) (t : Timer E)
      → KeepsEvents
      → Linked t.event p xs
      → length xs < fuel
      → (call_from call fuel p t ≡ some (called (functions t.event xs) t))
        × ((called (functions t.event xs) t).event ≡ t.event)
        × ((called (functions t.event xs) t).timer_events ≡ t.timer_events)
  unfolding call_from called functions
  call_from_lem zero p xs t keeps l h = absurd (omega arith)
  call_from_lem (suc fuel) p [] t keeps l h = rw l (refl, refl, refl)
  call_from_lem (suc fuel) zero (x ∷ xs) t keeps l h = absurd (l.1 (sym l.0))
  call_from_lem (suc fuel) (suc p) (x ∷ xs) t keeps l h =
      let e : x ≡ suc p = sym l.0 in
      let t1 = call (t.event (suc p)).func t.ticks_since_boot t in
      let (events, first) = keeps (t.event (suc p)).func t.ticks_since_boot t in
      let linked : Linked t1.event (t1.event (suc p)).next xs =
        subst (λ v. Linked v (v (suc p)).next xs) (sym events)
          (subst (λ y. Linked t.event (t.event y).next xs) e l.2) in
      let (done, same, front) =
        call_from_lem fuel (t1.event (suc p)).next xs t1 keeps linked (omega (arith, h)) in
      let fs : functions t1.event xs ≡ functions t.event xs = ap (λ v. functions v xs) events in
      rw e (
        done ∙ ap (λ g. some (called g t1)) fs,
        ap (λ g. (called g t1).event) (sym fs) ∙ same ∙ events,
        ap (λ g. (called g t1).timer_events) (sym fs) ∙ front ∙ first,
      )

  -- A clock tick, with more fuel than there are events in the list, ends, where no installed function
  -- changes the list: it counts one more, modulo 2^64, and then calls the function of each event, in the
  -- order of the list, with the count that is found at that time; the list stays as it is.
  pub irq_0_handler-calls :
      (fuel : ℕ) (xs : List ℕ) (t : Timer E)
      → KeepsEvents
      → Linked t.event t.timer_events xs
      → length xs < fuel
      → (t' : Timer E) × (irq_0_handler call fuel t ≡ some t')
        × (t'
            ≡ called
                (functions t.event xs)
                (record t { ticks_since_boot = (t.ticks_since_boot + 1) % 2 ^ 64 }))
        × (t'.event ≡ t.event)
        × Linked t'.event t'.timer_events xs
  unfolding irq_0_handler
  irq_0_handler-calls fuel xs t keeps l h =
      let t1 : Timer E = record t { ticks_since_boot = (t.ticks_since_boot + 1) % 2 ^ 64 } in
      let (done, same, front) = call_from_lem fuel t.timer_events xs t1 keeps l h in
      (
        called (functions t.event xs) t1,
        done,
        refl,
        same,
        subst₂ (λ v p. Linked v p xs) (sym same) (sym front) l,
      )
