-- ===== src/Interrupts/Tests.antt =====
-- The descriptor tables and the timer at concrete inputs.
use cho_os.Prelude.{ℕ, ◌≡◌, refl, some, ◌==◌, if◌then◌else◌, List, [], ◌∷◌, arith}
use cho_os.Interrupts.Gdt.{GdtEntry}
use cho_os.Interrupts.Idt.{Idt, zero_gate, irq_install_handler, irq_uninstall_handler, irq_handler}
use cho_os.Interrupts.Timer.{Calls, Timer, uninstall_timer_event, irq_0_handler}
use cho_os.Interrupts.Timer.Events.{Linked, Removed, uninstall_timer_event-Removed}
use cho_os.Interrupts.Timer.Ticks.{called, functions, irq_0_handler-calls}

abbrev no_segment : GdtEntry
no_segment = record {
  limit = 0;
  base_low = 0;
  base_middle = 0;
  access = 0;
  flags = 0;
  base_high = 0;
}

abbrev fresh_idt : Idt (List ℕ)
fresh_idt = record {
  entries = λ i. zero_gate;
  limit = 0;
  base = 0;
  routines = λ i. 0;
  ports = [];
  rest = [];
}

-- all stubs at one address
abbrev stub : ℕ → ℕ
stub v = 0xC010_3000

-- A routine that notes its address runs between the installation and the acknowledgement.
abbrev note : ℕ → Idt (List ℕ) → Idt (List ℕ)
note f s = record s { rest = f ∷ s.rest }

line_9 :
    (irq_handler note 41 (irq_install_handler 9 500 fresh_idt)).ports
    ≡ (0x20, 0x20) ∷ (0xA0, 0x20) ∷ []
unfolding irq_handler irq_install_handler
line_9 = refl

line_9_runs : (irq_handler note 41 (irq_install_handler 9 500 fresh_idt)).rest ≡ 500 ∷ []
unfolding irq_handler irq_install_handler
line_9_runs = refl

line_9_gone :
    (irq_handler note 41 (irq_uninstall_handler 9 (irq_install_handler 9 500 fresh_idt))).rest ≡ []
unfolding irq_handler irq_install_handler irq_uninstall_handler
line_9_gone = refl

-- what is freed and called, the last one first, with a heap that gives out address 64
abbrev noted : Calls (List ℕ)
noted = record {
  kmalloc = λ n env. (64, env);
  kfree = λ p env. p ∷ env;
  lock_scheduler = λ env. env;
  unlock_scheduler = λ env. env;
}

-- events at 16 and 32
abbrev clock : Timer (List ℕ)
clock = record {
  ticks_since_boot = 7;
  timer_events = 16;
  event =
      λ a. if a == 16 then record { func = 100; next = 32 } else record { func = 200; next = 0 };
  env = [];
}

clock-Linked : Linked clock.event 16 (16 ∷ 32 ∷ [])
clock-Linked = omega arith

uninstall_timer_event-Removed_example :
    (t' : Timer (List ℕ)) × (uninstall_timer_event noted 3 32 clock ≡ some t')
    × Removed noted 32 (16 ∷ 32 ∷ []) clock t'
uninstall_timer_event-Removed_example =
    uninstall_timer_event-Removed noted 3 32 (16 ∷ 32 ∷ []) clock clock-Linked (ground arith)
      (omega arith)

-- An installed function notes its address.
abbrev noting : ℕ → ℕ → Timer (List ℕ) → Timer (List ℕ)
noting f ticks t = record t { env = f ∷ t.env }

irq_0_handler-calls_example :
    (t' : Timer (List ℕ)) × (irq_0_handler noting 3 clock ≡ some t')
    × (t'
        ≡ called noting
            (functions clock.event (16 ∷ 32 ∷ []))
            (record clock { ticks_since_boot = 8 }))
    × (t'.event ≡ clock.event)
    × Linked t'.event t'.timer_events (16 ∷ 32 ∷ [])
irq_0_handler-calls_example =
    irq_0_handler-calls noting 3 (16 ∷ 32 ∷ []) clock (λ f ticks t. (refl, refl)) clock-Linked
      (omega arith)
