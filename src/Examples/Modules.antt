-- ===== src/Examples/Modules.antt =====
-- Modules with counters, and queues between modules.
use pfpsim.Common.{
  ℕ, ◌-◌, ◌≡◌, refl, ◌⊎◌, ◌↔◌, true, none, some, [], ◌∷◌, pos, string_eq, arith, length, plus64,
}
use pfpsim.OrderedMap.{find}
use pfpsim.PfpObject.{PfpObject, refused, decrement_counter_by, increments, change}
use pfpsim.PfpObject.Reports.{change_of, IsTold, change_cases}
use pfpsim.PfpObject.Removal.{decrement_counter_by_wraps}
use pfpsim.Queue.{LmtQueue, init, push, pop, full, available, Reach, starts, pushes}
use pfpsim.Queue.Fifo.{IsFifo, Reach-IsFifo, Reach-waits}

abbrev parser : PfpObject ℕ
parser = record { module_name = "parser"; counters = ("drops", 2) ∷ []; observers = 0 ∷ [] }

change_cases_example :
    ((change_of increments (find "drops" parser.counters) ≡ none)
      × (change increments "drops" (pos 3) parser ≡ refused parser))
    ⊎ ((v : ℕ) × (change_of increments (find "drops" parser.counters) ≡ some v)
        × IsTold "drops" v (pos 3) parser (change increments "drops" (pos 3) parser))
change_cases_example = change_cases increments "drops" (pos 3) parser

decrement_counter_by_wraps_example :
    ((decrement_counter_by "drops" (pos 5) (pos 3) parser).result ≡ true)
    × (find "drops" (decrement_counter_by "drops" (pos 5) (pos 3) parser).after.counters
        ≡ some (18446744073709551616 - (5 - 2)))
unfolding find
decrement_counter_by_wraps_example =
    decrement_counter_by_wraps "drops" 2 5 (pos 3) parser refl (omega arith) (omega arith)
      (omega arith)

abbrev one_item : LmtQueue ℕ
one_item = record { queue = 7 ∷ []; slots = 1 }

one_item-Reach : Reach 4 one_item (7 ∷ []) []
unfolding init push full plus64
one_item-Reach = pushes 7 starts refl

Reach-IsFifo_example : IsFifo 4 one_item (7 ∷ []) []
Reach-IsFifo_example = Reach-IsFifo 4 (omega arith) one_item-Reach

Reach-waits_example :
    ((push 4 9 one_item ≡ none) ↔ (length one_item.queue ≡ 4))
    × ((pop one_item ≡ none) ↔ (length one_item.queue ≡ 0))
    × (available 4 one_item ≡ 4 - length one_item.queue)
Reach-waits_example = Reach-waits 4 (omega arith) one_item (7 ∷ []) [] 9 one_item-Reach
