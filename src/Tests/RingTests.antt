-- ===== src/Tests/RingTests.antt =====
-- Queues of numbers as lists.
use instruction_parser.Prelude.{ℕ, ◌≡◌, List}
use instruction_parser.Queue.{Request, serve_all}
use instruction_parser.Queue.Fifo.{answer_all}
use instruction_parser.Queue.Abstract.{Ring, SameAnswers, ShortList, rings-eq-lists}
use mathlib.Core.Quot.{Quot}
use native.Mathlib.Nat.{ℕ_set}
use std.Path.{transport}

rings-eq-lists_example :
    (same : Quot (SameAnswers ℕ) ≡ ShortList ℕ) × ((r : Ring ℕ) (rs : List (Request ℕ))
      → ((transport same (Quot.mk r)).0 ≡ r.1)
        × (serve_all r.0 rs ≡ answer_all (transport same (Quot.mk r)).0 rs))
rings-eq-lists_example = rings-eq-lists ℕ_set 0
