-- ===== src/Tests/QueueTests.antt =====
-- The queue of handle/queue.c.
use instruction_parser.Prelude.{
  ℕ, ◌≡◌, refl, pos, negsuc, some, none, List, [], ◌∷◌, ◌++◌, replicate, arith,
}
use instruction_parser.Queue.{
  CircleQueue, Request, push, pop, head, serve, serve_all, push_element, pop_element,
  get_head_element,
}
use instruction_parser.Queue.Fifo.{answer_all}
use instruction_parser.Queue.Refine.{Represents, serve_all-eq-answer_all}

-- As the loader leaves the static queue.
abbrev zeroed : CircleQueue ℕ
zeroed = record { slots = replicate 100 0; front = 0; tail = 0 }

-- Two elements across the end of the slots.
abbrev wrapped : CircleQueue ℕ
wrapped = record { slots = 8 ∷ (replicate 98 0 ++ 7 ∷ []); front = 98; tail = 0 }

zeroed-Represents : Represents zeroed []
zeroed-Represents = record {
  room = refl;
  front_in = omega arith;
  short = omega arith;
  at_tail = refl;
  held = tt;
}

wrapped-Represents : Represents wrapped (7 ∷ 8 ∷ [])
wrapped-Represents = record {
  room = refl;
  front_in = omega arith;
  short = omega arith;
  at_tail = refl;
  held = (refl, (refl, tt));
}

abbrev script : List (Request ℕ)
script = push 9 ∷ head ∷ pop ∷ pop ∷ pop ∷ pop ∷ []

run-wrapped :
    serve_all wrapped script
    ≡ (pos 0, none)
      ∷ (pos 0, some 7)
      ∷ (pos 0, some 7)
      ∷ (pos 0, some 8)
      ∷ (pos 0, some 9)
      ∷ (negsuc 0, none)
      ∷ []
unfolding serve_all serve push_element pop_element get_head_element
run-wrapped = refl

serve_all-eq-answer_all_example : serve_all zeroed script ≡ answer_all [] script
serve_all-eq-answer_all_example = serve_all-eq-answer_all script zeroed [] zeroed-Represents
