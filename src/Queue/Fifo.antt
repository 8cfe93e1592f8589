-- ===== src/Queue/Fifo.antt =====
-- What the queue promises: a first-in first-out list of at most 99 elements.
use instruction_parser.Prelude.{
  ℕ, ℤ, pos, negsuc, Option, none, some, List, [], ◌∷◌, ◌++◌, length, ltb, if◌then◌else◌,
}
use instruction_parser.Queue.{Request, push, pop, head}

abbrev pub capacity : ℕ
capacity = 99

module _ {ℓ} {A : Type ℓ} where
  unfoldable pub first : List A → ℤ × Option A
  first [] = (negsuc 0, none)
  first (x ∷ xs) = (pos 0, some x)

  unfoldable pub rest : List A → List A
  rest [] = []
  rest (x ∷ xs) = xs

  unfoldable pub answer : List A → Request A → ℤ × Option A × List A
  unfolding first rest
  answer xs (push d) =
      if ltb (length xs) capacity then (pos 0, none, xs ++ d ∷ []) else (negsuc 0, none, xs)
  answer xs pop = let (ret, out) = first xs in (ret, out, rest xs)
  answer xs head = let (ret, out) = first xs in (ret, out, xs)

  unfoldable pub answer_all : List A → List (Request A) → List (ℤ × Option A)
  answer_all xs [] = []
  answer_all xs (r ∷ rs) = let (ret, out, xs') = answer xs r in (ret, out) ∷ answer_all xs' rs
