-- ===== src/Queue.antt =====
-- handle/queue.c and include/queue.h: the ring of decoded commands between the worker threads and
-- the command thread. An `int` result of -1 is `negsuc 0`.
pub mod Fifo
pub mod Refine
pub mod Static
pub mod Halves
pub mod Abstract
use instruction_parser.Prelude.{
  ℕ, ◌+◌, ◌%◌, ℤ, pos, negsuc, is_nonzero, Option, none, some, List, [], ◌∷◌, get_elem?, set, ◌==◌,
  if◌then◌else◌,
}

abbrev pub queue_size : ℕ
queue_size = 100

-- `T_CircleQueue`. The slot that `front` names holds nothing, the slot that `tail` names holds the
-- newest element.
pub record CircleQueue {ℓ} (A : Type ℓ) : Type ℓ where
  pub slots : List A
  pub front : ℕ
  pub tail : ℕ

module _ {ℓ} {A : Type ℓ} where
  -- `block` is what `malloc` returns. The parameter is overwritten by it, so the indices are reset
  -- in the new block; the results are the code, the block that is lost, and the caller's queue.
  unfoldable pub init_circle_queue :
      Option (CircleQueue A) → CircleQueue A → ℤ × Option (CircleQueue A) × CircleQueue A
  init_circle_queue none q = (negsuc 0, none, q)
  init_circle_queue (some block) q = (pos 0, some (record block { front = 0; tail = 0 }), q)

  unfoldable pub is_queue_empty : CircleQueue A → ℤ
  is_queue_empty q = if q.front == q.tail then negsuc 0 else pos 0

  unfoldable pub is_queue_full : CircleQueue A → ℤ
  is_queue_full q = if (q.tail + 1) % queue_size == q.front then negsuc 0 else pos 0

  unfoldable pub push_element : CircleQueue A → A → ℤ × CircleQueue A
  unfolding is_queue_full
  push_element q d =
      let tail' = (q.tail + 1) % queue_size in
      if is_nonzero (is_queue_full q)
      then (negsuc 0, q)
      else (pos 0, record q { slots = set q.slots tail' d; tail = tail' })

  -- The option is what is written through `pData`.
  unfoldable pub pop_element : CircleQueue A → ℤ × Option A × CircleQueue A
  unfolding is_queue_empty
  pop_element q =
      let front' = (q.front + 1) % queue_size in
      if is_nonzero (is_queue_empty q)
      then (negsuc 0, none, q)
      else (pos 0, get_elem? q.slots front', record q { front = front' })

  unfoldable pub get_head_element : CircleQueue A → ℤ × Option A
  unfolding is_queue_empty
  get_head_element q =
      if is_nonzero (is_queue_empty q)
      then (negsuc 0, none)
      else (pos 0, get_elem? q.slots ((q.front + 1) % queue_size))

-- What callers ask of the one static queue, in the order in which they get at it.
pub data Request {ℓ} (A : Type ℓ) : Type ℓ where
  push : A → Request A
  pop : Request A
  head : Request A

module _ {ℓ} {A : Type ℓ} where
  unfoldable pub serve : CircleQueue A → Request A → ℤ × Option A × CircleQueue A
  serve q (push d) = let (ret, q') = push_element q d in (ret, none, q')
  serve q pop = pop_element q
  serve q head = let (ret, out) = get_head_element q in (ret, out, q)

  unfoldable pub serve_all : CircleQueue A → List (Request A) → List (ℤ × Option A)
  serve_all q [] = []
  serve_all q (r ∷ rs) = let (ret, out, q') = serve q r in (ret, out) ∷ serve_all q' rs
