-- ===== src/Queue/Halves.antt =====
-- `push_element` in two halves: worker threads share the queue without a lock, so that another thread
-- may run between the move of `tail` and the write to the slot.
use instruction_parser.Prelude.{
  ℕ, zero, suc, ◌+◌, ◌%◌, ◌<◌, ◌≡◌, refl, sym, ap, ◌∙◌, subst, pos, some, List, [], ◌∷◌, ◌++◌,
  append_assoc, get_elem?, set, length, length-set, length-append, arith,
}
use instruction_parser.Queue.{CircleQueue, queue_size, push_element, pop_element}
use instruction_parser.Queue.Refine.{
  Represents, push_room, pushed-Represents, popped-Represents, pop_some,
}

module _ {ℓ} {A : Type ℓ} where
  -- `pCQ->tail = (pCQ->tail + 1) % QUEUESIZE`
  unfoldable pub advance_tail : CircleQueue A → CircleQueue A
  advance_tail q = record q { tail = (q.tail + 1) % queue_size }

  -- `pCQ->data[pCQ->tail] = dData`, which reads `tail` again.
  unfoldable pub write_tail : A → CircleQueue A → CircleQueue A
  write_tail d q = record q { slots = set q.slots q.tail d }

  -- With no other thread between them the two halves are a push.
  pub push_element-halves :
      (q : CircleQueue A) (xs : List A) (d : A)
      → Represents q xs
      → length xs < 99
      → push_element q d ≡ (pos 0, write_tail d (advance_tail q))
  unfolding advance_tail write_tail
  push_element-halves q xs d v h = push_room q xs d v h

  set_same : (xs : List A) (i : ℕ) (v : A) → get_elem? xs i ≡ some v → set xs i v ≡ xs
  set_same [] i v e = refl
  set_same (x ∷ xs) zero v e = cc
  set_same (x ∷ xs) (suc i) v e = ap (λ t. x ∷ t) (set_same xs i v e)

  set_twice : (xs : List A) (i : ℕ) (u v : A) → set (set xs i u) i v ≡ set xs i v
  set_twice [] i u v = refl
  set_twice (x ∷ xs) zero u v = refl
  set_twice (x ∷ xs) (suc i) u v = ap (λ t. x ∷ t) (set_twice xs i u v)

  -- Moving `tail` takes in what the next slot holds.
  advance_tail-Represents :
      (q : CircleQueue A) (xs : List A) (stale : A)
      → Represents q xs
      → length xs < 99
      → get_elem? q.slots ((q.tail + 1) % 100) ≡ some stale
      → Represents (advance_tail q) (xs ++ stale ∷ [])
  unfolding advance_tail
  advance_tail-Represents q xs stale v h old =
      subst (λ s. Represents (record q { slots = s; tail = (q.tail + 1) % 100 }) (xs ++ stale ∷ []))
        (set_same q.slots ((q.tail + 1) % 100) stale old) (pushed-Represents q xs stale v h)

  -- If two threads push, and each moves `tail` before either writes, both write the same slot: the
  -- first element is lost, and in its place the queue holds what its slot held before.
  pub two_pushes-lose :
      (q : CircleQueue A) (xs : List A) (d1 d2 stale : A)
      → Represents q xs
      → length xs < 98
      → get_elem? q.slots ((q.tail + 1) % 100) ≡ some stale
      → Represents
          (write_tail d2 (write_tail d1 (advance_tail (advance_tail q))))
          (xs ++ stale ∷ d2 ∷ [])
  unfolding advance_tail write_tail
  two_pushes-lose q xs d1 d2 stale v h old =
      let q1 : CircleQueue A = record q { tail = (q.tail + 1) % 100 } in
      let i : ℕ = (q1.tail + 1) % 100 in
      let v1 : Represents q1 (xs ++ stale ∷ []) =
        unfold advance_tail in advance_tail-Represents q xs stale v (omega arith) old in
      let v2 =
        pushed-Represents q1 (xs ++ stale ∷ []) d2 v1
          (omega (arith, length-append xs (stale ∷ []))) in
      subst (λ s. Represents (record q1 { slots = s; tail = i }) (xs ++ stale ∷ d2 ∷ []))
        (sym (set_twice q.slots i d1 d2))
        (subst (Represents (record q1 { slots = set q.slots i d2; tail = i }))
          (append_assoc xs (stale ∷ []) (d2 ∷ [])) v2)

  -- If the command thread pops between the halves of a push to an empty queue, it gets what the slot
  -- held before, and the element is never taken out.
  pub pop_between :
      (q : CircleQueue A) (d stale : A)
      → Represents q []
      → get_elem? q.slots ((q.tail + 1) % 100) ≡ some stale
      → let (ret, out, q') = pop_element (advance_tail q) in
        (ret ≡ pos 0) × (out ≡ some stale) × Represents (write_tail d q') []
  unfolding advance_tail write_tail
  pop_between q d stale v old =
      let q1 : CircleQueue A = record q { tail = (q.tail + 1) % 100 } in
      let v1 : Represents q1 (stale ∷ []) =
        unfold advance_tail in advance_tail-Represents q [] stale v (omega arith) old in
      let popped = pop_some q1 stale [] v1 in
      let v2 = popped-Represents q1 stale [] v1 in
      (
        ap (λ r. r.0) popped,
        ap (λ r. r.1) popped,
        subst (λ x. Represents (record x { slots = set x.slots x.tail d }) [])
            (sym (ap (λ r. r.2) popped))
            (record {
              room = length-set q.slots q1.tail d ∙ v.room;
              front_in = v2.front_in;
              short = v2.short;
              at_tail = v2.at_tail;
              held = tt;
            }),
      )
