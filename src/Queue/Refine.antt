-- ===== src/Queue/Refine.antt =====
-- The ring holds a first-in first-out list.
use instruction_parser.Prelude.{
  ℕ, ◌+◌, ◌%◌, ◌<◌, ◌≡◌, refl, sym, ap, subst₂, ◌∙◌, ◌↔◌, ℤ, pos, negsuc, Option, none, some, List,
  [], ◌∷◌, ◌++◌, length, length-append, length-set, get_elem?, get_elem?-set_self, get_elem?-set_ne,
  set, arith, dec_lt, lt→ltb,
}
use instruction_parser.Queue.{
  CircleQueue, init_circle_queue, push_element, pop_element, get_head_element, Request, push, pop,
  head, serve, serve_all,
}
use instruction_parser.Queue.Fifo.{answer, answer_all}

module _ {ℓ} {A : Type ℓ} where
  -- Going round the slots, the elements of the list stand just behind index `f`.
  abbrev pub Holds : List A → ℕ → List A → Type ℓ
  Holds slots f [] = Unit
  Holds slots f (x ∷ xs) =
      (get_elem? slots ((f + 1) % 100) ≡ some x) × Holds slots ((f + 1) % 100) xs

  -- A write behind the last element leaves the others alone.
  Holds-set :
      (slots : List A) (f : ℕ) (xs : List A) (i : ℕ) (d : A)
      → length xs < 99
      → i ≡ (f + length xs + 1) % 100
      → Holds slots f xs
      → Holds (set slots i d) f xs
  Holds-set slots f [] i d h e held = tt
  Holds-set slots f (x ∷ xs) i d h e held = (
    get_elem?-set_ne slots d (omega arith) ∙ held.0,
    Holds-set slots ((f + 1) % 100) xs i d (omega arith) (omega arith) held.1,
  )

  Holds-snoc :
      (slots : List A) (f : ℕ) (xs : List A) (i : ℕ) (d : A)
      → i ≡ (f + length xs + 1) % 100
      → get_elem? slots i ≡ some d
      → Holds slots f xs
      → Holds slots f (xs ++ d ∷ [])
  Holds-snoc slots f [] i d e got held =
      let at : (f + 1) % 100 ≡ i = omega arith in (ap (get_elem? slots) at ∙ got, tt)
  Holds-snoc slots f (x ∷ xs) i d e got held =
      (held.0, Holds-snoc slots ((f + 1) % 100) xs i d (omega arith) got held.1)

-- The queue holds the elements of the list, oldest first, and its indices are in range.
pub record Represents {ℓ} {A : Type ℓ} (q : CircleQueue A) (xs : List A) : Type ℓ where
  pub room : length q.slots ≡ 100
  pub front_in : q.front < 100
  pub short : length xs < 100
  pub at_tail : q.tail ≡ (q.front + length xs) % 100
  pub held : Holds q.slots q.front xs

module _ {ℓ} {A : Type ℓ} where
  pub push_full :
      (q : CircleQueue A) (xs : List A) (d : A)
      → Represents q xs
      → length xs ≡ 99
      → push_element q d ≡ (negsuc 0, q)
  unfolding push_element
  push_full q xs d v e = ground arith

  pub push_room :
      (q : CircleQueue A) (xs : List A) (d : A)
      → Represents q xs
      → length xs < 99
      → push_element q d ≡ (
        pos 0,
        record q { slots = set q.slots ((q.tail + 1) % 100) d; tail = (q.tail + 1) % 100 },
      )
  unfolding push_element
  push_room q xs d v h = ground arith

  pub pushed-Represents :
      (q : CircleQueue A) (xs : List A) (d : A)
      → Represents q xs
      → length xs < 99
      → Represents
          (record q { slots = set q.slots ((q.tail + 1) % 100) d; tail = (q.tail + 1) % 100 })
          (xs ++ d ∷ [])
  pushed-Represents q xs d v h =
      let i = (q.tail + 1) % 100 in
      let e : i ≡ (q.front + length xs + 1) % 100 = omega (arith, v.at_tail) in
      let len : length (xs ++ d ∷ []) ≡ length xs + 1 = length-append xs (d ∷ []) in
      record {
        room = length-set q.slots i d ∙ v.room;
        front_in = v.front_in;
        short = omega arith;
        at_tail = omega (arith, len);
        held =
            Holds-snoc (set q.slots i d) q.front xs i d e
              (get_elem?-set_self q.slots i d (omega (arith, v.room)))
              (Holds-set q.slots q.front xs i d h e v.held);
      }

  pub popped-Represents :
      (q : CircleQueue A) (x : A) (xs : List A)
      → Represents q (x ∷ xs)
      → Represents (record q { front = (q.front + 1) % 100 }) xs
  popped-Represents q x xs v = record {
    room = v.room;
    front_in = omega arith;
    short = omega (arith, v.short);
    at_tail = omega (arith, v.at_tail);
    held = v.held.1;
  }

  pub pop_empty : (q : CircleQueue A) → Represents q [] → pop_element q ≡ (negsuc 0, none, q)
  unfolding pop_element
  pop_empty q v = ground arith

  pub pop_some :
      (q : CircleQueue A) (x : A) (xs : List A)
      → Represents q (x ∷ xs)
      → pop_element q ≡ (pos 0, some x, record q { front = (q.front + 1) % 100 })
  unfolding pop_element
  pop_some q x xs v = ground arith

  head_empty : (q : CircleQueue A) → Represents q [] → get_head_element q ≡ (negsuc 0, none)
  unfolding get_head_element
  head_empty q v = ground arith

  head_some :
      (q : CircleQueue A) (x : A) (xs : List A)
      → Represents q (x ∷ xs)
      → get_head_element q ≡ (pos 0, some x)
  unfolding get_head_element
  head_some q x xs v = ground arith

-- One request gets from the ring the reply of the list, and leaves it holding the list's new
-- elements.
pub record Agrees {ℓ} {A : Type ℓ} (q : CircleQueue A) (xs : List A) (r : Request A) : Type ℓ where
  pub same_code : (serve q r).0 ≡ (answer xs r).0
  pub same_out : (serve q r).1 ≡ (answer xs r).1
  pub next : Represents (serve q r).2 (answer xs r).2

module _ {ℓ} {A : Type ℓ} where
  Agrees-of_replies :
      (q : CircleQueue A) (xs : List A) (r : Request A) (ret : ℤ) (out : Option A)
      (q' : CircleQueue A) (xs' : List A)
      → serve q r ≡ (ret, out, q')
      → answer xs r ≡ (ret, out, xs')
      → Represents q' xs'
      → Agrees q xs r
  Agrees-of_replies q xs r ret out q' xs' e a v = record {
    same_code = ap (λ t. t.0) e ∙ sym (ap (λ t. t.0) a);
    same_out = ap (λ t. t.1) e ∙ sym (ap (λ t. t.1) a);
    next = subst₂ Represents (sym (ap (λ t. t.2) e)) (sym (ap (λ t. t.2) a)) v;
  }

  serve_push : (q : CircleQueue A) (xs : List A) (d : A) → Represents q xs → Agrees q xs (push d)
  unfolding serve answer
  serve_push q xs d v = elim (dec_lt (length xs) 99) [
    | yes h ↦
        Agrees-of_replies q xs (push d) (pos 0) none _ _ (rw (push_room q xs d v h))
          (rw (lt→ltb (length xs) 99 h)) (pushed-Represents q xs d v h)
    | no h ↦
        Agrees-of_replies q xs (push d) (negsuc 0) none _ _
          (rw (push_full q xs d v (omega (arith, v.short)))) (ground arith) v
  ]

  -- Whatever the queue holds, `push_element`, `pop_element` and `get_head_element` answer as a
  -- first-in first-out list of at most 99 elements does, and leave the ring holding what that list
  -- then holds.
  pub serve-Agrees :
      (q : CircleQueue A) (xs : List A) (r : Request A) → Represents q xs → Agrees q xs r
  unfolding serve answer
  serve-Agrees q xs (push d) v = serve_push q xs d v
  serve-Agrees q [] pop v = Agrees-of_replies q [] pop (negsuc 0) none _ _ (pop_empty q v) refl v
  serve-Agrees q (x ∷ xs) pop v =
      Agrees-of_replies q (x ∷ xs) pop (pos 0) (some x) _ _ (pop_some q x xs v) refl
        (popped-Represents q x xs v)
  serve-Agrees q [] head v =
      Agrees-of_replies q [] head (negsuc 0) none _ _ (rw (head_empty q v)) refl v
  serve-Agrees q (x ∷ xs) head v =
      Agrees-of_replies q (x ∷ xs) head (pos 0) (some x) _ _ (rw (head_some q x xs v)) refl v

  -- No sequence of calls tells the ring from that list.
  pub serve_all-eq-answer_all :
      (rs : List (Request A)) (q : CircleQueue A) (xs : List A)
      → Represents q xs
      → serve_all q rs ≡ answer_all xs rs
  unfolding serve_all answer_all
  serve_all-eq-answer_all [] q xs v = refl
  serve_all-eq-answer_all (r ∷ rs) q xs v =
      let a = serve-Agrees q xs r v in
      rw (a.same_code, a.same_out, serve_all-eq-answer_all rs (serve q r).2 (answer xs r).2 a.next)

  -- `init_circle_queue` never changes the queue it is given: it resets the block that it allocates,
  -- and returns 0 exactly if there is one.
  pub init_keeps_queue :
      (block : Option (CircleQueue A)) (q : CircleQueue A)
      → let (ret, lost, q') = init_circle_queue block q in
        (q' ≡ q) × ((ret ≡ pos 0) ↔ ((b : CircleQueue A) × (lost ≡ some b) × (b.front ≡ b.tail)))
  unfolding init_circle_queue
  init_keeps_queue none q = (refl, ((λ e. cc), λ t. cc))
  init_keeps_queue (some b) q =
      (refl, ((λ e. (record b { front = 0; tail = 0 }, refl, refl)), λ t. refl))
