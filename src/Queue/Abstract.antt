-- ===== src/Queue/Abstract.antt =====
-- Rings that no run of requests tells apart, as the elements of one type.
use instruction_parser.Prelude.{
  ◌<◌, ◌≡◌, refl, sym, ap, ap₂, ◌∙◌, subst, List, [], ◌∷◌, ◌++◌, append-nil, append_assoc, length,
  length-append, replicate, arith,
}
use instruction_parser.Queue.{CircleQueue, Request, pop, serve_all}
use instruction_parser.Queue.Fifo.{first, rest, answer, answer_all}
use instruction_parser.Queue.Refine.{Represents, pushed-Represents, serve_all-eq-answer_all}
use mathlib.Core.HLevel.{Σ_prop_path, Σ_set, prop→set}
use std.Equiv.{Iso, iso_to_equiv}
use std.Path.{transport}
use mathlib.Core.Quot
use mathlib.Core.Quot.{Quot, Quot-set}
use native.Mathlib.Bridge.{le_prop}
use std.Univalence.{iso_to_path, ua-β}

-- A queue in a good state, and what it holds.
abbrev pub Ring : Type 0 → Type 0
Ring A = (q : CircleQueue A) × (xs : List A) × Represents q xs

-- Two rings answer every run of requests alike.
abbrev pub SameAnswers : (A : Type 0) → Ring A → Ring A → Type 0
SameAnswers A r s = (rs : List (Request A)) → serve_all r.0 rs ≡ serve_all s.0 rs

abbrev pub ShortList : Type 0 → Type 0
ShortList A = (xs : List A) × (length xs < 100)

module _ {A : Type 0} where
  -- What pops first, and what follows, tell lists apart.
  answer_all-determines :
      (xs ys : List A) → ((rs : List (Request A)) → answer_all xs rs ≡ answer_all ys rs) → xs ≡ ys
  unfolding answer_all answer first rest
  answer_all-determines [] [] h = refl
  answer_all-determines [] (y ∷ ys) h = let e = h (pop ∷ []) in cc
  answer_all-determines (x ∷ xs) [] h = let e = h (pop ∷ []) in cc
  answer_all-determines (x ∷ xs) (y ∷ ys) h =
      let e = h (pop ∷ []) in
      let same : x ≡ y = cc in
      ap₂ ◌∷◌ same (answer_all-determines xs ys (λ rs. let e' = h (pop ∷ rs) in cc))

  -- A ring takes more elements, one push for each.
  filled :
      (ys : List A) (q : CircleQueue A) (xs : List A)
      → Represents q xs
      → length (xs ++ ys) < 100
      → (q' : CircleQueue A) × Represents q' (xs ++ ys)
  filled [] q xs v h = (q, subst (Represents q) (sym (append-nil xs)) v)
  filled (y ∷ ys) q xs v h =
      let v' = pushed-Represents q xs y v (omega (arith, length-append xs (y ∷ ys))) in
      let e : (xs ++ y ∷ []) ++ ys ≡ xs ++ y ∷ ys = append_assoc xs (y ∷ []) ys in
      let (q', v'') = filled ys _ (xs ++ y ∷ []) v' (subst (λ l. length l < 100) (sym e) h) in
      (q', subst (Represents q') e v'')

  replies_determine : (r s : Ring A) → SameAnswers A r s → r.1 ≡ s.1
  replies_determine r s h = answer_all-determines r.1 s.1 (λ rs.
      sym (serve_all-eq-answer_all rs r.0 r.1 r.2) ∙ h rs ∙ serve_all-eq-answer_all rs s.0 s.1 s.2)

  replies_from : (r s : Ring A) → r.1 ≡ s.1 → SameAnswers A r s
  replies_from r s e rs =
      serve_all-eq-answer_all rs r.0 r.1 r.2
      ∙ ap (λ xs. answer_all xs rs) e
      ∙ sym (serve_all-eq-answer_all rs s.0 s.1 s.2)

  short_ext : (a b : ShortList A) → a.0 ≡ b.0 → a ≡ b
  short_ext a b h = Σ_prop_path (λ xs. le_prop) h

  module _ (A_set : IsSet A) (blank : A) where
    lists_set : IsSet (List A)
    lists_set = hlevel A_set

    short_set : IsSet (ShortList A)
    short_set = Σ_set lists_set (λ xs. prop→set le_prop)

    contents : Quot (SameAnswers A) → ShortList A
    contents =
        Quot.lift short_set (λ r. (r.1, r.2.short))
          (λ r s h. short_ext (r.1, r.2.short) (s.1, s.2.short) (replies_determine r s h))

    empty : CircleQueue A
    empty = record { slots = replicate 100 blank; front = 0; tail = 0 }

    empty-Represents : Represents empty []
    unfolding empty
    empty-Represents = record {
      room = refl;
      front_in = omega arith;
      short = omega arith;
      at_tail = refl;
      held = tt;
    }

    ring_of : ShortList A → Ring A
    ring_of (xs, short) = let (q, v) = filled xs empty [] empty-Represents short in (q, xs, v)

    contents-ring_of : (a : ShortList A) → contents (Quot.mk (ring_of a)) ≡ a
    unfolding contents ring_of
    contents-ring_of (xs, short) = short_ext _ _ refl

    ring_of-contents : (c : Quot (SameAnswers A)) → Quot.mk (ring_of (contents c)) ≡ c
    unfolding contents ring_of
    ring_of-contents =
        Quot.ind (λ c. Quot-set _ _)
          (λ r. Quot.sound (replies_from (ring_of (r.1, r.2.short)) r refl))

    quot_lists : Iso (Quot (SameAnswers A)) (ShortList A)
    quot_lists = record {
      fun = contents;
      inv = λ a. Quot.mk (ring_of a);
      rinv = contents-ring_of;
      linv = ring_of-contents;
    }

    -- Queues in a good state, with those that answer every run of requests alike taken as one, are the
    -- lists of less than 100 elements: the two types are equal, and along the equation a queue goes to
    -- the list of its elements, which as a specification answers every run of requests as the queue
    -- does. The elements form a set, and one of them fills the empty slots.
    pub rings-eq-lists :
        (same : Quot (SameAnswers A) ≡ ShortList A) × ((r : Ring A) (rs : List (Request A))
          → ((transport same (Quot.mk r)).0 ≡ r.1)
            × (serve_all r.0 rs ≡ answer_all (transport same (Quot.mk r)).0 rs))
    unfolding quot_lists contents
    rings-eq-lists = (
      iso_to_path quot_lists,
      λ r rs.
          let e : (transport (iso_to_path quot_lists) (Quot.mk r)).0 ≡ r.1 =
            ap (λ a. a.0) (ua-β (iso_to_equiv quot_lists) (Quot.mk r)) in
          (e, serve_all-eq-answer_all rs r.0 r.1 r.2 ∙ ap (λ xs. answer_all xs rs) (sym e)),
    )
