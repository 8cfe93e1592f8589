-- ===== src/Functions/Network/Dotted.antt =====
-- Memory with NULs behind a string, and addresses in dotted decimals.
use instruction_parser.Prelude.{
  ℕ, zero, suc, ◌+◌, ◌-◌, ◌≤◌, ◌<◌, ◌≡◌, refl, sym, ap, ap₂, ◌∙◌, subst, ℤ, some, ◌>>=◌, List, [],
  ◌∷◌, ◌++◌, map, append_assoc, length, length-append, drop, replicate, arith,
}
use instruction_parser.Strings.{c_string, store, strcpy, strncpy_bytes, tokens}
use instruction_parser.Strings.Laws.{
  Free, Free-append, c_string_lem, store_in, take-append, drop_at, tokens_word, tokens_last,
}
use instruction_parser.Handle.{decimal}
use instruction_parser.Handle.Decimal.{decimal-Free, decimal-cons, length-decimal}
use instruction_parser.Functions.Network.Requests.{dot, byte_of, ifr_name, put_octets}

-- `strncpy` with the length of the string copies it; with a greater one it adds NULs.
pub copied_exactly : (s more : List ℕ) → Free 0 s → strncpy_bytes (length s) (s ++ more) ≡ some s
unfolding strncpy_bytes
copied_exactly [] more f = refl
copied_exactly (c ∷ s) more f = ground (arith, copied_exactly s more f.1)

pub copied_padded :
    (s more : List ℕ) (n m : ℕ)
    → Free 0 s
    → m ≡ length s + suc n
    → strncpy_bytes m (s ++ 0 ∷ more) ≡ some (s ++ replicate (suc n) 0)
unfolding strncpy_bytes
copied_padded s more n zero f e = absurd (omega arith)
copied_padded [] more n (suc m) f e = let same : m ≡ n = omega arith in rw same
copied_padded (c ∷ s) more n (suc m) f e =
    ground (arith, copied_padded s more n m f.1 (omega arith))

-- One byte is stored behind a known front.
pub store_at :
    (front back : List ℕ) (x b : ℕ)
    → store (front ++ x ∷ back) (length front) (b ∷ []) ≡ some (front ++ b ∷ back)
store_at front back x b =
    store_in (front ++ x ∷ back) (length front) (b ∷ [])
      (omega (arith, length-append front (x ∷ back)))
    ∙ ap₂ (λ s t. some (s ++ b ∷ t)) (take-append front (x ∷ back))
        (ap (drop (length front + 1)) (sym (append_assoc front (x ∷ []) back))
          ∙ drop_at (length front + 1) (front ++ x ∷ []) back (length-append front (x ∷ [])))

pub put_octets_lem :
    (atoi : List ℕ → ℤ) (front xs : List ℕ) (ts : List (List ℕ))
    → length xs ≡ length ts
    → put_octets atoi (front ++ xs) (length front) ts
      ≡ some (front ++ map (λ t. byte_of (atoi t)) ts)
unfolding put_octets
put_octets_lem atoi front [] [] e = refl
put_octets_lem atoi front [] (t ∷ ts) e = absurd (omega arith)
put_octets_lem atoi front (x ∷ xs) [] e = absurd (omega arith)
put_octets_lem atoi front (x ∷ xs) (t ∷ ts) e =
    let b : ℕ = byte_of (atoi t) in
    let one : length (front ++ b ∷ []) ≡ suc (length front) =
      length-append front (b ∷ []) ∙ omega arith in
    rw (store_at front xs x b, ◌>>=◌)
      (subst
        (λ n.
          put_octets atoi (front ++ b ∷ xs) n ts
          ≡ some (front ++ b ∷ map (λ u. byte_of (atoi u)) ts))
        one
        (ap (λ m. put_octets atoi m (length (front ++ b ∷ [])) ts)
            (sym (append_assoc front (b ∷ []) xs))
          ∙ put_octets_lem atoi (front ++ b ∷ []) xs ts (omega arith)
          ∙ ap some (append_assoc front (b ∷ []) (map (λ u. byte_of (atoi u)) ts))))

-- A number that a dot follows is a token, and so is the last one.
pub word_dot :
    (n : ℕ) (more : List ℕ) → tokens dot (decimal n ++ dot ∷ more) ≡ decimal n ∷ tokens dot more
word_dot n more =
    let (c, s, e) = decimal-cons n in
    subst (λ t. tokens dot (t ++ dot ∷ more) ≡ t ∷ tokens dot more) (sym e)
      (tokens_word dot c s more (subst (Free dot) e (decimal-Free dot n (omega arith))))

pub last_word : (n : ℕ) → tokens dot (decimal n) ≡ decimal n ∷ []
last_word n =
    let (c, s, e) = decimal-cons n in
    subst (λ t. tokens dot t ≡ t ∷ []) (sym e)
      (tokens_last dot c s (subst (Free dot) e (decimal-Free dot n (omega arith))))

abbrev pub dotted : ℕ → ℕ → ℕ → ℕ → List ℕ
dotted a b c d = decimal a ++ dot ∷ (decimal b ++ dot ∷ (decimal c ++ dot ∷ decimal d))

pub tokens-dotted :
    (a b c d : ℕ) → tokens dot (dotted a b c d) ≡ decimal a ∷ decimal b ∷ decimal c ∷ decimal d ∷ []
tokens-dotted a b c d =
    word_dot a (decimal b ++ dot ∷ (decimal c ++ dot ∷ decimal d))
    ∙ ap (λ t. decimal a ∷ t)
        (word_dot b (decimal c ++ dot ∷ decimal d)
          ∙ ap (λ t. decimal b ∷ t)
              (word_dot c (decimal d) ∙ ap (λ t. decimal c ∷ t) (last_word d)))

-- The interface's name as the kernel gets it, from a structure with room behind it.
pub ifr_name-padded :
    (s : List ℕ) (n : ℕ) → Free 0 s → length s < 15 → ifr_name (s ++ replicate (suc n) 0) ≡ some s
unfolding ifr_name
ifr_name-padded s n f h =
    let k : ℕ = 14 - length s in
    rw (copied_padded s (replicate n 0) k 15 f (omega arith), ◌>>=◌)
      (ap c_string (append_assoc s (replicate (suc k) 0) (0 ∷ [])) ∙ c_string_lem s _ f)

-- `strcpy` to the beginning of a buffer.
pub strcpy_front :
    (mem s : List ℕ)
    → length s + 1 ≤ length mem
    → strcpy mem 0 s ≡ some (s ++ 0 ∷ drop (length s + 1) mem)
unfolding strcpy
strcpy_front mem s h =
    let one : length (s ++ 0 ∷ []) ≡ length s + 1 = length-append s (0 ∷ []) in
    store_in mem 0 (s ++ 0 ∷ []) (omega arith)
    ∙ ap some (
        append_assoc s (0 ∷ []) (drop (0 + length (s ++ 0 ∷ [])) mem)
        ∙ ap (λ n. s ++ 0 ∷ drop n mem) (omega arith))

pub length-dotted :
    (a b c d : ℕ) → a < 256 → b < 256 → c < 256 → d < 256 → length (dotted a b c d) ≤ 15
length-dotted a b c d ha hb hc hd = omega (
  arith,
  length-decimal a ha,
  length-decimal b hb,
  length-decimal c hc,
  length-decimal d hd,
  length-append (decimal a) (dot ∷ (decimal b ++ dot ∷ (decimal c ++ dot ∷ decimal d))),
  length-append (decimal b) (dot ∷ (decimal c ++ dot ∷ decimal d)),
  length-append (decimal c) (dot ∷ decimal d),
)

pub dotted-Free : (a b c d : ℕ) → Free 0 (dotted a b c d)
dotted-Free a b c d =
    let free = λ (n : ℕ). decimal-Free 0 n (omega arith) in
    Free-append 0 (decimal a) _ (free a) (
      (λ e. cc),
      Free-append 0 (decimal b) _ (free b)
          ((λ e. cc), Free-append 0 (decimal c) _ (free c) ((λ e. cc), free d)),
    )

abbrev pub zeros : ℕ → List ℕ
zeros n = replicate n 0

pub drop-zeros : (n k : ℕ) (ys : List ℕ) → k ≤ n → drop k (zeros n ++ ys) ≡ zeros (n - k) ++ ys
drop-zeros n zero ys h = ap (λ m. zeros m ++ ys) (omega arith)
drop-zeros zero (suc k) ys h = absurd (omega arith)
drop-zeros (suc n) (suc k) ys h =
    drop-zeros n k ys (omega arith) ∙ ap (λ m. zeros m ++ ys) (omega arith)

pub more_zeros : (n m : ℕ) → zeros n ++ zeros (suc m) ≡ zeros (suc (n + m))
more_zeros zero m = ap (λ k. zeros (suc k)) (omega arith)
more_zeros (suc n) m =
    let e : suc (n + m) ≡ suc n + m = omega arith in
    ap (λ t. 0 ∷ t) (more_zeros n m) ∙ ap (λ k. zeros (suc k)) e
