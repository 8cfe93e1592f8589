-- ===== src/Config/Lines.antt =====
-- The lines of a configuration file, as `fgets` and `sscanf` read them.
use instruction_parser.Prelude.{
  ℕ, zero, suc, ◌-◌, ◌≤◌, ◌≡◌, ◌≢◌, refl, sym, ap, ap₂, ◌∙◌, false, List, [], ◌∷◌, ◌++◌, append-nil,
  length, drop, ◌==◌, arith,
}
use instruction_parser.Strings.Laws.{Free, take-append, drop_at, drop-append_more}
use instruction_parser.Config.{newline, equals, fgets_all, until, scan_key, write_at}

-- The text of some lines.
abbrev pub text : List (List ℕ) → List ℕ
text [] = []
text (l ∷ ls) = l ++ newline ∷ text ls

-- A line that `fgets` reads whole.
pub record IsLine (l : List ℕ) : Type 0 where
  pub no_newline : Free newline l
  pub no_nul : Free 0 l
  pub short : length l ≤ 510

-- Lines under other keys.
abbrev pub Others : List ℕ → List (List ℕ) → Type 0
Others attribute [] = Unit {0}
Others attribute (l ∷ ls) =
    IsLine l × (until equals (l ++ newline ∷ []) ≢ attribute) × Others attribute ls

pub fgets_line :
    (l rest : List ℕ) (limit room : ℕ)
    → Free newline l
    → length l ≤ room
    → fgets_all limit room (l ++ newline ∷ rest) ≡ (l ++ newline ∷ []) ∷ fgets_all limit limit rest
unfolding fgets_all
fgets_line [] rest limit room f h = refl
fgets_line (c ∷ l) rest limit zero f h = absurd (omega arith)
fgets_line (c ∷ l) rest limit (suc room) f h =
    let other : c == newline ≡ false = ground arith in
    let less : suc room - 1 ≡ room = omega arith in
    let nonzero : suc room == 0 ≡ false = ground arith in
    rw (other, nonzero, less) (rw (fgets_line l rest limit room f.1 (omega arith)))

pub until-Free : (d : ℕ) (s : List ℕ) → Free d s → until d s ≡ s
unfolding until
until-Free d [] f = refl
until-Free d (c ∷ s) f = ground (arith, until-Free d s f.1)

pub until_word : (d : ℕ) (s rest : List ℕ) → Free d s → until d (s ++ d ∷ rest) ≡ s
unfolding until
until_word d [] rest f = ground arith
until_word d (c ∷ s) rest f = ground (arith, until_word d s rest f.1)

pub write_at_front :
    (front bytes mem : List ℕ)
    → write_at (length front) bytes (front ++ mem) ≡ front ++ (bytes ++ drop (length bytes) mem)
unfolding write_at
write_at_front front bytes mem =
    ap₂ (λ s t. s ++ (bytes ++ t)) (take-append front mem)
      (drop-append_more front mem (length bytes))

pub drop-nil : (n : ℕ) → drop {A = ℕ} n [] ≡ []
drop-nil zero = refl
drop-nil (suc n) = refl

pub write_at_end : (file bytes : List ℕ) → write_at (length file) bytes file ≡ file ++ bytes
write_at_end file bytes =
    ap (write_at (length file) bytes) (sym (append-nil file))
    ∙ write_at_front file bytes []
    ∙ ap (λ t. file ++ t) (ap (λ t. bytes ++ t) (drop-nil (length bytes)) ∙ append-nil bytes)

-- Bytes written over as many others.
pub write_at_over :
    (front bytes gone back : List ℕ)
    → length bytes ≡ length gone
    → write_at (length front) bytes (front ++ (gone ++ back)) ≡ front ++ (bytes ++ back)
write_at_over front bytes gone back e =
    write_at_front front bytes (gone ++ back)
    ∙ ap (λ t. front ++ (bytes ++ t)) (drop_at (length bytes) gone back (sym e))

-- A key other than the attribute, before a line and behind it.
pub scan_key-other :
    (attribute line key : List ℕ)
    → until equals line ≢ attribute
    → key ≢ attribute
    → scan_key line key ≢ attribute
unfolding scan_key
scan_key-other attribute line key h k = chosen (until equals line) h
  where
    chosen :
        (field : List ℕ)
        → field ≢ attribute
        → (elim field [ [] ↦ key | c ∷ cs ↦ c ∷ cs ]) ≢ attribute
    chosen [] n = k
    chosen (c ∷ cs) n = n

pub scan_key-some :
    (line key : List ℕ) {field : List ℕ}
    → until equals line ≡ field
    → field ≢ []
    → scan_key line key ≡ field
unfolding scan_key
scan_key-some line key {field} e n = rw (scan_key, e) (chosen field n)
  where
    chosen : (xs : List ℕ) → xs ≢ [] → (elim xs [ [] ↦ key | c ∷ cs ↦ c ∷ cs ]) ≡ xs
    chosen [] h = absurd (h refl)
    chosen (c ∷ cs) h = refl
