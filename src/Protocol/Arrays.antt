-- ===== src/Protocol/Arrays.antt =====
-- What the parsers leave in a frame's arrays.
use instruction_parser.Prelude.{
  ℕ, ◌+◌, ◌≤◌, ◌≡◌, refl, ap, ◌∙◌, Option, none, some, List, [], ◌∷◌, ◌++◌, append_assoc, length,
  length-append, length-drop, take, drop, arith, Bool, true, ◌&&◌, leb, ◌==◌, not,
}
use instruction_parser.Strings.{fetch, store, strcpy, c_string}
use instruction_parser.Strings.Laws.{store_in, fetch-store, c_string_prefix, Free}
use instruction_parser.Protocol.Names.{CmdMap, get_cmd_name, ht_cmd_list, sl_cmd_list, copy_name}

no_nul : List ℕ → Bool
no_nul [] = true
no_nul (c ∷ cs) = not (c == 0) && no_nul cs

no_nul_sound : (s : List ℕ) → no_nul s ≡ true → Free 0 s
unfolding no_nul
no_nul_sound [] h = tt
no_nul_sound (c ∷ s) h = ground (arith, no_nul_sound s)

fits_name : List ℕ → Bool
fits_name s = leb (length s) 15 && no_nul s

all_names : List CmdMap → Bool
all_names [] = true
all_names (m ∷ ms) = fits_name m.cmd_name && all_names ms

get_cmd_name-fits :
    (ms : List CmdMap) (id : ℕ) (s : List ℕ)
    → all_names ms ≡ true
    → get_cmd_name ms id ≡ some s
    → fits_name s ≡ true
unfolding get_cmd_name all_names
get_cmd_name-fits [] id s h e = cc
get_cmd_name-fits (m ∷ ms) id s h e = ground (arith, get_cmd_name-fits ms id s)

-- A name that fits `cmd_name[16]` with its NUL.
abbrev pub IsName : List ℕ → Type 0
IsName s = (length s ≤ 15) × Free 0 s

fits_name-IsName : (s : List ℕ) → fits_name s ≡ true → IsName s
unfolding fits_name
fits_name-IsName s h = ground (arith, no_nul_sound s)

-- Every name of either table fits.
pub ht_cmd_list-IsName : (id : ℕ) (s : List ℕ) → get_cmd_name ht_cmd_list id ≡ some s → IsName s
unfolding all_names fits_name no_nul ht_cmd_list
ht_cmd_list-IsName id s e = fits_name-IsName s (get_cmd_name-fits ht_cmd_list id s refl e)

pub sl_cmd_list-IsName : (id : ℕ) (s : List ℕ) → get_cmd_name sl_cmd_list id ≡ some s → IsName s
unfolding all_names fits_name no_nul sl_cmd_list
sl_cmd_list-IsName id s e = fits_name-IsName s (get_cmd_name-fits sl_cmd_list id s refl e)

-- After `strcpy` of the name, if there is one: the arrays are complete, and hold the name.
pub record Named (name : Option (List ℕ)) (old new : List ℕ) : Type 0 where
  pub complete : length new ≡ length old
  pub known : (s : List ℕ) → name ≡ some s → (back : List ℕ) × (new ≡ s ++ 0 ∷ back)
  pub unknown : name ≡ none → new ≡ old

pub copy_name-Named :
    (name : Option (List ℕ)) (arrays : List ℕ)
    → length arrays ≡ 1360
    → ((s : List ℕ) → name ≡ some s → IsName s)
    → (new : List ℕ) × (copy_name name arrays ≡ some new) × Named name arrays new
unfolding copy_name strcpy
copy_name-Named none arrays len names =
    (arrays, refl, record { complete = refl; known = λ s e. cc; unknown = λ e. refl })
copy_name-Named (some name) arrays len names =
    let fits : length name ≤ 15 = (names name refl).0 in
    let one : length (name ++ 0 ∷ []) ≡ length name + 1 = length-append name (0 ∷ []) in
    let back = drop (0 + length (name ++ 0 ∷ [])) arrays in
    let stored = store_in arrays 0 (name ++ 0 ∷ []) (omega arith) in
    let kept = fetch-store arrays 0 (name ++ 0 ∷ []) (omega arith) in
    (
      (name ++ 0 ∷ []) ++ back,
      stored,
      record {
        complete = omega (
          arith,
          length-append (name ++ 0 ∷ []) back,
          length-drop (0 + length (name ++ 0 ∷ [])) arrays,
        );
        known = λ s e. (back, append_assoc name (0 ∷ []) back ∙ ap (λ t. t ++ 0 ∷ back) (cc));
        unknown = λ e. cc;
      },
    )

-- The last two steps of a parser: the name is kept, and the body stands in `data`.
pub record Filled (name : Option (List ℕ)) (old body new : List ℕ) : Type 0 where
  pub complete : length new ≡ 1360
  pub body_there : fetch new 16 (length body) ≡ some body
  pub name_there : (s : List ℕ) → name ≡ some s → c_string new ≡ some s
  pub name_stale : name ≡ none → take 16 new ≡ take 16 old

pub fill :
    (name : Option (List ℕ)) (old named body : List ℕ)
    → length old ≡ 1360
    → Named name old named
    → ((s : List ℕ) → name ≡ some s → IsName s)
    → length body ≤ 1344
    → (new : List ℕ) × (store named 16 body ≡ some new) × Filled name old body new
fill name old named body len v names h =
    let total : length named ≡ 1360 = v.complete ∙ len in
    let (new, stored, there, front, size) = fetch-store named 16 body (omega arith) in
    (
      new,
      stored,
      record {
        complete = size ∙ total;
        body_there = there;
        name_there = λ s e.
            let (back, shape) = v.known s e in
            c_string_prefix s 16 back new (front ∙ ap (take 16) shape)
              (omega (arith, (names s e).0)) (names s e).1;
        name_stale = λ e. front ∙ ap (take 16) (v.unknown e);
      },
    )
