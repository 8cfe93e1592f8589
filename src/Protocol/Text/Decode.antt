-- ===== src/Protocol/Text/Decode.antt =====
-- A text line is split into the fields that `do_text_cmd` reads.
use instruction_parser.Prelude.{
  ℕ, suc, ◌+◌, ◌*◌, ◌%◌, ◌≤◌, ◌<◌, ◌≡◌, refl, sym, ap, ◌∙◌, subst, Option, some, ◌>>=◌, List, [],
  ◌∷◌, ◌++◌, append-nil, length, length-append, take, drop, arith,
}
use instruction_parser.Strings.{c_string, strcpy, tokens}
use instruction_parser.Strings.Laws.{
  Free, Free-append, c_string_lem, c_string_prefix, take-drop, Copied, strcpy-Copied, take_at,
  tokens_word, tokens_last,
}
use instruction_parser.Frame.{CmdFrame, cmd_name}
use instruction_parser.Protocol.Text.{
  space, string_to_integer, token_at, take_token, take_tokens, text_frame_of,
}

-- A word of a line: not empty, no NUL, no space.
pub record IsWord (limit : ℕ) (t : List ℕ) : Type 0 where
  pub begins : ℕ
  pub goes_on : List ℕ
  pub shape : t ≡ begins ∷ goes_on
  pub no_nul : Free 0 t
  pub no_space : Free space t
  pub fits : length t < limit

abbrev pub AllWords : List (List ℕ) → Type 0
AllWords [] = Unit {0}
AllWords (t ∷ ts) = IsWord 64 t × AllWords ts

-- The words behind the first, each after one space.
abbrev pub spaced : List (List ℕ) → List ℕ
spaced [] = []
spaced (t ∷ ts) = space ∷ (t ++ spaced ts)

abbrev pub count : List (List ℕ) → ℕ
count [] = 0
count (t ∷ ts) = suc (count ts)

one_word : (limit : ℕ) (t : List ℕ) → IsWord limit t → tokens space t ≡ t ∷ []
one_word limit t w =
    subst (λ x. tokens space x ≡ x ∷ []) (sym w.shape)
      (tokens_last space w.begins w.goes_on (subst (Free space) w.shape w.no_space))

word_then :
    (limit : ℕ) (t more : List ℕ)
    → IsWord limit t
    → tokens space (t ++ space ∷ more) ≡ t ∷ tokens space more
word_then limit t more w =
    subst (λ x. tokens space (x ++ space ∷ more) ≡ x ∷ tokens space more) (sym w.shape)
      (tokens_word space w.begins w.goes_on more (subst (Free space) w.shape w.no_space))

tokens-spaced :
    (limit : ℕ) (t : List ℕ) (ts : List (List ℕ))
    → IsWord limit t
    → AllWords ts
    → tokens space (t ++ spaced ts) ≡ t ∷ ts
tokens-spaced limit t [] w ws = ap (tokens space) (append-nil t) ∙ one_word limit t w
tokens-spaced limit t (u ∷ us) w ws =
    word_then limit t (u ++ spaced us) w ∙ ap (λ x. t ∷ x) (tokens-spaced 64 u us ws.0 ws.1)

pub spaced-Free : (ts : List (List ℕ)) → AllWords ts → Free 0 (spaced ts)
spaced-Free [] ws = tt
spaced-Free (t ∷ ts) ws = ((λ e. cc), Free-append 0 t (spaced ts) ws.0.no_nul (spaced-Free ts ws.1))

-- A copied string is still there in memory that agrees with it far enough.
kept_string :
    (n off : ℕ) (s mem mem' final : List ℕ)
    → Copied mem off s mem'
    → take n final ≡ take n mem'
    → off + (length s + 1) ≤ n
    → Free 0 s
    → c_string (drop off final) ≡ some s
kept_string n off s mem mem' final v e h f =
    let len : length (s ++ 0 ∷ []) ≡ length s + 1 = length-append s (0 ∷ []) in
    c_string_prefix s (length s + 1) [] (drop off final)
      (take-drop (length s + 1) off n final mem' h e
        ∙ v.there
        ∙ sym (
            ap (take (length s + 1)) (sym (append-nil (s ++ 0 ∷ [])))
            ∙ take_at (length s + 1) (s ++ 0 ∷ []) [] len))
      (omega arith) f

-- The strings stand at the places of the tokens from `i` on.
abbrev pub ArgsAt : List ℕ → ℕ → List (List ℕ) → Type 0
ArgsAt arrays i [] = Unit {0}
ArgsAt arrays i (t ∷ ts) =
    (c_string (drop (912 + i * 64) arrays) ≡ some t) × ArgsAt arrays (i + 1) ts

-- What the loop makes of the tokens from the third on.
record Taken (i : ℕ) (ts : List (List ℕ)) (cmd : CmdFrame) (out : Option (ℕ × CmdFrame))
    : Type 0 where
  arrays : List ℕ
  result : out ≡ some (i + count ts, record cmd { arrays = arrays })
  earlier : take (912 + i * 64) arrays ≡ take (912 + i * 64) cmd.arrays
  args : ArgsAt arrays i ts

take_token_arg :
    (i : ℕ) (t : List ℕ) (cmd : CmdFrame) (mem : List ℕ)
    → 2 ≤ i
    → strcpy cmd.arrays (912 + i * 64) t ≡ some mem
    → take_token i t cmd ≡ some (record cmd { arrays = mem })
unfolding take_token token_at
take_token_arg i t cmd mem lo copied = ground arith

take_tokens-Taken :
    (i : ℕ) (ts : List (List ℕ)) (cmd : CmdFrame)
    → 2 ≤ i
    → i + count ts ≤ 7
    → AllWords ts
    → length cmd.arrays ≡ 1360
    → Taken i ts cmd (take_tokens i ts cmd)
unfolding take_tokens
take_tokens-Taken i [] cmd lo hi ws full = record {
  arrays = cmd.arrays;
  result = ap (λ (n : ℕ). some (n, cmd)) (omega arith);
  earlier = refl;
  args = tt;
}
take_tokens-Taken i (t ∷ ts) cmd lo hi ws full =
    let (mem, copied, v) =
      strcpy-Copied cmd.arrays (912 + i * 64) t (omega (arith, ws.0.fits, full)) in
    let cmd' : CmdFrame = record cmd { arrays = mem } in
    let rest =
      take_tokens-Taken (i + 1) ts cmd' (omega arith) (omega arith) ws.1 (v.same_size ∙ full) in
    record {
      arrays = rest.arrays;
      result =
          rw (take_token_arg i t cmd mem lo copied, ◌>>=◌)
            (rest.result
              ∙ ap (λ (n : ℕ). some (n, record cmd { arrays = rest.arrays })) (omega arith));
      earlier =
          take-drop (912 + i * 64) 0 (912 + (i + 1) * 64) rest.arrays mem (omega arith) rest.earlier
          ∙ v.before_kept;
      args = (
        kept_string (912 + (i + 1) * 64) (912 + i * 64) t cmd.arrays mem rest.arrays v rest.earlier
            (omega (arith, ws.0.fits)) ws.0.no_nul,
        rest.args,
      );
    }

-- What the queued frame holds of a line `id name args`.
pub record Decoded (fd n : ℕ) (name : List ℕ) (args : List (List ℕ)) (before cmd : CmdFrame)
    : Type 0 where
  pub fd_is : cmd.fd ≡ fd
  pub frame_id_is : cmd.frame_id ≡ n % 65536
  pub name_is : cmd_name cmd ≡ some name
  pub args_are : ArgsAt cmd.arrays 2 args
  pub cmd_len_is : cmd.cmd_len ≡ 2 + count args
  pub cmd_id_stale : cmd.cmd_id ≡ before.cmd_id

-- The loop over all tokens: the id, the name and the arguments.
all_tokens :
    (id name : List ℕ) (args : List (List ℕ)) (n : ℕ) (before : CmdFrame)
    → string_to_integer id ≡ some n
    → length id < 128
    → IsWord 16 name
    → AllWords args
    → count args ≤ 5
    → length before.arrays ≡ 1360
    → (arrays : List ℕ) × (take_tokens 0 (id ∷ name ∷ args) before
        ≡ some (2 + count args, record before { frame_id = n % 65536; arrays = arrays }))
      × (c_string arrays ≡ some name)
      × ArgsAt arrays 2 args
unfolding take_tokens take_token token_at
all_tokens id name args n before parsed short w ws few full =
    let (mem, copied, v) = strcpy-Copied before.arrays 912 id (omega arith) in
    let (mem', copied', v') = strcpy-Copied mem 0 name (omega (arith, w.fits, v.same_size)) in
    let cmd : CmdFrame = record before { frame_id = n % 65536; arrays = mem' } in
    let rest =
      take_tokens-Taken 2 args cmd (omega arith) (omega arith) ws
        (v'.same_size ∙ v.same_size ∙ full) in
    (
      rest.arrays,
      rw (parsed, ◌>>=◌) (rw (copied, ◌>>=◌) (rw (copied', ◌>>=◌) rest.result)),
      kept_string 1040 0 name mem mem' rest.arrays v' rest.earlier (omega (arith, w.fits)) w.no_nul,
      rest.args,
    )

-- A line `id name args` of words separated by single spaces, with a number in its id, a name of at
-- most 15 bytes and at most five arguments of at most 63, is queued with the digits of the id as
-- its number, with its name and arguments where `do_text_cmd` reads them, and with the count of its
-- words; the command's number, which decides how the frame is handled later, is not set.
pub text_line-Decoded :
    (fd n : ℕ) (id name : List ℕ) (args : List (List ℕ)) (rest : List ℕ) (before : CmdFrame)
    → string_to_integer id ≡ some n
    → IsWord 128 id
    → IsWord 16 name
    → AllWords args
    → count args ≤ 5
    → length before.arrays ≡ 1360
    → (cmd : CmdFrame) × (text_frame_of fd ((id ++ spaced (name ∷ args)) ++ 0 ∷ rest) before
        ≡ some cmd)
      × Decoded fd n name args before cmd
unfolding text_frame_of cmd_name
text_line-Decoded fd n id name args rest before parsed wid w ws few full =
    let line : List ℕ = id ++ spaced (name ∷ args) in
    let words : tokens space line ≡ id ∷ name ∷ args =
      word_then 128 id (name ++ spaced args) wid
      ∙ ap (λ x. id ∷ x) (tokens-spaced 16 name args w ws) in
    let (arrays, taken, named, found) =
      all_tokens id name args n before parsed wid.fits w ws few full in
    let free : Free 0 line =
      Free-append 0 id (spaced (name ∷ args)) wid.no_nul
        ((λ e. cc), Free-append 0 name (spaced args) w.no_nul (spaced-Free args ws)) in
    (
      record before { fd = fd; frame_id = n % 65536; cmd_len = 2 + count args; arrays = arrays },
      rw (c_string_lem line rest free, ◌>>=◌) (rw words (rw (taken, ◌>>=◌))),
      record {
        fd_is = refl;
        frame_id_is = refl;
        name_is = named;
        args_are = found;
        cmd_len_is = refl;
        cmd_id_stale = refl;
      },
    )
