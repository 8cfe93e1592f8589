-- ===== src/Protocol/Text.antt =====
-- protocol/text_protocol.c: lines of the form `[id] cmd $1 $2 ...`. A `char` is a byte; strings end
-- at a NUL.
pub mod Ids
pub mod Check
pub mod Decode
use instruction_parser.Prelude.{
  ℕ, zero, suc, ◌+◌, ◌-◌, ◌*◌, ◌%◌, ◌^◌, ℤ, pos, negsuc, Bool, true, false, ◌&&◌, ◌||◌, Option,
  none, some, ◌>>=◌, List, [], ◌∷◌, ltb, leb, ◌==◌, if◌then◌else◌,
}
use instruction_parser.Strings.{c_string, store, strcpy, tokens}
use instruction_parser.Frame.{CmdFrame, cmd_name_at}
use instruction_parser.Queue.Static.{CmdQueue, push_cmd_queue}

abbrev pub space : ℕ
space = b' '

-- A digit is added to `value`; a sum beyond `INT_MAX` is undefined. Other characters are skipped.
unfoldable pub add_digit : ℕ → ℕ → Option ℕ
add_digit value c =
    if leb b'0' c && leb c b'9'
    then if ltb (value * 10 + c) (2 ^ 31) then some (value * 10 + c - b'0') else none
    else some value

unfoldable pub string_to_integer_from : ℕ → List ℕ → Option ℕ
string_to_integer_from value [] = some value
string_to_integer_from value (c ∷ cs) =
    add_digit value c >>= λ value'. string_to_integer_from value' cs

unfoldable pub string_to_integer : List ℕ → Option ℕ
string_to_integer = string_to_integer_from 0

-- `regexec` of the pattern, which is `^[[1-9]+]$` once C has read the string literal: one or more of
-- `[` and the digits 1 to 9, then `]`.
unfoldable pub in_class : ℕ → Bool
in_class c = c == b'[' || (leb b'1' c && leb c b'9')

unfoldable pub id_rest : List ℕ → Bool
id_rest [] = false
id_rest (c ∷ []) = c == b']'
id_rest (c ∷ d ∷ cs) = in_class c && id_rest (d ∷ cs)

unfoldable pub id_matches : List ℕ → Bool
id_matches [] = false
id_matches (c ∷ cs) = in_class c && id_rest cs

-- The first call of `strtok`: it skips delimiters, and reads on to the next one or to the NUL.
unfoldable pub token_in : ℕ → List ℕ → Option (List ℕ)
token_in d [] = none
token_in d (c ∷ cs) =
    let rest = token_in d cs in if c == 0 || c == d then some [] else (rest >>= λ t. some (c ∷ t))

unfoldable pub strtok : ℕ → List ℕ → Option (Option (List ℕ))
strtok d [] = none
strtok d (c ∷ cs) =
    let rest = strtok d cs in
    if c == 0
    then some none
    else if c == d
    then rest
    else (token_in d (c ∷ cs) >>= λ t. some (some t))

-- `tmp_str` is not initialised, and `strncpy` of `strlen` bytes adds no NUL.
unfoldable pub text_check_data : List ℕ → List ℕ → Option ℤ
text_check_data tmp_str buf = do
  line ← c_string buf
  tmp ← store tmp_str 0 line
  first ← strtok space tmp
  some (elim first [ none ↦ negsuc 0 | some t ↦ if id_matches t then pos 0 else negsuc 0 ])

-- Where token `i` is copied: `cmd_name` for 1, else `cmd_data[i - 2]`. Token 0 goes to
-- `cmd_data[-2]`, which is `data + 896`.
unfoldable pub token_at : ℕ → ℕ
token_at i = if i == 1 then cmd_name_at else 912 + i * 64

unfoldable pub take_token : ℕ → List ℕ → CmdFrame → Option CmdFrame
take_token i t cmd = do
  id ← (if i == 0 then (string_to_integer t >>= λ n. some (n % 2 ^ 16)) else some cmd.frame_id)
  arrays ← strcpy cmd.arrays (token_at i) t
  some (record cmd { frame_id = id; arrays = arrays })

-- The loop over the tokens; the count of tokens is returned too.
unfoldable pub take_tokens : ℕ → List (List ℕ) → CmdFrame → Option (ℕ × CmdFrame)
take_tokens i [] cmd = some (i, cmd)
take_tokens i (t ∷ ts) cmd = take_token i t cmd >>= λ cmd'. take_tokens (i + 1) ts cmd'

-- The frame that is queued. `len`, `cmd_id` and `device_id` keep what the stack held.
unfoldable pub text_frame_of : ℕ → List ℕ → CmdFrame → Option CmdFrame
text_frame_of fd buf cmd = do
  line ← c_string buf
  (i, cmd') ← take_tokens 0 (tokens space line) cmd
  some (record cmd' { fd = fd; cmd_len = i })

unfoldable pub text_parse : ℕ → List ℕ → CmdFrame → CmdQueue → Option CmdQueue
text_parse fd buf cmd q = do cmd' ← text_frame_of fd buf cmd; some (push_cmd_queue q cmd').1
