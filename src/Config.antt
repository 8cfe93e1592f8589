-- ===== src/Config.antt =====
-- common/common.c `config_file` and `shell_cmd`. A file or a pipe is its bytes; `none` is undefined
-- behaviour. `fseek` to a position may fail, as the parameter `seek` says.
pub mod Lines
pub mod Rewrite
use instruction_parser.Prelude.{
  ℕ, zero, suc, ◌+◌, ◌-◌, ℤ, pos, negsuc, Bool, true, false, ◌||◌, ◌&&◌, not, Option, none, some,
  ◌>>=◌, List, [], ◌∷◌, ◌++◌, length, take, drop, replicate, ltb, ◌==◌, if◌then◌else◌,
}
use instruction_parser.Strings.{c_string, store}
use instruction_parser.Commands.Dispatch.{same_bytes}

abbrev pub newline : ℕ
newline = 10

abbrev pub equals : ℕ
equals = b'='

-- A character before the lines of the rest, on a line of its own or on the first of them.
unfoldable pub prepend : ℕ → List (List ℕ) → List (List ℕ)
prepend c [] = (c ∷ []) ∷ []
prepend c (l ∷ ls) = (c ∷ l) ∷ ls

-- What repeated `fgets(linebuffer, limit + 2, fp)` reads: a line ends behind a newline, or after
-- `limit + 1` characters, of which `room + 1` are left here.
unfoldable pub fgets_all : ℕ → ℕ → List ℕ → List (List ℕ)
unfolding prepend
fgets_all limit room [] = []
fgets_all limit room (c ∷ cs) =
    let ended = c == newline || room == 0 in
    let rest = fgets_all limit (if ended then limit else room - 1) cs in
    if ended then (c ∷ []) ∷ rest else prepend c rest

-- The longest beginning without the delimiter.
unfoldable pub until : ℕ → List ℕ → List ℕ
until d [] = []
until d (c ∷ cs) = let rest = until d cs in if c == d then [] else c ∷ rest

-- `sscanf(linebuffer, "%[^=]=%[^=]", buffer1, buffer2)`, what it leaves in `buffer1`: an empty field
-- is no match, and the buffer keeps its text. `buffer2` is not used.
unfoldable pub scan_key : List ℕ → List ℕ → List ℕ
unfolding until
scan_key line key = let field = until equals line in elim field [ [] ↦ key | c ∷ cs ↦ c ∷ cs ]

-- Bytes written into a file at a position inside it or at its end.
unfoldable pub write_at : ℕ → List ℕ → List ℕ → List ℕ
write_at at bytes file = take at file ++ (bytes ++ drop (at + length bytes) file)

-- `fprintf(fp, "%s=%s\n", key, value)`
unfoldable pub entry : List ℕ → List ℕ → List ℕ
entry key value = key ++ equals ∷ (value ++ newline ∷ [])

-- `seek` says for a position whether `fseek` works there, the first time and once more.
module _ (seek : ℕ → Bool × Bool) where
  -- The branch of the loop for the line that has the key: `len` is where the line begins.
  unfoldable pub replace_line : List ℕ → List ℕ → ℕ → ℕ → List ℕ → ℤ × List ℕ
  unfolding write_at entry
  replace_line key value len line_len file =
      let cleared = write_at len (replicate line_len 0) file in
      let (first, second) = seek len in
      if first
      then (if second then (pos 0, write_at len (entry key value) cleared) else (negsuc 0, cleared))
      else (negsuc 0, file)

  unfoldable pub append_line : List ℕ → List ℕ → ℕ → List ℕ → ℤ × List ℕ
  unfolding write_at entry
  append_line attribute value len file =
      if (seek len).0 then (pos 0, write_at len (entry attribute value) file) else (negsuc 0, file)

  -- The loop: `strlen(linebuffer)` counts as far as a NUL.
  unfoldable pub scan_lines : List ℕ → List ℕ → List (List ℕ) → List ℕ → ℕ → List ℕ → ℤ × List ℕ
  unfolding scan_key until
  scan_lines attribute value [] key len file = append_line attribute value len file
  scan_lines attribute value (l ∷ ls) key len file =
      let line = until 0 l in
      let key' = scan_key line key in
      let rest = scan_lines attribute value ls key' (len + length line) file in
      if same_bytes attribute key' then replace_line key' value len (length line) file else rest

  -- The file is `none` if it cannot be opened. The result is the code, and the file afterwards.
  unfoldable pub config_file : Option (List ℕ) → List ℕ → List ℕ → ℤ × Option (List ℕ)
  config_file none attribute value = (negsuc 0, none)
  config_file (some file) attribute value =
      let (ret, file') = scan_lines attribute value (fgets_all 510 510 file) [] 0 file in
      (ret, some file')

-- `shell_cmd`: the pipe's lines, of at most 4095 characters, are appended to `result` as strings. The
-- pipe is `none` if `popen` fails.
unfoldable pub append_lines : List (List ℕ) → List ℕ → Option (List ℕ)
unfolding until
append_lines [] result = some result
append_lines (l ∷ ls) result = c_string result >>= λ s.
    store result (length s) (until 0 l ++ 0 ∷ []) >>= λ result'. append_lines ls result'

unfoldable pub shell_cmd : Option (List ℕ) → List ℕ → Option (ℤ × List ℕ)
shell_cmd none result = some (negsuc 0, result)
shell_cmd (some output) result =
    append_lines (fgets_all 4094 4094 output) result >>= λ r. some (pos 0, r)
