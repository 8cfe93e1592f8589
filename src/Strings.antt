-- ===== src/Strings.antt =====
-- The functions of the C library that the sources use on memory and strings. Memory is a list of
-- bytes; `none` is an access outside it, or a string with no end.
pub mod Laws
use instruction_parser.Prelude.{
  ℕ, zero, suc, ◌+◌, ◌-◌, ◌*◌, Option, none, some, ◌>>=◌, List, [], ◌∷◌, ◌++◌, length, take, drop,
  replicate, leb, ◌==◌, if◌then◌else◌,
}
use Prim.Native.Char.{code}
use Prim.Native.String
use Prim.Native.String.{String}

-- A string literal, without its final NUL.
abbrev pub codes : String → List ℕ
codes String.[] = []
codes (String.◌∷◌ c s) = code c ∷ codes s

-- `n` bytes of `mem` from `off` on.
unfoldable pub fetch : List ℕ → ℕ → ℕ → Option (List ℕ)
fetch mem off n = if leb (off + n) (length mem) then some (take n (drop off mem)) else none

-- `memcpy(mem + off, bytes, length bytes)`
unfoldable pub store : List ℕ → ℕ → List ℕ → Option (List ℕ)
store mem off bytes =
    if leb (off + length bytes) (length mem)
    then some (take off mem ++ (bytes ++ drop (off + length bytes) mem))
    else none

-- The string that starts a piece of memory.
unfoldable pub c_string : List ℕ → Option (List ℕ)
c_string [] = none
c_string (c ∷ cs) =
    let rest = c_string cs in if c == 0 then some [] else rest >>= (λ s. some (c ∷ s))

-- `strcpy(mem + off, s)`
unfoldable pub strcpy : List ℕ → ℕ → List ℕ → Option (List ℕ)
strcpy mem off s = store mem off (s ++ 0 ∷ [])

-- The bytes that `strncpy(to, mem, n)` writes.
unfoldable pub strncpy_bytes : ℕ → List ℕ → Option (List ℕ)
strncpy_bytes zero mem = some []
strncpy_bytes (suc n) [] = none
strncpy_bytes (suc n) (c ∷ cs) =
    let rest = strncpy_bytes n cs in
    if c == 0 then some (replicate (suc n) 0) else rest >>= λ r. some (c ∷ r)

-- The tokens that repeated `strtok` finds: the longest pieces without the delimiter.
abbrev pub add_token : List ℕ → List (List ℕ) → List (List ℕ)
add_token [] ts = ts
add_token (c ∷ cs) ts = (c ∷ cs) ∷ ts

unfoldable pub split : ℕ → List ℕ → List ℕ × List (List ℕ)
split d [] = ([], [])
split d (c ∷ cs) = let (t, ts) = split d cs in if c == d then ([], add_token t ts) else (c ∷ t, ts)

unfoldable pub tokens : ℕ → List ℕ → List (List ℕ)
unfolding split
tokens d s = let (t, ts) = split d s in add_token t ts
