-- ===== src/Protocol/Text/Check.antt =====
-- What `text_check_data` answers.
use instruction_parser.Prelude.{
  ℕ, ◌+◌, ◌≤◌, ◌<◌, ◌≡◌, ap, ◌∙◌, pos, negsuc, none, some, ◌>>=◌, List, [], ◌∷◌, ◌++◌, append_assoc,
  length, drop, if◌then◌else◌, arith,
}
use instruction_parser.Strings.{c_string, store}
use instruction_parser.Strings.Laws.{Free, Free-append, c_string_lem, store_in, store_out}
use instruction_parser.Protocol.Text.{space, token_in, strtok, id_matches, text_check_data}

token_in_lem : (d : ℕ) (t rest : List ℕ) → Free 0 t → Free d t → token_in d (t ++ d ∷ rest) ≡ some t
unfolding token_in
token_in_lem d [] rest z f = ground arith
token_in_lem d (c ∷ t) rest z f = ground (arith, token_in_lem d t rest z.1 f.1)

strtok_lem :
    (d c : ℕ) (t rest : List ℕ)
    → Free 0 (c ∷ t)
    → Free d (c ∷ t)
    → strtok d ((c ∷ t) ++ d ∷ rest) ≡ some (some (c ∷ t))
unfolding strtok
strtok_lem d c t rest z f = ground (arith, token_in_lem d (c ∷ t) rest z f)

-- For a line that begins with a word and a space and that has at most 128 bytes, the answer is 0 or
-- -1 as the word passes as an id or not, whatever the uninitialised `tmp_str` holds.
pub text_check_word :
    (c : ℕ) (t more rest tmp_str : List ℕ)
    → Free 0 (c ∷ t)
    → Free space (c ∷ t)
    → Free 0 more
    → length tmp_str ≡ 128
    → length ((c ∷ t) ++ space ∷ more) ≤ 128
    → text_check_data tmp_str (((c ∷ t) ++ space ∷ more) ++ 0 ∷ rest)
      ≡ some (if id_matches (c ∷ t) then pos 0 else negsuc 0)
unfolding text_check_data
text_check_word c t more rest tmp_str z f z' size fits =
    let line : List ℕ = (c ∷ t) ++ space ∷ more in
    let back : List ℕ = drop (0 + length line) tmp_str in
    let read : c_string (line ++ 0 ∷ rest) ≡ some line =
      c_string_lem line rest (Free-append 0 (c ∷ t) (space ∷ more) z ((λ e. cc), z')) in
    let stored : store tmp_str 0 line ≡ some (line ++ back) =
      store_in tmp_str 0 line (omega arith) in
    let first : strtok space (line ++ back) ≡ some (some (c ∷ t)) =
      ap (strtok space) (append_assoc (c ∷ t) (space ∷ more) back)
      ∙ strtok_lem space c t (more ++ back) z f in
    rw (read, ◌>>=◌) (rw (stored, ◌>>=◌) (rw (first, ◌>>=◌)))

-- A line of more than 128 bytes is copied beyond the end of `tmp_str`.
pub text_check_overflow :
    (line rest tmp_str : List ℕ)
    → Free 0 line
    → length tmp_str ≡ 128
    → 128 < length line
    → text_check_data tmp_str (line ++ 0 ∷ rest) ≡ none
unfolding text_check_data
text_check_overflow line rest tmp_str z size long =
    rw (c_string_lem line rest z, ◌>>=◌) (rw (store_out tmp_str 0 line (omega arith), ◌>>=◌))
