-- ===== src/Tests/TextTests.antt =====
-- The text protocol.
use instruction_parser.Prelude.{
  ℕ, zero, suc, ◌≡◌, ◌≢◌, ◌↔◌, refl, true, false, some, none, List, [], ◌∷◌, ◌++◌, replicate, arith,
}
use instruction_parser.Strings.{codes}
use instruction_parser.Strings.Laws.{Free}
use instruction_parser.Protocol.Text.{
  add_digit, string_to_integer, string_to_integer_from, in_class, id_rest, id_matches,
  text_check_data,
}
use instruction_parser.Protocol.Text.Ids.{AllInClass, id_matches_iff}
use instruction_parser.Protocol.Text.Check.{text_check_overflow}
use instruction_parser.Protocol.Text.Decode.{IsWord}

abbrev pub id : List ℕ
id = codes "[12]"

id_matches_iff_example :
    (id_matches id ≡ true) ↔ ((xs : List ℕ) × (id ≡ xs ++ b']' ∷ []) × (xs ≢ []) × AllInClass xs)
id_matches_iff_example = id_matches_iff id

-- No opening bracket is needed, and a digit 0 is refused.
id_runs : (id_matches (codes "12]") ≡ true) × (id_matches (codes "[10]") ≡ false)
unfolding id_matches id_rest in_class
id_runs = (refl, refl)

Free-replicate : (n : ℕ) → Free 0 (replicate n 65)
Free-replicate zero = tt
Free-replicate (suc n) = (omega arith, Free-replicate n)

text_check_overflow_example : text_check_data (replicate 128 1) (replicate 129 65 ++ 0 ∷ []) ≡ none
text_check_overflow_example =
    text_check_overflow (replicate 129 65) [] (replicate 128 1) (Free-replicate 129) refl
      (omega arith)

pub id_number : string_to_integer id ≡ some 12
unfolding string_to_integer string_to_integer_from add_digit
id_number = refl

pub id-IsWord : IsWord 128 id
id-IsWord = record {
  begins = b'[';
  goes_on = codes "12]";
  shape = refl;
  no_nul = omega arith;
  no_space = omega arith;
  fits = omega arith;
}

pub name_IsWord : IsWord 16 (codes "get_ip")
name_IsWord = record {
  begins = b'g';
  goes_on = codes "et_ip";
  shape = refl;
  no_nul = omega arith;
  no_space = omega arith;
  fits = omega arith;
}

pub arg_IsWord : IsWord 64 (codes "eth0")
arg_IsWord = record {
  begins = b'e';
  goes_on = codes "th0";
  shape = refl;
  no_nul = omega arith;
  no_space = omega arith;
  fits = omega arith;
}
