-- ===== src/Config/Rewrite.antt =====
-- What `config_file` makes of a file of well-formed lines.
use instruction_parser.Prelude.{
  ℕ, ◌+◌, ◌≡◌, ◌≢◌, refl, sym, ap, ◌∙◌, subst, pos, Bool, true, some, List, [], ◌∷◌, ◌++◌,
  append-nil, append_assoc, length, length-append, length-replicate, drop, replicate, arith,
}
use instruction_parser.Strings.Laws.{Free, Free-append, drop_at}
use instruction_parser.Commands.Dispatch.{same_bytes, same_bytes_iff, same_bytes-ne}
use instruction_parser.Config.{
  newline, equals, fgets_all, until, scan_key, entry, replace_line, append_line, scan_lines,
  config_file,
}
use instruction_parser.Config.Lines.{
  text, IsLine, Others, fgets_line, until-Free, until_word, write_at_front, write_at_end,
  write_at_over, scan_key-other, scan_key-some,
}

module _ (seek : ℕ → Bool × Bool) (attribute value : List ℕ) where
  -- The loop passes the lines of other keys, and knows where it is.
  scan-Others :
      (ls : List (List ℕ)) (rest file key : List ℕ) (len : ℕ)
      → Others attribute ls
      → key ≢ attribute
      → (key' : List ℕ) × (key' ≢ attribute)
        × (scan_lines seek attribute value (fgets_all 510 510 (text ls ++ rest)) key len file
            ≡ scan_lines seek attribute value
                (fgets_all 510 510 rest)
                key'
                (len + length (text ls))
                file)
  unfolding scan_lines
  scan-Others [] rest file key len o k =
      let e : len ≡ len + 0 = omega arith in
      (key, k, ap (λ n. scan_lines seek attribute value (fgets_all 510 510 rest) key n file) e)
  scan-Others (l ∷ ls) rest file key len o k =
      let line : List ℕ = l ++ newline ∷ [] in
      let read : fgets_all 510 510 (text (l ∷ ls) ++ rest)
          ≡ line ∷ fgets_all 510 510 (text ls ++ rest) =
        ap (fgets_all 510 510) (append_assoc l (newline ∷ text ls) rest)
        ∙ fgets_line l (text ls ++ rest) 510 510 o.0.no_newline o.0.short in
      let whole : until 0 line ≡ line =
        until-Free 0 line (Free-append 0 l (newline ∷ []) o.0.no_nul (omega arith, tt)) in
      let k1 = scan_key-other attribute line key o.1 k in
      let differs = same_bytes-ne attribute (scan_key line key) k1 in
      let (key', k2, e) = scan-Others ls rest file (scan_key line key) (len + length line) o.2 k1 in
      let there : len + length line + length (text ls) ≡ len + length (text (l ∷ ls)) =
        omega (arith, length-append l (newline ∷ []), length-append l (newline ∷ text ls)) in
      (
        key',
        k2,
        rw (read, whole, differs)
            (e
              ∙ ap (λ n. scan_lines seek attribute value (fgets_all 510 510 rest) key' n file)
                  there),
      )

  -- The line that has the key is replaced.
  scan_hit :
      (old back file key : List ℕ) (len : ℕ)
      → attribute ≢ []
      → Free equals attribute
      → IsLine (attribute ++ equals ∷ old)
      → scan_lines seek attribute value
          (fgets_all 510 510 (entry attribute old ++ back))
          key
          len
          file
        ≡ replace_line seek attribute value len (length (entry attribute old)) file
  unfolding scan_lines entry
  scan_hit old back file key len named free line =
      let body : List ℕ = attribute ++ equals ∷ old in
      let shape : entry attribute old ≡ body ++ newline ∷ [] =
        sym (append_assoc attribute (equals ∷ old) (newline ∷ [])) in
      let read : fgets_all 510 510 (entry attribute old ++ back)
          ≡ entry attribute old ∷ fgets_all 510 510 back =
        ap (λ t. fgets_all 510 510 (t ++ back)) shape
        ∙ ap (fgets_all 510 510) (append_assoc body (newline ∷ []) back)
        ∙ fgets_line body back 510 510 line.no_newline line.short
        ∙ ap (λ t. t ∷ fgets_all 510 510 back) (sym shape) in
      let whole : until 0 (entry attribute old) ≡ entry attribute old =
        until-Free 0 (entry attribute old) (
          subst (Free 0) (sym shape)
            (Free-append 0 body (newline ∷ []) line.no_nul (omega arith, tt))) in
      let key_read : scan_key (entry attribute old) key ≡ attribute =
        scan_key-some (entry attribute old) key
          (until_word equals attribute (old ++ newline ∷ []) free) named in
      let hit : same_bytes attribute attribute ≡ true =
        (same_bytes_iff attribute attribute).1 refl in
      rw (read, whole, key_read, hit)

  -- If `fseek` works and no line has the key, which is not empty, the entry is appended to a file of
  -- lines that `fgets` reads whole, and all that was there stays.
  pub config_file-appends :
      (ls : List (List ℕ))
      → ((n : ℕ) → seek n ≡ (true, true))
      → attribute ≢ []
      → Others attribute ls
      → config_file seek (some (text ls)) attribute value
        ≡ (pos 0, some (text ls ++ entry attribute value))
  unfolding config_file append_line scan_lines fgets_all
  config_file-appends ls always named o =
      let (key, k, e) = scan-Others ls [] (text ls) [] 0 o (λ h. named (sym h)) in
      let read =
        ap (λ t. scan_lines seek attribute value (fgets_all 510 510 t) [] 0 (text ls))
          (sym (append-nil (text ls)))
        ∙ e in
      let zero_plus : 0 + length (text ls) ≡ length (text ls) = omega arith in
      let done : append_line seek attribute value (0 + length (text ls)) (text ls)
          ≡ (pos 0, text ls ++ entry attribute value) =
        rw (zero_plus, always (length (text ls)), write_at_end (text ls) (entry attribute value)) in
      ap (λ r. (r.0, some r.1)) (read ∙ done)

  -- If `fseek` works and the file begins with lines that `fgets` reads whole, the first of which have
  -- other keys and the last the attribute's, which is not empty and has no `=`: the last line is
  -- cleared and the new entry is written over it and, where it is longer, over the beginning of what is
  -- behind; where it is shorter, NULs remain.
  pub config_file-replaces :
      (ls : List (List ℕ)) (old back : List ℕ)
      → ((n : ℕ) → seek n ≡ (true, true))
      → attribute ≢ []
      → Free equals attribute
      → IsLine (attribute ++ equals ∷ old)
      → Others attribute ls
      → config_file seek (some (text ls ++ (entry attribute old ++ back))) attribute value ≡ (
        pos 0,
        some (
            text ls
            ++ (entry attribute value
                ++ drop
                    (length (entry attribute value))
                    (replicate (length (entry attribute old)) 0 ++ back))),
      )
  unfolding config_file replace_line
  config_file-replaces ls old back always named free line o =
      let file : List ℕ = text ls ++ (entry attribute old ++ back) in
      let (key, k, e) =
        scan-Others ls (entry attribute old ++ back) file [] 0 o (λ h. named (sym h)) in
      let read = e ∙ scan_hit old back file key (0 + length (text ls)) named free line in
      let zero_plus : 0 + length (text ls) ≡ length (text ls) = omega arith in
      let size : length (replicate (length (entry attribute old)) 0)
          ≡ length (entry attribute old) =
        length-replicate (length (entry attribute old)) 0 in
      let cleared =
        write_at_over (text ls) (replicate (length (entry attribute old)) 0) (entry attribute old)
          back size in
      let written =
        write_at_front (text ls) (entry attribute value)
          (replicate (length (entry attribute old)) 0 ++ back) in
      ap (λ r. (r.0, some r.1)) (read ∙ rw (zero_plus, always (length (text ls)), cleared, written))

  -- If the file has the entry already, nothing changes.
  config_file-again :
      (ls : List (List ℕ)) (back : List ℕ)
      → ((n : ℕ) → seek n ≡ (true, true))
      → attribute ≢ []
      → Free equals attribute
      → IsLine (attribute ++ equals ∷ value)
      → Others attribute ls
      → config_file seek (some (text ls ++ (entry attribute value ++ back))) attribute value
        ≡ (pos 0, some (text ls ++ (entry attribute value ++ back)))
  config_file-again ls back always named free line o =
      let size = length-replicate (length (entry attribute value)) 0 in
      config_file-replaces ls value back always named free line o
      ∙ ap (λ t. (pos 0, some (text ls ++ (entry attribute value ++ t))))
          (drop_at (length (entry attribute value)) (replicate (length (entry attribute value)) 0)
            back size)

  -- If `fseek` works, to set a value twice is to set it once, on a file of lines that `fgets` reads whole
  -- and that all have other keys. The attribute is not empty and has no `=`, and with its value it is
  -- such a line too.
  pub config_file-twice :
      (ls : List (List ℕ))
      → ((n : ℕ) → seek n ≡ (true, true))
      → attribute ≢ []
      → Free equals attribute
      → IsLine (attribute ++ equals ∷ value)
      → Others attribute ls
      → (file : List ℕ) × (config_file seek (some (text ls)) attribute value ≡ (pos 0, some file))
        × (config_file seek (some file) attribute value ≡ (pos 0, some file))
  config_file-twice ls always named free line o = (
    text ls ++ entry attribute value,
    config_file-appends ls always named o,
    subst
        (λ t. config_file seek (some (text ls ++ t)) attribute value ≡ (pos 0, some (text ls ++ t)))
        (append-nil (entry attribute value)) (config_file-again ls [] always named free line o),
  )
