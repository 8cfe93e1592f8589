-- ===== src/Protocol/Ht/Limits.antt =====
-- When `ht_parse` runs out of the receive buffer.
use instruction_parser.Prelude.{
  ℕ, ◌+◌, ◌-◌, ◌*◌, ◌%◌, ◌≤◌, ◌<◌, ◌≡◌, refl, ◌↔◌, ◌⊎◌, inl, inr, none, some, ◌>>=◌, List, [], ◌∷◌,
  length, arith, dec_lt,
}
use instruction_parser.Crc.{IsBytes}
use instruction_parser.Strings.{fetch}
use instruction_parser.Strings.Laws.{fetch_out}
use instruction_parser.Frame.{CmdFrame}
use instruction_parser.Protocol.Words.{word_at, word_at_lem}
use instruction_parser.Protocol.Ht.{ht_cmd_len, ht_frame_of}
use instruction_parser.Protocol.Ht.Decode.{ht_frame_of_lem}

no_body :
    (fd : ℕ) (buf : List ℕ) (before : CmdFrame) (len : ℕ)
    → word_at buf 2 ≡ some len
    → fetch buf 8 (ht_cmd_len len) ≡ none
    → ht_frame_of fd buf before ≡ none
unfolding ht_frame_of
no_body fd buf before len e2 e = rw (e2, ◌>>=◌) (rw (e, ◌>>=◌) (ground arith))

-- Of the buffers of 8 to 255 bytes `ht_parse` reads behind the end of exactly those whose length
-- field is below 8, since the body's length then wraps round, or beyond the buffer.
pub ht_frame_of-none_iff :
    (fd b0 b1 n1 n0 f1 f0 c1 c0 : ℕ) (rest : List ℕ) (before : CmdFrame)
    → IsBytes (n1 ∷ n0 ∷ f1 ∷ f0 ∷ c1 ∷ c0 ∷ [])
    → length rest ≤ 247
    → length before.arrays ≡ 1360
    → (ht_frame_of fd (b0 ∷ b1 ∷ n1 ∷ n0 ∷ f1 ∷ f0 ∷ c1 ∷ c0 ∷ rest) before ≡ none)
      ↔ ((n1 * 256 + n0 < 8) ⊎ (length rest + 8 < n1 * 256 + n0))
unfolding ht_cmd_len
ht_frame_of-none_iff fd b0 b1 n1 n0 f1 f0 c1 c0 rest before h small full =
    let buf : List ℕ = b0 ∷ b1 ∷ n1 ∷ n0 ∷ f1 ∷ f0 ∷ c1 ∷ c0 ∷ rest in
    let n : ℕ = n1 * 256 + n0 in
    let field = word_at_lem buf 2 n1 n0 refl refl h.0 h.1.0 in
    let outside : (n < 8) ⊎ (length rest + 8 < n) → length buf < 8 + (n + 65536 - 8) % 65536 =
      λ o. omega arith in
    (
      λ e. elim (dec_lt n 8) [
        | yes p ↦ inl p
        | no p ↦ elim (dec_lt (length rest + 8) n) [
          | yes q ↦ inr q
          | no q ↦
              let (cmd, got, _) =
                ht_frame_of_lem fd b0 b1 n1 n0 f1 f0 c1 c0 rest before h (n - 8) (omega arith)
                  (omega arith) (omega arith) full in
              cc
        ]
      ],
      λ o. no_body fd buf before n field (fetch_out buf 8 ((n + 65536 - 8) % 65536) (outside o)),
    )
