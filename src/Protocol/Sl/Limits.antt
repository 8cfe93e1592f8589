-- ===== src/Protocol/Sl/Limits.antt =====
-- When `sl_parse` runs out of the receive buffer.
use instruction_parser.Prelude.{
  ℕ, ◌+◌, ◌-◌, ◌%◌, ◌≤◌, ◌<◌, ◌≡◌, ◌↔◌, ◌⊎◌, inl, inr, none, some, ◌>>=◌, List, length, drop, arith,
  dec_lt,
}
use instruction_parser.Strings.{fetch}
use instruction_parser.Strings.Laws.{fetch_out}
use instruction_parser.Frame.{CmdFrame}
use instruction_parser.Protocol.Words.{word_at}
use instruction_parser.Protocol.Sl.{sl_cmd_len, sl_frame_of}
use instruction_parser.Protocol.Sl.Decode.{Numbers, sl_frame_of_lem}

no_body :
    (fd : ℕ) (buf : List ℕ) (before : CmdFrame) (len : ℕ)
    → word_at buf 2 ≡ some len
    → fetch buf 13 (sl_cmd_len len) ≡ none
    → sl_frame_of fd buf before ≡ none
unfolding sl_frame_of
no_body fd buf before len e2 e = rw (e2, ◌>>=◌) (rw (e, ◌>>=◌) (ground arith))

-- Of the buffers of 13 to 255 bytes with readable header fields `sl_parse` reads behind the end of
-- exactly those whose length field is below 13, since the body's length then wraps round, or beyond
-- the buffer.
pub sl_frame_of-none_iff :
    (fd : ℕ) (buf rest : List ℕ) (before : CmdFrame) (n frame_id cmd_id device : ℕ)
    → Numbers buf n frame_id cmd_id device
    → drop 13 buf ≡ rest
    → length buf ≡ length rest + 13
    → n < 65536
    → length buf ≤ 255
    → length before.arrays ≡ 1360
    → (sl_frame_of fd buf before ≡ none) ↔ ((n < 13) ⊎ (length buf < n))
unfolding sl_cmd_len
sl_frame_of-none_iff fd buf rest before n frame_id cmd_id device at split size word small full =
    let outside : (n < 13) ⊎ (length buf < n) → length buf < 13 + (n + 65536 - 13) % 65536 =
      λ o. omega arith in
    (
      λ e. elim (dec_lt n 13) [
        | yes p ↦ inl p
        | no p ↦ elim (dec_lt (length buf) n) [
          | yes q ↦ inr q
          | no q ↦
              let (cmd, got, _) =
                sl_frame_of_lem fd buf rest before n frame_id cmd_id device (n - 13) at split size
                  (omega arith) word (omega arith) (omega arith) full in
              cc
        ]
      ],
      λ o.
          no_body fd buf before n at.len_at
            (fetch_out buf 13 ((n + 65536 - 13) % 65536) (outside o)),
    )
