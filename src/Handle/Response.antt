-- ===== src/Handle/Response.antt =====
-- The binary reply: an SL frame, but for the device's number.
use instruction_parser.Prelude.{
  ℕ, suc, ◌+◌, ◌-◌, ◌*◌, ◌/◌, ◌%◌, ◌≤◌, ◌<◌, ◌≡◌, refl, sym, ap, ◌∙◌, pos, some, ◌>>=◌, List, [],
  ◌∷◌, ◌++◌, append-nil, length, length-append, length-take, subst, take, drop, arith,
}
use instruction_parser.Crc.{crc_from, IsBytes, uhf_crc16_ccitt_tab}
use instruction_parser.Crc.Frames.{uhf_crc-in_bounds, take-IsBytes, crc_from-lt}
use instruction_parser.Strings.{fetch}
use instruction_parser.Strings.Laws.{some_injective, fetch_in, take_at}
use instruction_parser.Frame.{CmdFrame}
use instruction_parser.Protocol.Words.{word_at, word_at_lem, long_at, long_at_lem}
use instruction_parser.Protocol.Check.{sl_check_data}
use instruction_parser.Protocol.Seal.{seal, check_frame-seal, IsBytes-append}
use instruction_parser.Handle.{response, high_byte, low_byte}

-- The eleven bytes before the reply's data.
abbrev header : CmdFrame → ℕ → List ℕ → List ℕ
header cmd n xs =
    0x22
    ∷ 0x53
    ∷ high_byte n
    ∷ low_byte n
    ∷ high_byte cmd.frame_id
    ∷ low_byte cmd.frame_id
    ∷ high_byte cmd.cmd_id
    ∷ low_byte cmd.cmd_id
    ∷ 0xff
    ∷ high_byte cmd.device_id
    ∷ low_byte cmd.device_id
    ∷ xs

response-seal :
    (cmd : CmdFrame) (reply : List ℕ) (len : ℕ)
    → len ≤ length reply
    → len < 65000
    → response cmd reply len ≡ some (seal (header cmd (11 + len) (take len reply)))
unfolding response seal
response-seal cmd reply len h small =
    let body : List ℕ = header cmd (11 + len) (take len reply) in
    let n : 13 + len - 2 ≡ 11 + len = omega arith in
    let size : length body ≡ 11 + len = omega (arith, length-take len reply) in
    let whole : take (11 + len) body ≡ body =
      ap (take (11 + len)) (sym (append-nil body)) ∙ take_at (11 + len) body [] size in
    let crc : uhf_crc16_ccitt_tab body (11 + len) ≡ some (crc_from 0 body) =
      uhf_crc-in_bounds body (11 + len) (omega arith) ∙ ap (λ t. some (crc_from 0 t)) whole in
    let high : crc_from 0 body / 256 % 256 ≡ crc_from 0 body / 256 =
      omega (arith, crc_from-lt 0 body (omega arith)) in
    rw (fetch_in reply 0 len (omega arith), ◌>>=◌) (rw n (rw (crc, ◌>>=◌) (rw high)))

-- For a reply of fewer than 65000 bytes, no more than the reply buffer holds, `do_response` builds a
-- frame, and `sl_check_data` accepts it, with any bytes behind it in the receiver's buffer.
pub response-accepted :
    (cmd : CmdFrame) (reply rest : List ℕ) (len : ℕ)
    → len ≤ length reply
    → len < 65000
    → IsBytes reply
    → IsBytes rest
    → (buf : List ℕ) × (response cmd reply len ≡ some buf)
      × (sl_check_data (buf ++ rest) ≡ some (pos 0))
unfolding sl_check_data
response-accepted cmd reply rest len h small bytes rest_bytes =
    let n : ℕ = 11 + len in
    let copied : List ℕ = take len reply in
    let size : length copied ≡ len = omega (arith, length-take len reply) in
    let head_bytes : IsBytes (header cmd n []) = omega arith in
    (
      seal (header cmd n copied),
      response-seal cmd reply len h small,
      check_frame-seal 0x22 0x53 (high_byte n) (low_byte n) (drop 4 (header cmd n copied)) rest
          (IsBytes-append (header cmd n []) copied head_bytes (take-IsBytes len reply bytes))
          rest_bytes (omega arith),
    )

-- The device's number has two bytes in a reply and four in a request: in the frame of a reply of at
-- least two bytes, fewer than 64002 and no more than the reply buffer holds, the four bytes that
-- `sl_parse` takes for the device's number are its low two bytes and the first two of the reply.
pub response-device :
    (cmd : CmdFrame) (a b : ℕ) (reply : List ℕ) (len : ℕ)
    → len ≤ length reply
    → len < 64000
    → a < 256
    → b < 256
    → (buf : List ℕ) × (response cmd (a ∷ b ∷ reply) (suc (suc len)) ≡ some buf)
      × (long_at buf 9 ≡ some (cmd.device_id % 65536 * 65536 + a * 256 + b))
unfolding seal
response-device cmd a b reply len h small ha hb =
    let n : ℕ = 11 + suc (suc len) in
    let copied : List ℕ = a ∷ b ∷ take len reply in
    (
      seal (header cmd n copied),
      response-seal cmd (a ∷ b ∷ reply) (suc (suc len)) (omega arith) (omega arith),
      long_at_lem (seal (header cmd n copied)) 9 (high_byte cmd.device_id) (low_byte cmd.device_id)
            a b refl refl refl refl (omega arith) (omega arith) ha hb
          ∙ ap some (omega arith),
    )

-- The frame carries the numbers of the request and the bytes of the reply.
pub response-numbers :
    (cmd : CmdFrame) (reply buf : List ℕ) (len : ℕ)
    → len ≤ length reply
    → len < 65000
    → response cmd reply len ≡ some buf
    → (word_at buf 4 ≡ some (cmd.frame_id % 65536))
      × (word_at buf 6 ≡ some (cmd.cmd_id % 65536))
      × (fetch buf 11 len ≡ some (take len reply))
unfolding seal
response-numbers cmd reply buf len h small e =
    let copied : List ℕ = take len reply in
    let size : length copied ≡ len = omega (arith, length-take len reply) in
    let body : List ℕ = header cmd (11 + len) copied in
    let end : List ℕ = crc_from 0 body / 256 ∷ crc_from 0 body % 256 ∷ [] in
    let same : seal body ≡ buf = some_injective (sym (response-seal cmd reply len h small) ∙ e) in
    let room : length (copied ++ end) ≡ len + 2 = length-append copied end ∙ omega arith in
    subst
      (λ b.
        (word_at b 4 ≡ some (cmd.frame_id % 65536))
        × (word_at b 6 ≡ some (cmd.cmd_id % 65536))
        × (fetch b 11 len ≡ some copied))
      same
      (
        word_at_lem (seal body) 4 (high_byte cmd.frame_id) (low_byte cmd.frame_id) refl refl
              (omega arith) (omega arith)
            ∙ ap some (omega arith),
        word_at_lem (seal body) 6 (high_byte cmd.cmd_id) (low_byte cmd.cmd_id) refl refl
              (omega arith) (omega arith)
            ∙ ap some (omega arith),
        fetch_in (seal body) 11 len (omega arith) ∙ ap some (take_at len copied end size),
      )
