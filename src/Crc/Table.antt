-- ===== src/Crc/Table.antt =====
-- Facts of the constants of `crc16_tab`, each by evaluation of all 256 entries.
use instruction_parser.Prelude.{
  ℕ, zero, suc, ◌*◌, ◌/◌, ◌%◌, ◌^◌, ◌<◌, ◌≡◌, refl, bit_xor, Bool, true, ◌&&◌, get_or, arith, sym,
  ap, ◌∙◌, ◌==◌, ==_iff, ltb, ltb→lt, dec_lt, if◌then◌else◌, List, [], ◌∷◌,
}
use instruction_parser.Crc.{crc16_tab}

-- A test of every index below a bound, and what its success says of one index.
every_index : (ℕ → Bool) → ℕ → Bool
every_index test zero = true
every_index test (suc bound) = every_index test bound && test bound

index_passes :
    (test : ℕ → Bool) (bound i : ℕ) → every_index test bound ≡ true → i < bound → test i ≡ true
unfolding every_index
index_passes test zero i all h = elim h [ ]
index_passes test (suc bound) i all h = elim (dec_lt i bound) [
  | yes p ↦ index_passes test bound i (ground arith) p
  | no p ↦ let e : i ≡ bound = omega arith in rw e (ground arith)
]

unfoldable pub entry : ℕ → ℕ
entry t = get_or crc16_tab t 0

-- One shift of the 16-bit register, with the feedback x^16 + x^12 + x^5 + 1.
unfoldable pub shift_bit : ℕ → ℕ
shift_bit c = bit_xor (c * 2 % 2 ^ 16) (if c / 2 ^ 15 % 2 == 1 then 0x1021 else 0)

unfoldable pub shift_bits : ℕ → ℕ → ℕ
shift_bits zero c = c
shift_bits (suc k) c = shift_bits k (shift_bit c)

entries_are_remainders : every_index (λ t. entry t == shift_bits 8 (t * 256)) 256 ≡ true
unfolding every_index entry crc16_tab shift_bits shift_bit
entries_are_remainders = refl

pub entry_lem : (t : ℕ) → t < 256 → entry t ≡ shift_bits 8 (t * 256)
entry_lem t h = (==_iff _ _).0 (index_passes _ 256 t entries_are_remainders h)

entries_fit : every_index (λ t. ltb (entry t) 65536) 256 ≡ true
unfolding every_index entry crc16_tab
entries_fit = refl

pub entry-lt : (t : ℕ) → t < 256 → entry t < 65536
entry-lt t h = ltb→lt _ _ (index_passes _ 256 t entries_fit h)

-- Where each low byte stands in the table.
low_byte_index : List ℕ
low_byte_index =
    0 ∷ 35 ∷ 70 ∷ 101 ∷ 140 ∷ 175 ∷ 202 ∷ 233 ∷ 8 ∷ 43 ∷ 78 ∷ 109 ∷ 132 ∷ 167 ∷ 194 ∷ 225 ∷ 17 ∷ 50
    ∷ 87 ∷ 116 ∷ 157 ∷ 190 ∷ 219 ∷ 248 ∷ 25 ∷ 58 ∷ 95 ∷ 124 ∷ 149 ∷ 182 ∷ 211 ∷ 240 ∷ 34 ∷ 1 ∷ 100
    ∷ 71 ∷ 174 ∷ 141 ∷ 232 ∷ 203 ∷ 42 ∷ 9 ∷ 108 ∷ 79 ∷ 166 ∷ 133 ∷ 224 ∷ 195 ∷ 51 ∷ 16 ∷ 117 ∷ 86
    ∷ 191 ∷ 156 ∷ 249 ∷ 218 ∷ 59 ∷ 24 ∷ 125 ∷ 94 ∷ 183 ∷ 148 ∷ 241 ∷ 210 ∷ 68 ∷ 103 ∷ 2 ∷ 33 ∷ 200
    ∷ 235 ∷ 142 ∷ 173 ∷ 76 ∷ 111 ∷ 10 ∷ 41 ∷ 192 ∷ 227 ∷ 134 ∷ 165 ∷ 85 ∷ 118 ∷ 19 ∷ 48 ∷ 217 ∷ 250
    ∷ 159 ∷ 188 ∷ 93 ∷ 126 ∷ 27 ∷ 56 ∷ 209 ∷ 242 ∷ 151 ∷ 180 ∷ 102 ∷ 69 ∷ 32 ∷ 3 ∷ 234 ∷ 201 ∷ 172
    ∷ 143 ∷ 110 ∷ 77 ∷ 40 ∷ 11 ∷ 226 ∷ 193 ∷ 164 ∷ 135 ∷ 119 ∷ 84 ∷ 49 ∷ 18 ∷ 251 ∷ 216 ∷ 189 ∷ 158
    ∷ 127 ∷ 92 ∷ 57 ∷ 26 ∷ 243 ∷ 208 ∷ 181 ∷ 150 ∷ 136 ∷ 171 ∷ 206 ∷ 237 ∷ 4 ∷ 39 ∷ 66 ∷ 97 ∷ 128
    ∷ 163 ∷ 198 ∷ 229 ∷ 12 ∷ 47 ∷ 74 ∷ 105 ∷ 153 ∷ 186 ∷ 223 ∷ 252 ∷ 21 ∷ 54 ∷ 83 ∷ 112 ∷ 145 ∷ 178
    ∷ 215 ∷ 244 ∷ 29 ∷ 62 ∷ 91 ∷ 120 ∷ 170 ∷ 137 ∷ 236 ∷ 207 ∷ 38 ∷ 5 ∷ 96 ∷ 67 ∷ 162 ∷ 129 ∷ 228
    ∷ 199 ∷ 46 ∷ 13 ∷ 104 ∷ 75 ∷ 187 ∷ 152 ∷ 253 ∷ 222 ∷ 55 ∷ 20 ∷ 113 ∷ 82 ∷ 179 ∷ 144 ∷ 245 ∷ 214
    ∷ 63 ∷ 28 ∷ 121 ∷ 90 ∷ 204 ∷ 239 ∷ 138 ∷ 169 ∷ 64 ∷ 99 ∷ 6 ∷ 37 ∷ 196 ∷ 231 ∷ 130 ∷ 161 ∷ 72
    ∷ 107 ∷ 14 ∷ 45 ∷ 221 ∷ 254 ∷ 155 ∷ 184 ∷ 81 ∷ 114 ∷ 23 ∷ 52 ∷ 213 ∷ 246 ∷ 147 ∷ 176 ∷ 89 ∷ 122
    ∷ 31 ∷ 60 ∷ 238 ∷ 205 ∷ 168 ∷ 139 ∷ 98 ∷ 65 ∷ 36 ∷ 7 ∷ 230 ∷ 197 ∷ 160 ∷ 131 ∷ 106 ∷ 73 ∷ 44
    ∷ 15 ∷ 255 ∷ 220 ∷ 185 ∷ 154 ∷ 115 ∷ 80 ∷ 53 ∷ 22 ∷ 247 ∷ 212 ∷ 177 ∷ 146 ∷ 123 ∷ 88 ∷ 61 ∷ 30
    ∷ []

low_bytes_differ : every_index (λ t. get_or low_byte_index (entry t % 256) 0 == t) 256 ≡ true
unfolding every_index entry crc16_tab low_byte_index
low_bytes_differ = refl

-- No two entries share their low byte.
pub entry-injective : (s t : ℕ) → s < 256 → t < 256 → entry s % 256 ≡ entry t % 256 → s ≡ t
entry-injective s t hs ht e =
    sym ((==_iff _ _).0 (index_passes _ 256 s low_bytes_differ hs))
    ∙ ap (λ v. get_or low_byte_index v 0) e
    ∙ (==_iff _ _).0 (index_passes _ 256 t low_bytes_differ ht)

bytes_move_up : every_index (λ t. shift_bits 8 t == t * 256) 256 ≡ true
unfolding every_index shift_bits shift_bit
bytes_move_up = refl

-- A register below 256 meets no feedback in eight shifts.
pub shift_bits_byte : (t : ℕ) → t < 256 → shift_bits 8 t ≡ t * 256
shift_bits_byte t h = (==_iff _ _).0 (index_passes _ 256 t bytes_move_up h)
