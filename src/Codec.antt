-- ===== src/Codec.antt =====
-- The binary frames of packages/protocol/src/codec.js. A buffer is the list of its bytes.
pub mod Frame
pub mod Chunks
mod Tests
use deepseek_harness_gateway.Common.{
  ℕ, zero, suc, ◌+◌, ◌*◌, ◌/◌, ◌%◌, Option, none, some, List, [], ◌∷◌, ◌++◌, ltb, if◌then◌else◌,
}
use deepseek_harness_gateway.Common.Lists.{length, get_or, take, drop}

abbrev pub header_bytes : ℕ
header_bytes = 13

abbrev pub u32_size : ℕ
u32_size = 4294967296

pub record BinaryFrame : Type 0 where
  pub kind : ℕ
  pub channel : ℕ
  pub seq : ℕ
  pub payload : List ℕ

-- `writeUInt32LE`, of a number below 2 ^ 32
abbrev pub u32le : ℕ → List ℕ → List ℕ
u32le n rest = n % 256 ∷ n / 256 % 256 ∷ n / 65536 % 256 ∷ n / 16777216 % 256 ∷ rest

-- `kind & 0xff`, `channel >>> 0`, `seq >>> 0`; a length of 2 ^ 32 or more makes `writeUInt32LE` throw
unfoldable pub encode_frame : ℕ → ℕ → ℕ → List ℕ → Option (List ℕ)
encode_frame kind channel seq payload =
    if ltb (length payload) u32_size
    then some (
        kind % 256
        ∷ u32le (channel % u32_size) (u32le (seq % u32_size) (u32le (length payload) payload)))
    else none

unfoldable pub encode_binary_frame : ℕ → ℕ → List ℕ → Option (List ℕ)
unfolding encode_frame
encode_binary_frame channel seq payload = encode_frame 1 channel seq payload

-- `readUInt32LE`
abbrev pub read_u32le : ℕ → List ℕ → ℕ
read_u32le at buf =
    get_or buf at 0
    + 256 * get_or buf (at + 1) 0
    + 65536 * get_or buf (at + 2) 0
    + 16777216 * get_or buf (at + 3) 0

-- One turn of the loop of `push`: a whole frame at the front of the buffer, and the rest.
unfoldable pub take_frame : List ℕ → Option (BinaryFrame × List ℕ)
take_frame buf =
    let len = read_u32le 9 buf in
    if ltb (length buf) header_bytes
    then none
    else if ltb (length buf) (header_bytes + len)
    then none
    else some (
      record {
        kind = get_or buf 0 0;
        channel = read_u32le 1 buf;
        seq = read_u32le 5 buf;
        payload = take len (drop header_bytes buf);
      },
      drop (header_bytes + len) buf,
    )

-- The loop of `push`, with the turns left: the frames, and the buffer it leaves.
unfoldable pub frames_of : ℕ → List ℕ → List BinaryFrame × List ℕ
unfolding take_frame
frames_of zero buf = ([], buf)
frames_of (suc turns) buf = elim (take_frame buf) [
  | none ↦ ([], buf)
  | some (f, rest) ↦ let (fs, left) = frames_of turns rest in (f ∷ fs, left)
]

-- `push`: a turn for each byte is enough, since a frame has 13 at least
unfoldable pub push : List ℕ → List ℕ → List BinaryFrame × List ℕ
unfolding frames_of
push chunk buf = let all = buf ++ chunk in frames_of (length all) all
