-- ===== src/Codec/Chunks.antt =====
-- `BinaryFrameParser.push` of packages/protocol/src/codec.js, over the chunks of a stream.
use mathlib.Core.List.{append_assoc, append-nil}
use deepseek_harness_gateway.Common.{
  ℕ, zero, suc, ◌+◌, ◌≤◌, ◌<◌, ◌≡◌, refl, sym, ap, ◌∙◌, Option, none, some, List, [], ◌∷◌, ◌++◌,
  map, arith, inl, inr,
}
use deepseek_harness_gateway.Common.Lists.{length, drop, length-append}
use deepseek_harness_gateway.Codec.{
  BinaryFrame, header_bytes, read_u32le, take_frame, frames_of, push,
}
use deepseek_harness_gateway.Codec.Frame.{
  frame_size, first_frame, take_frame-cases, frame_size-append, first_frame-append, header_fits,
  length-drop, drop-append, as_sent, encoded, take_frame-encoded, encoded-size,
}

frames_of-stuck : (n : ℕ) (buf : List ℕ) → take_frame buf ≡ none → frames_of n buf ≡ ([], buf)
unfolding frames_of take_frame
frames_of-stuck zero buf e = refl
frames_of-stuck (suc n) buf e = ground (arith, e)

frames_of-whole :
    (n : ℕ) (buf : List ℕ)
    → frame_size buf ≤ length buf
    → frames_of (suc n) buf ≡ (
      first_frame buf ∷ (frames_of n (drop (frame_size buf) buf)).0,
      (frames_of n (drop (frame_size buf) buf)).1,
    )
unfolding frames_of take_frame frame_size first_frame
frames_of-whole n buf h = ground arith

-- what stays behind a whole frame
shorter :
    (buf : List ℕ) → frame_size buf ≤ length buf → length (drop (frame_size buf) buf) < length buf
unfolding frame_size
shorter buf h = omega (arith, length-drop (header_bytes + read_u32le 9 buf) buf h)

empty_stuck : (buf : List ℕ) → length buf ≤ 0 → take_frame buf ≡ none
unfolding take_frame
empty_stuck buf h = ground arith

frames_of-append_whole :
    (n : ℕ) (buf c : List ℕ)
    → frame_size buf ≤ length buf
    → frames_of (suc n) (buf ++ c) ≡ (
      first_frame buf ∷ (frames_of n (drop (frame_size buf) buf ++ c)).0,
      (frames_of n (drop (frame_size buf) buf ++ c)).1,
    )
frames_of-append_whole n buf c w =
    let same = frame_size-append buf c (header_fits buf w) in
    frames_of-whole n (buf ++ c) (omega (arith, same, w, length-append buf c))
    ∙ rw (first_frame-append buf c w, same, drop-append (frame_size buf) buf c w) refl

-- Enough turns give what one turn for each byte gives.
frames_of-turns :
    (m n : ℕ) (buf : List ℕ) → length buf ≤ m → length buf ≤ n → frames_of m buf ≡ frames_of n buf
frames_of-turns zero n buf h k =
    rw (frames_of-stuck zero buf (empty_stuck buf h), frames_of-stuck n buf (empty_stuck buf h))
      refl
frames_of-turns (suc m) zero buf h k =
    rw
      (
        frames_of-stuck (suc m) buf (empty_stuck buf k),
        frames_of-stuck zero buf (empty_stuck buf k),
      )
      refl
frames_of-turns (suc m) (suc n) buf h k = elim (take_frame-cases buf) [
  | inl e ↦ rw (frames_of-stuck (suc m) buf e, frames_of-stuck (suc n) buf e) refl
  | inr w ↦
      let rest =
        frames_of-turns m n (drop (frame_size buf) buf) (omega (arith, shorter buf w))
          (omega (arith, shorter buf w)) in
      rw (frames_of-whole m buf w, frames_of-whole n buf w, rest) refl
]

-- The bytes that stay are no more than there were, and hold no whole frame.
frames_of-left :
    (n : ℕ) (buf : List ℕ)
    → length buf ≤ n
    → (length (frames_of n buf).1 ≤ length buf) × (take_frame (frames_of n buf).1 ≡ none)
frames_of-left zero buf h =
    rw (frames_of-stuck zero buf (empty_stuck buf h)) (omega arith, empty_stuck buf h)
frames_of-left (suc n) buf h = elim (take_frame-cases buf) [
  | inl e ↦ rw (frames_of-stuck (suc n) buf e) (omega arith, e)
  | inr w ↦
      let rest = frames_of-left n (drop (frame_size buf) buf) (omega (arith, shorter buf w)) in
      rw (frames_of-whole n buf w) (omega (arith, rest.0, shorter buf w), rest.1)
]

-- Bytes that come in two parts give the frames of the first part, and then those of what it leaves
-- together with the second.
frames_of-append :
    (n k : ℕ) (buf c : List ℕ)
    → length (buf ++ c) ≤ n
    → length (buf ++ c) ≤ k
    → frames_of n (buf ++ c) ≡ (
      (frames_of n buf).0 ++ (frames_of k ((frames_of n buf).1 ++ c)).0,
      (frames_of k ((frames_of n buf).1 ++ c)).1,
    )
frames_of-append zero k buf c h j =
    let e = empty_stuck buf (omega (arith, length-append buf c)) in
    rw (frames_of-stuck zero buf e) (frames_of-turns zero k (buf ++ c) h j)
frames_of-append (suc n) k buf c h j = elim (take_frame-cases buf) [
  | inl e ↦ rw (frames_of-stuck (suc n) buf e) (frames_of-turns (suc n) k (buf ++ c) h j)
  | inr w ↦
      let left = drop (frame_size buf) buf in
      let rest =
        frames_of-append n k left c
          (omega (arith, shorter buf w, length-append left c, length-append buf c))
          (omega (arith, shorter buf w, length-append left c, length-append buf c)) in
      rw (frames_of-whole n buf w, frames_of-append_whole n buf c w, rest) refl
]

-- The chunks of a stream, pushed one after another: all frames, and the bytes left.
unfoldable pub feed : List (List ℕ) → List ℕ → List BinaryFrame × List ℕ
unfolding push
feed [] buf = ([], buf)
feed (chunk ∷ chunks) buf =
    let (fs, left) = push chunk buf in let (more, last) = feed chunks left in (fs ++ more, last)

abbrev pub joined : List (List ℕ) → List ℕ
joined [] = []
joined (chunk ∷ chunks) = chunk ++ joined chunks

frames_of-feed :
    (chunks : List (List ℕ)) (buf : List ℕ) (n : ℕ)
    → take_frame buf ≡ none
    → length (buf ++ joined chunks) ≤ n
    → feed chunks buf ≡ frames_of n (buf ++ joined chunks)
unfolding feed push
frames_of-feed [] buf n e h = rw (append-nil, frames_of-stuck n buf e) refl
frames_of-feed (c ∷ cs) buf n e h =
    let all = length (buf ++ c) in
    let fits : length ((buf ++ c) ++ joined cs) ≤ n = rw (append_assoc buf c (joined cs)) h in
    let parts = length-append (buf ++ c) (joined cs) in
    let left = frames_of-left all (buf ++ c) (omega arith) in
    let long : length ((frames_of all (buf ++ c)).1 ++ joined cs) ≤ n =
      omega (arith, left.0, parts, fits, length-append (frames_of all (buf ++ c)).1 (joined cs)) in
    let rest = frames_of-feed cs (frames_of all (buf ++ c)).1 n left.1 long in
    let turns : frames_of all (buf ++ c) ≡ frames_of n (buf ++ c) =
      frames_of-turns all n (buf ++ c) (omega arith) (omega (arith, parts, fits)) in
    rw (rest, turns, ← append_assoc buf c (joined cs))
      (sym (frames_of-append n n (buf ++ c) (joined cs) fits fits))

-- However the bytes of a stream are cut into chunks, the parser that is given the chunks one after
-- another returns the frames, and keeps the bytes, that it would for the whole stream in one chunk.
pub feed-push : (chunks : List (List ℕ)) → feed chunks [] ≡ push (joined chunks) []
unfolding push
feed-push chunks =
    frames_of-feed chunks [] (length (joined chunks)) (empty_stuck [] (omega arith)) (omega arith)

abbrev both : Option (List ℕ) → Option (List ℕ) → Option (List ℕ)
both none rest = none
both (some bytes) none = none
both (some bytes) (some rest) = some (bytes ++ rest)

-- the encoded frames, one behind another, if each can be encoded
abbrev pub stream_of : List BinaryFrame → Option (List ℕ)
stream_of [] = some []
stream_of (f ∷ fs) = both (encoded f) (stream_of fs)

both-some :
    (a b : Option (List ℕ)) (z : List ℕ)
    → both a b ≡ some z
    → (x : List ℕ) × (y : List ℕ) × (a ≡ some x) × (b ≡ some y) × (z ≡ x ++ y)
both-some none b z e = ground arith
both-some (some x) none z e = ground arith
both-some (some x) (some y) z e = (x, y, refl, refl, ground arith)

frames_of-found :
    (n : ℕ) (buf : List ℕ) (f : BinaryFrame) (rest : List ℕ)
    → take_frame buf ≡ some (f, rest)
    → frames_of (suc n) buf ≡ (f ∷ (frames_of n rest).0, (frames_of n rest).1)
unfolding frames_of take_frame
frames_of-found n buf f rest e = rw (e, frames_of) refl

frames_of-stream :
    (n : ℕ) (fs : List BinaryFrame) (bytes : List ℕ)
    → stream_of fs ≡ some bytes
    → length bytes ≤ n
    → frames_of n bytes ≡ (map as_sent fs, [])
frames_of-stream n [] bytes e h =
    let none_left : bytes ≡ [] = ground arith in
    rw none_left (frames_of-stuck n [] (empty_stuck [] (omega arith)))
frames_of-stream zero (f ∷ fs) bytes e h =
    let (x, y, one, more, same) = both-some (encoded f) (stream_of fs) bytes e in
    ground (arith, encoded-size f x one, ap length same, length-append x y)
frames_of-stream (suc n) (f ∷ fs) bytes e h =
    let (x, y, one, more, same) = both-some (encoded f) (stream_of fs) bytes e in
    let rest =
      frames_of-stream n fs y more
        (omega (arith, encoded-size f x one, ap length same, length-append x y)) in
    rw (same, frames_of-found n (x ++ y) (as_sent f) y (take_frame-encoded f x y one), rest) refl

-- Frames that are encoded one behind another, and reach the parser cut into any chunks, come out of
-- it in their order, each once, with the kind cut to 8 bits and the channel and the number to 32; no
-- byte stays behind.
pub feed-encode_frame :
    (fs : List BinaryFrame) (bytes : List ℕ) (chunks : List (List ℕ))
    → stream_of fs ≡ some bytes
    → joined chunks ≡ bytes
    → feed chunks [] ≡ (map as_sent fs, [])
unfolding push
feed-encode_frame fs bytes chunks e cut =
    feed-push chunks ∙ rw cut (frames_of-stream (length bytes) fs bytes e (omega arith))
