-- ===== src/Codec/Frame.antt =====
-- One turn of the loop of `BinaryFrameParser.push` (packages/protocol/src/codec.js).
use deepseek_harness_gateway.Common.{
  ℕ, zero, suc, ◌+◌, ◌%◌, ◌≤◌, ◌<◌, ◌≡◌, refl, sym, ap, ◌∙◌, Option, none, some, List, [], ◌∷◌,
  ◌++◌, ltb, arith, Bool-cases, inl, inr, ◌⊎◌,
}
use deepseek_harness_gateway.Common.Lists.{length, get_or, take, drop, length-append}
use deepseek_harness_gateway.Codec.{
  BinaryFrame, u32_size, header_bytes, u32le, read_u32le, take_frame, encode_frame,
}

get_or-append : (xs ys : List ℕ) (i : ℕ) → i < length xs → get_or (xs ++ ys) i 0 ≡ get_or xs i 0
get_or-append [] ys i h = omega arith
get_or-append (x ∷ xs) ys zero h = refl
get_or-append (x ∷ xs) ys (suc i) h = get_or-append xs ys i (omega arith)

pub drop-append : (n : ℕ) (xs ys : List ℕ) → n ≤ length xs → drop n (xs ++ ys) ≡ drop n xs ++ ys
drop-append zero xs ys h = refl
drop-append (suc n) [] ys h = ground arith
drop-append (suc n) (x ∷ xs) ys h = drop-append n xs ys (omega arith)

pub take-append : (n : ℕ) (xs ys : List ℕ) → n ≤ length xs → take n (xs ++ ys) ≡ take n xs
take-append zero xs ys h = refl
take-append (suc n) [] ys h = ground arith
take-append (suc n) (x ∷ xs) ys h = ap (λ z. x ∷ z) (take-append n xs ys (omega arith))

pub length-drop : (n : ℕ) (xs : List ℕ) → n ≤ length xs → length (drop n xs) + n ≡ length xs
length-drop zero xs h = omega arith
length-drop (suc n) [] h = omega arith
length-drop (suc n) (x ∷ xs) h = omega (arith, length-drop n xs (omega arith))

read-append :
    (i : ℕ) (xs ys : List ℕ) → i + 4 ≤ length xs → read_u32le i (xs ++ ys) ≡ read_u32le i xs
read-append i xs ys h =
    rw
      (
        get_or-append xs ys i (omega arith),
        get_or-append xs ys (i + 1) (omega arith),
        get_or-append xs ys (i + 2) (omega arith),
        get_or-append xs ys (i + 3) (omega arith),
      )
      refl

-- A number below 2 ^ 32 is read back.
pub read-u32le : (n : ℕ) (rest : List ℕ) → n < u32_size → read_u32le 0 (u32le n rest) ≡ n
read-u32le n rest h = omega arith

unfoldable pub frame_size : List ℕ → ℕ
frame_size buf = header_bytes + read_u32le 9 buf

unfoldable pub first_frame : List ℕ → BinaryFrame
first_frame buf = record {
  kind = get_or buf 0 0;
  channel = read_u32le 1 buf;
  seq = read_u32le 5 buf;
  payload = take (read_u32le 9 buf) (drop header_bytes buf);
}

pub take_frame-whole :
    (buf : List ℕ)
    → frame_size buf ≤ length buf
    → take_frame buf ≡ some (first_frame buf, drop (frame_size buf) buf)
unfolding take_frame frame_size first_frame
take_frame-whole buf h = ground arith

pub take_frame-cases : (buf : List ℕ) → (take_frame buf ≡ none) ⊎ (frame_size buf ≤ length buf)
unfolding take_frame frame_size
take_frame-cases buf = elim (Bool-cases (ltb (length buf) (header_bytes + read_u32le 9 buf))) [
  | inl e ↦ inl (ground (arith, e))
  | inr e ↦ inr (ground (arith, e))
]

pub frame_size-append :
    (buf c : List ℕ) → header_bytes ≤ length buf → frame_size (buf ++ c) ≡ frame_size buf
unfolding frame_size
frame_size-append buf c h = rw (read-append 9 buf c (omega arith)) refl

pub first_frame-append :
    (buf c : List ℕ) → frame_size buf ≤ length buf → first_frame (buf ++ c) ≡ first_frame buf
unfolding frame_size first_frame
first_frame-append buf c h =
    rw
      (
        get_or-append buf c 0 (omega arith),
        read-append 1 buf c (omega arith),
        read-append 5 buf c (omega arith),
        read-append 9 buf c (omega arith),
        drop-append header_bytes buf c (omega arith),
        take-append (read_u32le 9 buf) (drop header_bytes buf) c
            (omega (arith, length-drop header_bytes buf (omega arith))),
      )
      refl

pub header_fits : (buf : List ℕ) → frame_size buf ≤ length buf → header_bytes ≤ length buf
unfolding frame_size
header_fits buf h = omega arith

take-length : (xs ys : List ℕ) → take (length xs) (xs ++ ys) ≡ xs
take-length [] ys = refl
take-length (x ∷ xs) ys = ap (λ z. x ∷ z) (take-length xs ys)

drop-length : (xs ys : List ℕ) → drop (length xs) (xs ++ ys) ≡ ys
drop-length [] ys = refl
drop-length (x ∷ xs) ys = drop-length xs ys

drop-nil : (n : ℕ) → drop {A = ℕ} n [] ≡ []
drop-nil zero = refl
drop-nil (suc n) = refl

drop-add : (a b : ℕ) (xs : List ℕ) → drop (a + b) xs ≡ drop b (drop a xs)
drop-add zero b xs = ap (λ n. drop n xs) (omega arith)
drop-add (suc a) b [] = drop-nil (suc a + b) ∙ sym (drop-nil b)
drop-add (suc a) b (x ∷ xs) =
    let e : suc a + b ≡ suc (a + b) = omega arith in ap (λ n. drop n (x ∷ xs)) e ∙ drop-add a b xs

-- The frame that arrives: a kind of 8 bits, a channel and a number of 32.
abbrev pub as_sent : BinaryFrame → BinaryFrame
as_sent f = record f { kind = f.kind % 256; channel = f.channel % u32_size; seq = f.seq % u32_size }

abbrev wire : BinaryFrame → List ℕ
wire f =
    f.kind % 256
    ∷ u32le (f.channel % u32_size) (u32le (f.seq % u32_size) (u32le (length f.payload) f.payload))

abbrev pub encoded : BinaryFrame → Option (List ℕ)
encoded f = encode_frame f.kind f.channel f.seq f.payload

encoded-wire :
    (f : BinaryFrame) (bytes : List ℕ)
    → encoded f ≡ some bytes
    → (bytes ≡ wire f) × (length f.payload < u32_size)
unfolding encode_frame
encoded-wire f bytes e = ground arith

take_frame-wire :
    (f : BinaryFrame) (rest : List ℕ)
    → length f.payload < u32_size
    → take_frame (wire f ++ rest) ≡ some (as_sent f, rest)
unfolding frame_size first_frame
take_frame-wire f rest h =
    let size : read_u32le 9 (wire f ++ rest) ≡ length f.payload =
      read-u32le (length f.payload) (f.payload ++ rest) h in
    let c : read_u32le 1 (wire f ++ rest) ≡ f.channel % u32_size =
      read-u32le (f.channel % u32_size) [] (omega arith) in
    let q : read_u32le 5 (wire f ++ rest) ≡ f.seq % u32_size =
      read-u32le (f.seq % u32_size) [] (omega arith) in
    let behind : drop (header_bytes + length f.payload) (wire f ++ rest) ≡ rest =
      drop-add header_bytes (length f.payload) (wire f ++ rest) ∙ drop-length f.payload rest in
    take_frame-whole (wire f ++ rest) (omega (arith, size, length-append f.payload rest))
    ∙ rw (size, c, q, take-length f.payload rest, behind) refl

-- An encoded frame at the front of the buffer is taken off it.
pub take_frame-encoded :
    (f : BinaryFrame) (bytes rest : List ℕ)
    → encoded f ≡ some bytes
    → take_frame (bytes ++ rest) ≡ some (as_sent f, rest)
take_frame-encoded f bytes rest e =
    let (same, h) = encoded-wire f bytes e in rw same (take_frame-wire f rest h)

pub encoded-size : (f : BinaryFrame) (bytes : List ℕ) → encoded f ≡ some bytes → 0 < length bytes
encoded-size f bytes e = rw ((encoded-wire f bytes e).0) (omega arith)
