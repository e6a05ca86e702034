-- ===== src/Codec/Tests.antt =====
-- Runs of packages/protocol/src/codec.js.
use deepseek_harness_gateway.Common.{ℕ, ◌≡◌, refl, some, List, [], ◌∷◌, map}
use deepseek_harness_gateway.Codec.{BinaryFrame, encode_frame}
use deepseek_harness_gateway.Codec.Frame.{as_sent}
use deepseek_harness_gateway.Codec.Chunks.{feed, stream_of, feed-encode_frame}

-- a frame of three bytes, and an empty one whose kind does not fit 8 bits
abbrev two_frames : List BinaryFrame
two_frames =
    record { kind = 1; channel = 7; seq = 300; payload = 10 ∷ 20 ∷ 30 ∷ [] }
    ∷ record { kind = 258; channel = 70000; seq = 0; payload = [] }
    ∷ []

abbrev two_frames_bytes : List ℕ
two_frames_bytes =
    1 ∷ 7 ∷ 0 ∷ 0 ∷ 0 ∷ 44 ∷ 1 ∷ 0 ∷ 0 ∷ 3 ∷ 0 ∷ 0 ∷ 0 ∷ 10 ∷ 20 ∷ 30 ∷ 2 ∷ 112 ∷ 17 ∷ 1 ∷ 0 ∷ 0 ∷ 0
    ∷ 0 ∷ 0 ∷ 0 ∷ 0 ∷ 0 ∷ 0 ∷ []

-- cut in the middle of a header, and with an empty chunk
abbrev cut_up : List (List ℕ)
cut_up =
    (1 ∷ 7 ∷ 0 ∷ [])
    ∷ []
    ∷ (0 ∷ 0 ∷ 44 ∷ 1 ∷ 0 ∷ 0 ∷ 3 ∷ 0 ∷ 0 ∷ 0 ∷ 10 ∷ 20 ∷ 30 ∷ 2 ∷ 112 ∷ [])
    ∷ (17 ∷ 1 ∷ 0 ∷ 0 ∷ 0 ∷ 0 ∷ 0 ∷ 0 ∷ 0 ∷ 0 ∷ 0 ∷ [])
    ∷ []

two_frames_stream : stream_of two_frames ≡ some two_frames_bytes
unfolding encode_frame
two_frames_stream = refl

feed-encode_frame_example : feed cut_up [] ≡ (map as_sent two_frames, [])
feed-encode_frame_example =
    feed-encode_frame two_frames two_frames_bytes cut_up two_frames_stream refl
