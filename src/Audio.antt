-- ===== src/Audio.antt =====
-- internal/audio: the frame size, and samples as little-endian bytes. A sample is the 16-bit pattern
-- of an int16, a byte a number below 256.
pub mod RoundTrip
use streamcore_server.Base.{List, [], ℕ, ◌%◌, ◌*◌, ◌+◌, ◌/◌, ◌∷◌}

abbrev pub frame_size : ℕ
frame_size = 320

-- PCMToLinear16Bytes; PutUint16 of each sample.
unfoldable pub linear16_bytes : List ℕ → List ℕ
linear16_bytes [] = []
linear16_bytes (s ∷ pcm) = (s % 256) ∷ ((s / 256) % 256) ∷ linear16_bytes pcm

-- Linear16BytesToPCM: a trailing byte is dropped.
unfoldable pub linear16_pcm : List ℕ → List ℕ
linear16_pcm [] = []
linear16_pcm (b ∷ []) = []
linear16_pcm (b ∷ c ∷ data') = ((b + c * 256) % 65536) ∷ linear16_pcm data'
