-- ===== src/Audio/RoundTrip.antt =====
-- Samples and bytes, there and back.
use streamcore_server.Base.{
  List, [], arith, length, refl, subst, suc, take, ℕ, ◌%◌, ◌*◌, ◌+◌, ◌/◌, ◌<◌, ◌∷◌, ◌≡◌,
}
use streamcore_server.Audio.{linear16_bytes, linear16_pcm}

abbrev pub Below : ℕ → List ℕ → Type 0
Below n [] = Unit {0}
Below n (x ∷ xs) = (x < n) × Below n xs

sample_split : (s : ℕ) → s < 65536 → (s % 256 + s / 256 % 256 * 256) % 65536 ≡ s
sample_split s lt = omega arith

byte_low : (b c : ℕ) → b < 256 → c < 256 → (b + c * 256) % 65536 % 256 ≡ b
byte_low b c l m = omega arith

byte_high : (b c : ℕ) → b < 256 → c < 256 → (b + c * 256) % 65536 / 256 % 256 ≡ c
byte_high b c l m = omega arith

pcm-bytes : (pcm : List ℕ) → Below 65536 pcm → linear16_pcm (linear16_bytes pcm) ≡ pcm
unfolding linear16_pcm linear16_bytes
pcm-bytes [] h = refl
pcm-bytes (s ∷ pcm) (lt, h) = rw (sample_split s lt, pcm-bytes pcm h)

-- The whole samples of a byte string: one trailing byte is left out.
abbrev pub even_part : List ℕ → List ℕ
even_part bytes = take (length bytes / 2 * 2) bytes

even_part-cons : (b c : ℕ) (bs : List ℕ) → even_part (b ∷ c ∷ bs) ≡ b ∷ c ∷ even_part bs
even_part-cons b c bs =
    let e : suc (suc (length bs / 2 * 2)) ≡ suc (suc (length bs)) / 2 * 2 = omega arith in
    subst (λ (n : ℕ). take n (b ∷ c ∷ bs) ≡ b ∷ c ∷ even_part bs) e refl

bytes-pcm : (bs : List ℕ) → Below 256 bs → linear16_bytes (linear16_pcm bs) ≡ even_part bs
unfolding linear16_pcm linear16_bytes
bytes-pcm [] h = refl
bytes-pcm (b ∷ []) h = refl
bytes-pcm (b ∷ c ∷ bs) (l, (m, h)) =
    rw (byte_low b c l m, byte_high b c l m, bytes-pcm bs h, even_part-cons b c bs)

-- 16-bit samples come back from their bytes as they were, and bytes from their samples likewise, but
-- for the last byte of an odd number, which is dropped.
pub linear16_round_trip :
    (pcm bytes : List ℕ)
    → Below 65536 pcm
    → Below 256 bytes
    → (linear16_pcm (linear16_bytes pcm) ≡ pcm)
      × (linear16_bytes (linear16_pcm bytes) ≡ take (length bytes / 2 * 2) bytes)
linear16_round_trip pcm bytes h k = (pcm-bytes pcm h, bytes-pcm bytes k)
