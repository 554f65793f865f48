-- ===== src/Streams/Frames.antt =====
-- h2mux/muxedstream.go, h2mux/muxwriter.go: the data frames of a chunk.

-- The payloads put together
use cloudflared.Common.{
  ◌==◌, if◌then◌else◌, min, Bool-cases, length, take, drop, take-append-drop, length-take,
  length-drop, ℕ, zero, suc, ◌≤◌, ◌<◌, ◌≡◌, refl, ap, ◌∙◌, subst, ◌⊎◌, inl, inr, Bool, true, false,
  ◌&&◌, some, List, [], ◌∷◌, ◌++◌, arith,
}
use cloudflared.Common.Bytes.{Bytes}
use cloudflared.Streams.Stream.{StreamChunk, next_data_frame, and_frame, frames_from, data_frames}
use native.Mathlib.Decide.{dec_lt}
use mathlib.Core.List.{append-nil}

abbrev pub joined : List (Bytes × Bool) → Bytes
joined [] = []
joined ((p, last) ∷ fs) = p ++ joined fs

-- Every frame is within the limit, and only the last one may end the stream, as told.
abbrev pub AreFrames : ℕ → Bool → List (Bytes × Bool) → Type 0
AreFrames limit eof [] = ⊥
AreFrames limit eof ((p, last) ∷ []) = (length p ≤ limit) × (last ≡ eof)
AreFrames limit eof ((p, last) ∷ f ∷ fs) =
    (length p ≤ limit) × (last ≡ false) × AreFrames limit eof (f ∷ fs)

turn :
    (m fuel limit : ℕ) (eof : Bool) (left : Bytes)
    → min limit (length left) ≡ m
    → frames_from (suc fuel) limit eof left
      ≡ and_frame
          (take m left, eof && length (drop m left) == 0)
          (if length (drop m left) == 0 then some [] else frames_from fuel limit eof (drop m left))
turn m fuel limit eof left e =
    subst
      (λ k.
        frames_from (suc fuel) limit eof left
        ≡ and_frame (take k left, eof && length (drop k left) == 0)
            (if length (drop k left) == 0
              then some []
              else frames_from fuel limit eof (drop k left)))
      e (unfold frames_from next_data_frame in refl)

take_all : (xs : Bytes) → take (length xs) xs ≡ xs
take_all [] = refl
take_all (x ∷ xs) = ap (◌∷◌ x) (take_all xs)

last_frame :
    (fuel limit : ℕ) (eof : Bool) (left : Bytes)
    → length left ≤ limit
    → frames_from (suc fuel) limit eof left ≡ some ((left, eof) ∷ [])
unfolding and_frame
last_frame fuel limit eof left h =
    turn (length left) fuel limit eof left (ground arith)
    ∙ ground (arith, take_all left, length-drop (length left) left)

more_frames :
    (fuel limit : ℕ) (eof : Bool) (left : Bytes) (fs : List (Bytes × Bool))
    → limit < length left
    → frames_from fuel limit eof (drop limit left) ≡ some fs
    → frames_from (suc fuel) limit eof left ≡ some ((take limit left, false) ∷ fs)
unfolding and_frame
more_frames fuel limit eof left fs h rest =
    turn limit fuel limit eof left (ground arith) ∙ ground (arith, rest, length-drop limit left)

AreFrames-cons :
    (limit : ℕ) (eof : Bool) (p : Bytes) (fs : List (Bytes × Bool))
    → length p ≤ limit
    → AreFrames limit eof fs
    → AreFrames limit eof ((p, false) ∷ fs)
AreFrames-cons limit eof p [] h k = absurd k
AreFrames-cons limit eof p (f ∷ fs) h k = (h, refl, k)

frames_from-AreFrames :
    (fuel limit : ℕ) (eof : Bool) (left : Bytes)
    → 0 < limit
    → length left < fuel
    → (fs : List (Bytes × Bool)) × (frames_from fuel limit eof left ≡ some fs)
      × AreFrames limit eof fs
      × (joined fs ≡ left)
frames_from-AreFrames zero limit eof left pos enough = absurd (omega arith)
frames_from-AreFrames (suc fuel) limit eof left pos enough = elim (dec_lt limit (length left)) [
  | no fits ↦ (
    (left, eof) ∷ [],
    last_frame fuel limit eof left (omega arith),
    (omega arith, refl),
    append-nil left,
  )
  | yes long ↦
      let (fs, e, good, back) =
        frames_from-AreFrames fuel limit eof (drop limit left) pos
          (omega (arith, length-drop limit left)) in
      (
        (take limit left, false) ∷ fs,
        more_frames fuel limit eof left fs long e,
        AreFrames-cons limit eof (take limit left) fs (omega (arith, length-take limit left)) good,
        ap (λ (b : Bytes). take limit left ++ b) back ∙ take-append-drop limit left,
      )
]

-- The loop over a chunk's data frames ends, when frames may hold at least one byte, within as many
-- turns as the chunk has bytes, and one more: the payloads, put together, are the chunk's bytes,
-- each is within the frame size, and exactly the last frame ends the stream if the chunk does. A
-- chunk that sends no data has no frames.
pub data_frames-total :
    (fuel frame_size : ℕ) (chunk : StreamChunk)
    → 0 < frame_size
    → length chunk.buffer < fuel
    → (fs : List (Bytes × Bool)) × (data_frames fuel frame_size chunk ≡ some fs)
      × (((chunk.send_data ≡ false) × (fs ≡ []))
          ⊎ ((chunk.send_data ≡ true)
              × (AreFrames frame_size chunk.eof fs × (joined fs ≡ chunk.buffer))))
unfolding data_frames
data_frames-total fuel frame_size chunk pos enough = elim (Bool-cases chunk.send_data) [
  | inr off ↦ ([], ground (arith, off), inl (off, refl))
  | inl on ↦
      let (fs, e, good, back) =
        frames_from-AreFrames fuel frame_size chunk.eof chunk.buffer pos enough in
      (fs, ground (arith, on, e), inr (on, (good, back)))
]
