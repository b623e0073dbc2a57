-- ===== src/Call/Frames.antt =====
-- The sound that the call test records: frames of any size, with channels that may change.
use tox_suite.Base.{
  ℕ, zero, suc, ◌+◌, ◌*◌, ◌≤◌, ◌≡◌, refl, sym, List, [], ◌∷◌, ◌++◌, arith, length, take,
}
use tox_suite.Call.{Recording, record_frame, append_at}

-- The buffer holds the counted samples of each channel, no more and no less.
abbrev pub IsRecorded : Recording → Type 0
IsRecorded rec = length rec.pcm ≡ rec.channels * rec.samples_count

length-append_at :
    (junk : ℕ) (old : List ℕ) (position : ℕ) (new : List ℕ)
    → length (append_at junk old position new) ≡ position + length new
unfolding append_at
length-append_at junk old zero new = omega arith
length-append_at junk [] (suc position) new = omega (arith, length-append_at junk [] position new)
length-append_at junk (s ∷ old) (suc position) new =
    omega (arith, length-append_at junk old position new)

length-take : (n : ℕ) (xs : List ℕ) → n ≤ length xs → length (take n xs) ≡ n
length-take zero xs h = refl
length-take (suc n) [] h = omega arith
length-take (suc n) (x ∷ xs) h = omega (arith, length-take n xs)

append_at_end : (junk : ℕ) (old new : List ℕ) → append_at junk old (length old) new ≡ old ++ new
unfolding append_at
append_at_end junk [] new = refl
append_at_end junk (s ∷ old) new = rw (append_at_end junk old new)

-- A frame that holds its samples leaves a buffer of the counted size, whatever it was before.
pub record_frame-IsRecorded :
    (junk : ℕ) (pcm : List ℕ) (count channels rate : ℕ) (prec : Recording)
    → channels * count ≤ length pcm
    → IsRecorded (record_frame junk pcm count channels rate prec)
unfolding record_frame
record_frame-IsRecorded junk pcm count channels rate prec h = ground (
  arith,
  length-append_at junk prec.pcm (channels * prec.samples_count) (take (channels * count) pcm),
  length-take (channels * count) pcm h,
)

-- A frame with as many channels as the recording is appended to it, if the buffer had the counted
-- size: no recorded sample is lost.
pub record_frame_appends :
    (junk : ℕ) (pcm : List ℕ) (count rate : ℕ) (prec : Recording)
    → IsRecorded prec
    → (record_frame junk pcm count prec.channels rate prec).pcm
      ≡ prec.pcm ++ take (prec.channels * count) pcm
unfolding record_frame
record_frame_appends junk pcm count rate prec h =
    rw (sym h) (append_at_end junk prec.pcm (take (prec.channels * count) pcm))
