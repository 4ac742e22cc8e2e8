-- ===== src/Queue/Frames.antt =====
-- The loops over frames of `write` and `pop`: what they copy, and that the padding stays zero.
use fk_prof.Prelude.{
  ℕ, zero, suc, ◌-◌, ◌≤◌, ◌≡◌, refl, ap, ◌∙◌, List, [], ◌∷◌, arith, length, take, drop, replicate,
}
use fk_prof.Queue.{CallFrame, zero_frame, copy_frames, clear_frames}

pub length-copy_frames :
    (n : ℕ) (src fb : List CallFrame) → length (copy_frames n src fb) ≡ length fb
unfolding copy_frames
length-copy_frames zero src fb = refl
length-copy_frames (suc n) [] fb = refl
length-copy_frames (suc n) (f ∷ src) [] = refl
length-copy_frames (suc n) (f ∷ src) (o ∷ fb) = ap suc (length-copy_frames n src fb)

pub take-copy_frames :
    (n : ℕ) (src fb : List CallFrame)
    → n ≤ length src
    → n ≤ length fb
    → take n (copy_frames n src fb) ≡ take n src
unfolding copy_frames
take-copy_frames zero src fb h k = refl
take-copy_frames (suc n) [] fb h k = absurd (omega arith)
take-copy_frames (suc n) (f ∷ src) [] h k = absurd (omega arith)
take-copy_frames (suc n) (f ∷ src) (o ∷ fb) h k =
    ap (λ r. f ∷ r) (take-copy_frames n src fb (omega arith) (omega arith))

-- Copying over zeroed memory leaves zeros behind the copy.
pub drop-copy_frames :
    (n m : ℕ) (src : List CallFrame)
    → n ≤ length src
    → n ≤ m
    → drop n (copy_frames n src (replicate m zero_frame)) ≡ replicate (m - n) zero_frame
unfolding copy_frames
drop-copy_frames zero m src h k = ap (λ r. replicate r zero_frame) (omega arith)
drop-copy_frames (suc n) m [] h k = absurd (omega arith)
drop-copy_frames (suc n) zero (f ∷ src) h k = absurd (omega arith)
drop-copy_frames (suc n) (suc m) (f ∷ src) h k =
    drop-copy_frames n m src (omega arith) (omega arith)
    ∙ ap (λ r. replicate r zero_frame) (omega arith)

pub length-clear_frames : (n : ℕ) (fb : List CallFrame) → length (clear_frames n fb) ≡ length fb
unfolding clear_frames
length-clear_frames zero fb = refl
length-clear_frames (suc n) [] = refl
length-clear_frames (suc n) (f ∷ fb) = ap suc (length-clear_frames n fb)

-- Clearing the frames in use makes the whole buffer zero.
pub clear_frames-all :
    (n : ℕ) (fb : List CallFrame)
    → drop n fb ≡ replicate (length fb - n) zero_frame
    → clear_frames n fb ≡ replicate (length fb) zero_frame
unfolding clear_frames
clear_frames-all zero fb h = h ∙ ap (λ r. replicate r zero_frame) (omega arith)
clear_frames-all (suc n) [] h = refl
clear_frames-all (suc n) (f ∷ fb) h =
    ap (λ r. zero_frame ∷ r)
      (clear_frames-all n fb (h ∙ ap (λ r. replicate r zero_frame) (omega arith)))
