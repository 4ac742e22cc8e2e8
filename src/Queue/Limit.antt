-- ===== src/Queue/Limit.antt =====
-- No call changes the frame limit of the queue.
use fk_prof.Prelude.{ℕ, ◌≡◌, refl, Bool-cases, inl, inr, Option, ◌==◌, arith}
use fk_prof.Queue.{
  CallTrace, CircularQueue, init, advance, push, pop, write, set_info, set_committed, clean_slot,
}

pub push-max_frames :
    (t : CallTrace) (info : Option ℕ) (q : CircularQueue)
    → (push t info q).1.max_frames ≡ q.max_frames
unfolding push write set_info set_committed
push-max_frames t info q = elim (Bool-cases (q.output == advance q.input)) [
  | inl full ↦ rw full refl
  | inr room ↦ rw room refl
]

pub pop-max_frames : (q : CircularQueue) → (pop q).1.max_frames ≡ q.max_frames
unfolding pop clean_slot set_committed
pop-max_frames q = ground arith

pub init-max_frames : (n : ℕ) → (init n).max_frames ≡ n
unfolding init
init-max_frames n = refl
