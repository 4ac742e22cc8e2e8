-- ===== src/ThreadMap/HasherTests.antt =====
-- Two addresses of user space, of objects of 8 bytes, with the same hash (recorder/src/main/cpp/thread_map.h).
use fk_prof.Prelude.{◌≡◌, refl}
use fk_prof.ThreadMap.Hasher.{
  shift_right, shift_left, multiply, mix, scramble, finish, hash, hash_collides,
}

hash_collides_example : hash 8 106451074100704 ≡ hash 8 98126584950240
unfolding multiply mix shift_right shift_left
hash_collides_example = hash_collides 8 98126584950240 106451074100704 refl

-- The hash of an address, by the program's formula.
hash_test : hash 8 16 ≡ 5890242070878718388
unfolding hash multiply mix finish scramble shift_right shift_left
hash_test = refl
