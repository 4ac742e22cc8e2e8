-- ===== src/LockFreeMap/Provider/Tests.antt =====
-- Tests and witnesses for the provider (recorder/src/main/cpp/concurrent_map.h).
use fk_prof.Prelude.{
  ℕ, ◌+◌, ◌*◌, ◌/◌, ◌≤◌, ◌≡◌, refl, some, arith, update, false, List, [], ◌∷◌, ◌⊎◌,
}
use fk_prof.LockFreeMap.Defs.{
  HashTable, new_table, nearest_pow2, allocated_size, home, step, find_loop, find, walk,
  store_value, set_delta, claim, search_cell, insert_or_update,
}
use fk_prof.LockFreeMap.New.{
  new_table-IsValid, new_table-IsChunked, new_table-IsUnmarked, lookup-new_table,
}
use fk_prof.LockFreeMap.Tests.{one_entry, one_entry-Stores}
use fk_prof.LockFreeMap.Migration.Run.{run}
use fk_prof.LockFreeMap.Migration.Restart.{Runs, run-Runs}
use fk_prof.LockFreeMap.Provider.{
  root, start_job, put_rounds, put_round, get, remove, unsafe_used, unsafe_dirty, capacity,
}
use fk_prof.LockFreeMap.Provider.Rounds.{
  HoldsRoot, at_root, Rounds, Stores-HoldsRoot, start_job-Holds, put_rounds-Rounds,
}
use fk_prof.LockFreeMap.Provider.Calls.{remove-value}
use fk_prof.LockFreeMap.Provider.Client.{
  Call, puts, gets, removes, Served, answered, out_of_rounds, waits, AllLegal, serve_all,
  serve_all-expected, serve_all-bound,
}

abbrev nothing : ℕ → ℕ
nothing h = 0

abbrev one_value : ℕ → ℕ
one_value = update nothing 5 7

one_entry-HoldsRoot : HoldsRoot one_value one_entry
one_entry-HoldsRoot =
    Stores-HoldsRoot
      (record {
        valid = new_table-IsValid 32;
        chunked = new_table-IsChunked 32;
        unmarked = new_table-IsUnmarked 32;
        lookups = λ h ne. lookup-new_table 32 h;
      })
      one_entry-Stores (λ q. omega arith)

put_rounds_example : Rounds one_value 37 9 (put_rounds 3 false (root one_entry) 37 9)
put_rounds_example =
    put_rounds-Rounds 37 9 (λ q. omega arith) (λ q. omega arith) 3 false (root one_entry)
      (at_root one_entry-HoldsRoot)

run_example : Runs one_value (run (start_job one_entry 64))
run_example = run-Runs one_value (start_job one_entry 64) (start_job-Holds one_entry-HoldsRoot 64)

remove-value_example :
    (t' : HashTable) × (remove one_entry 5 ≡ some (7, t')) × HoldsRoot (update one_value 5 0) t'
remove-value_example = remove-value one_entry-HoldsRoot 5 (λ q. omega arith)

abbrev calls : List Call
calls = gets 5 ∷ puts 5 7 ∷ puts 37 9 ∷ gets 5 ∷ removes 5 ∷ gets 5 ∷ gets 37 ∷ []

calls-AllLegal : AllLegal calls
calls-AllLegal = (
  (λ q. omega arith),
  (
    (λ q. omega arith),
    (λ q. omega arith),
    (
      (λ q. omega arith),
      (λ q. omega arith),
      ((λ q. omega arith), ((λ q. omega arith), ((λ q. omega arith), ((λ q. omega arith), tt)))),
    ),
  ),
)

abbrev answers : Served → List ℕ
answers (answered xs t) = xs
answers out_of_rounds = []
answers waits = []

calls_test : answers (serve_all 1 calls (new_table 32)) ≡ 0 ∷ 0 ∷ 0 ∷ 7 ∷ 7 ∷ 0 ∷ 9 ∷ []
unfolding serve_all put_rounds put_round get remove insert_or_update walk search_cell set_delta
    claim store_value home step find find_loop new_table allocated_size nearest_pow2
calls_test = refl

serve_all-expected_example :
    ((t : HashTable) × (serve_all 1 calls (new_table 32)
        ≡ answered (0 ∷ 0 ∷ 0 ∷ 7 ∷ 7 ∷ 0 ∷ 9 ∷ []) t))
    ⊎ (serve_all 1 calls (new_table 32) ≡ out_of_rounds)
serve_all-expected_example = serve_all-expected 32 1 calls calls-AllLegal

serve_all-bound_example :
    ((xs : List ℕ) × (t : HashTable) × (serve_all 1 calls (new_table 32) ≡ answered xs t)
      × (unsafe_used t ≤ unsafe_dirty t)
      × (unsafe_dirty t + t.free_buckets ≡ 3 * capacity t / 4))
    ⊎ (serve_all 1 calls (new_table 32) ≡ out_of_rounds)
serve_all-bound_example = serve_all-bound 32 1 calls calls-AllLegal
