-- ===== src/Core/TimeBuffer/Tests.antt =====
-- Runs of the ring buffer, after the tests of rust/crates/core_types/src/time_buffer.rs.
use ibkr_bot.Base.{ℕ, List, [], ◌∷◌, ◌≡◌, map, length, refl, nat_eq}
use ibkr_bot.Core.TimeBuffer.{new, push, prune_expired, prune_from, len, iter, iter_from}
use ibkr_bot.Core.TimeBuffer.Runs.{Call, pushes, prunes, run, run_entries, run_entries_lem}

abbrev four_pushes : List (Call ℕ)
four_pushes = pushes 100 1 ∷ pushes 200 2 ∷ pushes 300 3 ∷ pushes 400 4 ∷ []

test_capacity_overflow : iter (run (new 3 1000) four_pushes) ≡ 2 ∷ 3 ∷ 4 ∷ []
unfolding run new push iter iter_from
test_capacity_overflow = refl

test_time_eviction : iter (prune_expired (run (new 10 250) four_pushes) 500) ≡ 3 ∷ 4 ∷ []
unfolding run new push prune_expired prune_from iter iter_from
test_time_eviction = refl

run_entries_lem_example :
    (len (run (new 3 150) (prunes 420 ∷ four_pushes))
      ≡ length (run_entries 3 150 [] (prunes 420 ∷ four_pushes)))
    × (iter (run (new 3 150) (prunes 420 ∷ four_pushes))
        ≡ map (λ e. e.1) (run_entries 3 150 [] (prunes 420 ∷ four_pushes)))
run_entries_lem_example = run_entries_lem 3 150 (prunes 420 ∷ four_pushes)
