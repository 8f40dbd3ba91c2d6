-- ===== src/Pool/Examples.antt =====
-- The theorem on preallocatable.h at a pool of three elements.
use lock_free_search_tree.Base.{◌≡◌, refl, true, ok, throw, out_of_range, arith}
use lock_free_search_tree.Pool.{Pool, initial, preallocate, deallocate, after_new, new, after_calls}
use lock_free_search_tree.Pool.Laws.{new-after_calls}

abbrev three : Pool
three = record { is_preallocated = true; num_preallocated = 3; current_element_index = 0 }

preallocate-three : preallocate 3 initial ≡ ok three
unfolding preallocate
preallocate-three = refl

fourth_call : new (after_calls 3 three) ≡ throw out_of_range
unfolding new after_calls after_new
fourth_call = refl

deallocate-three : preallocate 3 (deallocate three) ≡ ok three
unfolding preallocate deallocate
deallocate-three = refl

new-after_calls_example : new (after_calls 2 three) ≡ ok 2
new-after_calls_example = new-after_calls 3 2 initial three preallocate-three (omega arith)
