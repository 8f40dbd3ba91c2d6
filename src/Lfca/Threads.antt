-- ===== src/Lfca/Threads.antt =====
-- Threads that call the operations of lfca.cpp, and the interleavings of their steps.
pub mod Laws
use lock_free_search_tree.Base.{ℕ, List, [], ◌∷◌, ℤ, update}
use lock_free_search_tree.Lfca.Memory.{Memory, Program, ret, step, throw, fault, out_of_fuel, ◌>>=◌}
use lock_free_search_tree.Lfca.Update.{insert, remove, lookup, range_query}

-- A call of a public operation.
pub data Call : Type 0 where
  insert_call remove_call lookup_call : ℤ → Call
  range_call : (lo hi : ℤ) → Call

-- The program of a call, which drops the value that is returned.
unfoldable pub call : ℕ → (ℕ → ℕ → ℤ) → Call → Program (Unit {0})
call f weights (insert_call i) = insert f weights i
call f weights (remove_call i) = remove f weights i >>= λ _. ret tt
call f weights (lookup_call i) = lookup f weights i >>= λ _. ret tt
call f weights (range_call lo hi) = range_query f weights lo hi >>= λ _. ret tt

-- The calls of a thread, one after the other.
unfoldable pub thread : ℕ → (ℕ → ℕ → ℤ) → List Call → Program (Unit {0})
thread f weights [] = ret tt
thread f weights (c ∷ cs) = call f weights c >>= λ _. thread f weights cs

-- What each thread is about to do, and the memory that they share.
pub record System : Type 0 where
  pub threads : ℕ → Program (Unit {0})
  pub memory : Memory

-- One step of thread `j`; a thread that has ended does nothing.
abbrev pub take : ℕ → Program (Unit {0}) → System → System
take j (step g k) s = record { threads = update s.threads j (k s.memory); memory = g s.memory }
take j (ret a) s = s
take j (throw e) s = s
take j fault s = s
take j out_of_fuel s = s

-- The steps of the threads in the order of a schedule.
unfoldable pub play : List ℕ → System → System
play [] s = s
play (j ∷ js) s = play js (take j (s.threads j) s)

-- The threads at the start of their calls, on a given memory.
abbrev pub start : ℕ → (ℕ → ℕ → ℤ) → (ℕ → List Call) → Memory → System
start f weights calls m = record { threads = λ j. thread f weights (calls j); memory = m }
