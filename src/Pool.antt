-- ===== src/Pool.antt =====
-- preallocatable.h: a fixed number of elements, handed out one after the other.
mod Laws
mod Examples
use lock_free_search_tree.Base.{
  ℕ, zero, suc, ◌+◌, ◌%◌, Bool, true, false, if◌then◌else◌, ltb, leb, Outcome, ok, throw, fault,
  out_of_range, logic_error,
}

-- `_isPreallocated`, `_numPreallocated` and `_currentElementIndex` of one class. The index is an
-- `atomic<int>` and is held as the 32 bits of its two's complement.
pub record Pool : Type 0 where
  pub is_preallocated : Bool
  pub num_preallocated : ℕ
  pub current_element_index : ℕ

-- The statics before any call.
abbrev pub initial : Pool
initial = record { is_preallocated = false; num_preallocated = 0; current_element_index = 0 }

-- 2 ^ 31: from here on the 32 bits are a negative int.
abbrev pub int_half : ℕ
int_half = 2147483648

-- `Preallocate`.
unfoldable pub preallocate : ℕ → Pool → Outcome Pool
preallocate num_elements p =
    if p.is_preallocated
    then throw logic_error
    else ok (record {
      is_preallocated = true;
      num_preallocated = num_elements;
      current_element_index = 0;
    })

-- `Deallocate`.
unfoldable pub deallocate : Pool → Pool
deallocate p = record p { is_preallocated = false }

-- What `New` leaves behind: the index has moved on also when the call throws for want of elements.
unfoldable pub after_new : Pool → Pool
after_new p =
    if p.is_preallocated
    then record p { current_element_index = (p.current_element_index + 1) % 4294967296 }
    else p

-- What `New` returns: the number of the element. A negative index is outside of the array.
unfoldable pub new : Pool → Outcome ℕ
new p =
    if p.is_preallocated
    then (if leb int_half p.current_element_index
        then fault
        else if leb p.num_preallocated p.current_element_index
        then throw out_of_range
        else ok p.current_element_index)
    else throw logic_error

-- The pool after a number of calls of `New`.
unfoldable pub after_calls : ℕ → Pool → Pool
after_calls zero p = p
after_calls (suc k) p = after_new (after_calls k p)
