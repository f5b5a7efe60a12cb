-- ===== src/LinkedList.antt =====
-- The classes List and ListElement of dev2-filesys/nachos/code/threads/list.cc and list.h. The chain
-- from `first` on is the list of elements, and `last` is the last one: both are NULL if it is empty.
pub mod Sorted
mod Tests
use operating_systems_assign.Prelude.{
  ℕ, ◌+◌, ◌%◌, ◌^◌, Bool, true, false, Option, none, some, List, [], ◌∷◌, ◌++◌, ltb, if◌then◌else◌,
}

pub record ListElement : Type 0 where
  pub item : ℕ
  pub key : ℕ

abbrev pub LinkedList : Type 0
LinkedList = List ListElement

-- `a < b` for two ints.
pub int_lt : ℕ → ℕ → Bool
int_lt a b = ltb ((a + 2 ^ 31) % 2 ^ 32) ((b + 2 ^ 31) % 2 ^ 32)

pub is_empty : LinkedList → Bool
is_empty [] = true
is_empty (e ∷ es) = false

pub append : LinkedList → ℕ → LinkedList
append list item = list ++ (record { item = item; key = 0 } ∷ [])

pub prepend : LinkedList → ℕ → LinkedList
prepend list item = record { item = item; key = 0 } ∷ list

-- The loop of SortedInsert behind the element `p`.
pub insert_behind : ListElement → LinkedList → ListElement → LinkedList
insert_behind element [] p = p ∷ element ∷ []
insert_behind element (q ∷ rest) p =
    let later = insert_behind element rest q in
    p ∷ (if int_lt element.key q.key then element ∷ q ∷ rest else later)

pub sorted_insert : LinkedList → ℕ → ℕ → LinkedList
sorted_insert [] item sort_key = record { item = item; key = sort_key } ∷ []
sorted_insert (p ∷ rest) item sort_key =
    let element : ListElement = record { item = item; key = sort_key } in
    if int_lt sort_key p.key then element ∷ p ∷ rest else insert_behind element rest p

-- The element that is taken off, whose item is the result, and the list behind it; `none` is NULL.
pub sorted_remove : LinkedList → Option (ListElement × LinkedList)
sorted_remove [] = none
sorted_remove (e ∷ es) = some (e, es)

pub remove : LinkedList → Option (ListElement × LinkedList)
remove list = sorted_remove list
