-- ===== src/LinkedList/Sorted.antt =====
-- The lists that only SortedInsert and SortedRemove change are sorted by key.
use operating_systems_assign.Prelude.{
  ℕ, ◌+◌, ◌≡◌, refl, inl, inr, true, false, ◌&&◌, some, [], ◌∷◌, ◌==◌, if◌then◌else◌, arith,
  Bool-cases,
}
use operating_systems_assign.LinkedList.{
  ListElement, LinkedList, int_lt, insert_behind, sorted_insert, sorted_remove,
}

-- Every element of the list has a key that is not less.
unfoldable pub AllFrom : ℕ → LinkedList → Type 0
AllFrom k [] = Unit {0}
AllFrom k (e ∷ es) = (int_lt e.key k ≡ false) × AllFrom k es

unfoldable pub IsSorted : LinkedList → Type 0
IsSorted [] = Unit {0}
IsSorted (e ∷ es) = AllFrom e.key es × IsSorted es

-- How often an item is in the list with a key.
unfoldable pub count : LinkedList → ℕ → ℕ → ℕ
count [] item key = 0
count (e ∷ es) item key = (if e.item == item && e.key == key then 1 else 0) + count es item key

int_lt_asym : (a b : ℕ) → int_lt a b ≡ true → int_lt b a ≡ false
unfolding int_lt
int_lt_asym a b h = ground arith

int_lt_trans : (a b c : ℕ) → int_lt b a ≡ false → int_lt c b ≡ false → int_lt c a ≡ false
unfolding int_lt
int_lt_trans a b c h k = ground arith

AllFrom-trans : (a b : ℕ) (es : LinkedList) → int_lt b a ≡ false → AllFrom b es → AllFrom a es
unfolding AllFrom
AllFrom-trans a b [] h k = tt
AllFrom-trans a b (e ∷ es) h (k, l) = (int_lt_trans a b e.key h k, AllFrom-trans a b es h l)

insert_behind-AllFrom :
    (k : ℕ) (x p : ListElement) (es : LinkedList)
    → int_lt x.key k ≡ false
    → AllFrom k (p ∷ es)
    → AllFrom k (insert_behind x es p)
unfolding AllFrom insert_behind
insert_behind-AllFrom k x p [] h (a, l) = (a, (h, tt))
insert_behind-AllFrom k x p (q ∷ es) h (a, l) = elim (Bool-cases (int_lt x.key q.key)) [
  | inl t ↦ (a, rw t (h, l))
  | inr t ↦ (a, rw t (insert_behind-AllFrom k x q es h l))
]

insert_behind-IsSorted :
    (x p : ListElement) (es : LinkedList)
    → int_lt x.key p.key ≡ false
    → IsSorted (p ∷ es)
    → IsSorted (insert_behind x es p)
unfolding AllFrom IsSorted insert_behind
insert_behind-IsSorted x p [] h s = ((h, tt), (tt, tt))
insert_behind-IsSorted x p (q ∷ es) h (a, s) = elim (Bool-cases (int_lt x.key q.key)) [
  | inl t ↦
      let above : int_lt q.key x.key ≡ false = int_lt_asym x.key q.key t in
      rw t ((h, a), ((above, AllFrom-trans x.key q.key es above s.0), s))
  | inr t ↦ rw t (insert_behind-AllFrom p.key x q es h a, insert_behind-IsSorted x q es t s)
]

insert_behind-count :
    (x p : ListElement) (es : LinkedList) (item key : ℕ)
    → count (insert_behind x es p) item key ≡ count (x ∷ p ∷ es) item key
unfolding count insert_behind
insert_behind-count x p [] item key = omega arith
insert_behind-count x p (q ∷ es) item key = elim (Bool-cases (int_lt x.key q.key)) [
  | inl t ↦ rw t (omega arith)
  | inr t ↦ rw t (omega (arith, insert_behind-count x q es item key))
]

-- SortedInsert keeps a list sorted, and adds the item with its key to the elements of the list.
pub sorted_insert_lem :
    (list : LinkedList) (item sort_key : ℕ)
    → IsSorted list
    → IsSorted (sorted_insert list item sort_key)
      × ((i k : ℕ)
          → count (sorted_insert list item sort_key) i k
            ≡ (if item == i && sort_key == k then 1 else 0) + count list i k)
unfolding AllFrom IsSorted sorted_insert count
sorted_insert_lem [] item sort_key s = ((tt, tt), (λ i k. refl))
sorted_insert_lem (p ∷ es) item sort_key (a, s) = elim (Bool-cases (int_lt sort_key p.key)) [
  | inl t ↦
      let above : int_lt p.key sort_key ≡ false = int_lt_asym sort_key p.key t in
      rw t (((above, AllFrom-trans sort_key p.key es above a), (a, s)), (λ i k. refl))
  | inr t ↦
      let x : ListElement = record { item = item; key = sort_key } in
      rw t (insert_behind-IsSorted x p es t (a, s), (λ i k. insert_behind-count x p es i k))
]

-- SortedRemove of a sorted list takes an element with the least key off, and leaves a sorted list
-- with the other elements.
pub sorted_remove_lem :
    (list rest : LinkedList) (e : ListElement)
    → IsSorted list
    → sorted_remove list ≡ some (e, rest)
    → IsSorted rest
      × AllFrom e.key rest
      × ((i k : ℕ) → count list i k ≡ (if e.item == i && e.key == k then 1 else 0) + count rest i k)
unfolding IsSorted sorted_remove count
sorted_remove_lem [] rest e s h = cc
sorted_remove_lem (x ∷ xs) rest e (a, s) h =
    let first : x ≡ e = cc in
    let others : xs ≡ rest = cc in rw (← first, ← others) (s, a, (λ i k. refl))
