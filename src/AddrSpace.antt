-- ===== src/AddrSpace.antt =====
-- dev4-memory-management/nachos.tp4/code/userprog/addrspace.cc and addrspace.h: demand paging with a
-- swap file. A page of memory is moved as a whole, so the memory of the machine is the list of bytes
-- of each frame, and the swap file that of each page. `none` is an access outside the page table or
-- to the front of an empty queue.
pub mod Victim
pub mod Consistent
pub mod SwapOut
pub mod Load
pub mod Create
mod Tests
use operating_systems_assign.Prelude.{
  ℕ, zero, suc, ◌+◌, ◌-◌, ◌*◌, ◌%◌, ◌^◌, Bool, true, false, not, ◌&&◌, ◌||◌, Option, none, some,
  List, [], ◌∷◌, ◌++◌, ltb, leb, ◌==◌, if◌then◌else◌, length, get_or, set, drop, replicate, ◌>>=◌,
  ◌>>◌, assert, minus_one, div_round_up,
}
use operating_systems_assign.BitMap.{BitMap}
use operating_systems_assign.BitMap
use operating_systems_assign.OpenFile.{copy_into}

abbrev pub page_size : ℕ
page_size = 128

abbrev pub user_stack_size : ℕ
user_stack_size = 1024

-- IN_SWAP_FILE is -2.
abbrev pub in_swap_file : ℕ
in_swap_file = 2 ^ 32 - 2

pub record TranslationEntry : Type 0 where
  pub virtual_page : ℕ
  pub physical_page : ℕ
  pub valid : Bool
  pub read_only : Bool
  pub use_bit : Bool
  pub dirty : Bool

pub record Segment : Type 0 where
  pub virtual_addr : ℕ
  pub in_file_addr : ℕ
  pub size : ℕ

pub record NoffHeader : Type 0 where
  pub code : Segment
  pub init_data : Segment
  pub uninit_data : Segment

-- The address space, and what it changes of the machine: the memory, the map of free frames and the
-- statistics.
pub record AddrSpace : Type 0 where
  pub page_table : List TranslationEntry
  pub noff : NoffHeader
  pub swap_file : ℕ → List ℕ
  pub loaded_pages : List ℕ
  pub main_memory : ℕ → List ℕ
  pub free_frame : BitMap
  pub swap_outs : ℕ
  pub swap_ins : ℕ

-- The number of pages that the constructor computes; the sum is one of unsigned ints.
pub num_pages : NoffHeader → ℕ
num_pages h =
    div_round_up ((h.code.size + h.init_data.size + h.uninit_data.size + user_stack_size) % 2 ^ 32)
      page_size

-- An entry of the constructor's page table.
pub unmapped : ℕ → TranslationEntry
unmapped i = record {
  virtual_page = i;
  physical_page = minus_one;
  valid = false;
  read_only = false;
  use_bit = false;
  dirty = false;
}

-- The loop of the constructor over n entries from i on.
pub unmapped_from : ℕ → ℕ → List TranslationEntry
unmapped_from i zero = []
unmapped_from i (suc n) = unmapped i ∷ unmapped_from (i + 1) n

-- The constructor, behind the check of the header; the swap file is new.
pub addr_space : NoffHeader → (ℕ → List ℕ) → (ℕ → List ℕ) → BitMap → AddrSpace
addr_space h swap memory frames = record {
  page_table = unmapped_from 0 (num_pages h);
  noff = h;
  swap_file = swap;
  loaded_pages = [];
  main_memory = memory;
  free_frame = frames;
  swap_outs = 0;
  swap_ins = 0;
}

-- The entry of a page. Wherever it is used the number has been found to be inside the table, by a
-- test whose failure is `none`.
unfoldable pub entry : List TranslationEntry → ℕ → TranslationEntry
entry table p = get_or table p (unmapped p)

-- The loop of the destructor.
pub free_frames_loop : List TranslationEntry → BitMap → Option BitMap
free_frames_loop [] frames = some frames
free_frames_loop (e ∷ es) frames =
    if not (e.physical_page == minus_one) && not (e.physical_page == in_swap_file)
    then (BitMap.clear frames e.physical_page >>= free_frames_loop es)
    else free_frames_loop es frames

pub free_frames : AddrSpace → Option BitMap
free_frames s = free_frames_loop s.page_table s.free_frame

-- The loop of SwapOut, n rounds from the end: the first valid page, and the queue with it at the
-- front.
pub victim_loop : ℕ → List ℕ → List TranslationEntry → Option (Option ℕ × List ℕ)
victim_loop zero queue table = some (none, queue)
victim_loop (suc n) [] table = none
victim_loop (suc n) (p ∷ queue) table =
    assert (ltb p (length table)) >> elim (entry table p).valid [
      | true ↦ some (some p, p ∷ queue)
      | false ↦ victim_loop n (queue ++ (p ∷ [])) table
    ]

-- The end of SwapOut, for the victim at the front of the queue.
pub swapped_out : AddrSpace → ℕ → List ℕ → AddrSpace
swapped_out s v queue =
    let e = entry s.page_table v in
    record s {
      page_table = set s.page_table v (record e { valid = false; physical_page = in_swap_file });
      loaded_pages = drop 1 queue;
      swap_file = λ q. if v == q then s.main_memory e.physical_page else s.swap_file q;
      swap_outs = s.swap_outs + 1;
    }

-- `none` in the pair is the result -1.
pub swap_out : AddrSpace → Option (Option ℕ × AddrSpace)
swap_out s =
    if length s.loaded_pages == 0
    then some (none, s)
    else (victim_loop (length s.loaded_pages) s.loaded_pages s.page_table >>= λ r. elim r.0 [
      | none ↦ some (none, record s { loaded_pages = r.1 })
      | some v ↦ some (some (entry s.page_table v).physical_page, swapped_out s v r.1)
    ])

pub swap_in : AddrSpace → ℕ → ℕ → AddrSpace
swap_in s page frame = record s {
  main_memory = λ f. if frame == f then s.swap_file page else s.main_memory f;
  page_table =
      set s.page_table page
        (record (entry s.page_table page) { physical_page = frame; valid = true });
  swap_file = λ q. if page == q then replicate page_size 0 else s.swap_file q;
  swap_ins = s.swap_ins + 1;
}

-- `read_at n position` is what ReadAt of the executable reads: the file of another file system.
module _ (read_at : ℕ → ℕ → List ℕ) where
  -- The bytes of the frame after a page of the program has been loaded into it.
  pub program_page : AddrSpace → ℕ → ℕ → List ℕ
  program_page s page frame =
      if leb (s.noff.code.size + s.noff.init_data.size) (page * page_size)
      then replicate page_size 0
      else copy_into (s.main_memory frame) 0
          (read_at page_size (s.noff.code.in_file_addr + page * page_size))

  pub load_page : AddrSpace → ℕ → ℕ → AddrSpace
  load_page s page frame = record s {
    main_memory = λ f. if frame == f then program_page s page frame else s.main_memory f;
    page_table = set s.page_table page (record (entry s.page_table page) {
      virtual_page = page;
      physical_page = frame;
      valid = true;
    });
  }

  -- The page goes into a frame that has been found.
  pub place : AddrSpace → ℕ → ℕ → AddrSpace
  place s page frame =
      if (entry s.page_table page).physical_page == in_swap_file
      then swap_in s page frame
      else load_page s page frame

  -- LoadFromExecutable for a page that is not in memory.
  pub load_missing : AddrSpace → ℕ → Option (Bool × AddrSpace)
  load_missing s page = BitMap.find s.free_frame >>= λ found.
      let s₁ = record s { free_frame = found.1 } in
      elim found.0 [
        | some frame ↦ some (true, place s₁ page frame)
        | none ↦ swap_out s₁ >>= λ r. elim r.0 [
          | none ↦ some (false, r.1)
          | some frame ↦ some (true, place r.1 page frame)
        ]
      ]

  pub load_from_executable : AddrSpace → ℕ → Option (Bool × AddrSpace)
  load_from_executable s page =
      let s₁ = record s { loaded_pages = s.loaded_pages ++ (page ∷ []) } in
      assert (ltb page (length s.page_table))
      >> (if (entry s.page_table page).valid then some (true, s₁) else load_missing s₁ page)
