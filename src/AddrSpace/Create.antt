-- ===== src/AddrSpace/Create.antt =====
-- A new address space.
use operating_systems_assign.Prelude.{
  ℕ, zero, suc, ◌+◌, ◌-◌, ◌^◌, ◌≡◌, refl, ap, false, none, List, get_or, arith, length,
}
use operating_systems_assign.BitMap.{BitMap}
use operating_systems_assign.BitMap.View.{IsValid}
use operating_systems_assign.AddrSpace.{
  NoffHeader, num_pages, unmapped, unmapped_from, addr_space, entry,
}
use operating_systems_assign.AddrSpace.Victim.{queued}
use operating_systems_assign.AddrSpace.Consistent.{IsConsistent, contents}

unmapped_from_entry :
    (i n k d : ℕ)
    → ((get_or (unmapped_from i n) k (unmapped d)).valid ≡ false)
      × ((get_or (unmapped_from i n) k (unmapped d)).physical_page ≡ 2 ^ 32 - 1)
unfolding unmapped_from unmapped
unmapped_from_entry i zero k d = (refl, refl)
unmapped_from_entry i (suc n) zero d = (refl, refl)
unmapped_from_entry i (suc n) (suc k) d = unmapped_from_entry (i + 1) n k d

pub length-unmapped_from : (i n : ℕ) → length (unmapped_from i n) ≡ n
unfolding unmapped_from
length-unmapped_from i zero = refl
length-unmapped_from i (suc n) = ap suc (length-unmapped_from (i + 1) n)

-- A new address space has the pages that its header asks for, satisfies the invariant for any valid
-- map of frames, and no page of it has been loaded.
pub addr_space_lem :
    (h : NoffHeader) (swap memory : ℕ → List ℕ) (frames : BitMap)
    → IsValid frames
    → (length (addr_space h swap memory frames).page_table ≡ num_pages h)
      × IsConsistent (addr_space h swap memory frames)
      × ((p : ℕ) → contents (addr_space h swap memory frames) p ≡ none)
unfolding addr_space entry contents queued
addr_space_lem h swap memory frames v = (
  length-unmapped_from 0 (num_pages h),
  record {
    frames = v;
    within = λ p e. absurd (ground (arith, fresh p));
    marked = λ p e. absurd (ground (arith, fresh p));
    apart = λ p q n e f. absurd (ground (arith, fresh p));
    is_queued = λ p e. absurd (ground (arith, fresh p));
    in_table = λ p e. cc;
  },
  (λ p. ground (arith, fresh p)),
)
  where
    fresh :
        (p : ℕ)
        → ((get_or (unmapped_from 0 (num_pages h)) p (unmapped p)).valid ≡ false)
          × ((get_or (unmapped_from 0 (num_pages h)) p (unmapped p)).physical_page ≡ 2 ^ 32 - 1)
    fresh p = unmapped_from_entry 0 (num_pages h) p p
