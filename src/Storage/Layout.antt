-- ===== src/Storage/Layout.antt =====
-- What is written back is what is fetched: the layouts decode what they encode.
use operating_systems_assign.Prelude.{
  ℕ, zero, suc, ◌+◌, ◌-◌, ◌^◌, ◌<◌, ◌≡◌, refl, ap, ap₂, sym, ◌∙◌, Bool, true, false, not, List, [],
  ◌∷◌, ◌++◌, ◌==◌, if◌then◌else◌, length, length-append, get_or, take, drop, arith,
}
use mathlib.Core.List.{append_assoc, append-nil}
use operating_systems_assign.FileHeader.{FileHeader, num_direct}
use operating_systems_assign.Directory.{DirectoryEntry}
use operating_systems_assign.OpenFile.Bytes.{get_or-append}
use operating_systems_assign.Storage.{
  int_bytes, int_at, ints_bytes, ints_at, header_bytes, header_at, entry_bytes, entries_bytes,
  entry_at, entries_at, name_size, entry_size, bool_byte,
}

-- A 32-bit int.
abbrev pub IsInt : ℕ → Type 0
IsInt w = w < 2 ^ 32

abbrev pub AreInts : List ℕ → Type 0
AreInts [] = Unit {0}
AreInts (w ∷ ws) = IsInt w × AreInts ws

get_or-after :
    (xs ys : List ℕ) (p i : ℕ) → p ≡ length xs + i → get_or (xs ++ ys) p 0 ≡ get_or ys i 0
get_or-after xs ys p i e = get_or-append xs ys p ∙ ground (arith, ap (λ k. get_or ys k 0) (shift e))
  where
    shift : p ≡ length xs + i → p - length xs ≡ i
    shift e = omega arith

-- What stands before and behind an int does not matter to reading it.
int_at-int_bytes :
    (xs rest : List ℕ) (w p : ℕ)
    → p ≡ length xs
    → IsInt w
    → int_at (xs ++ (int_bytes w ++ rest)) p ≡ w
unfolding int_at int_bytes
int_at-int_bytes xs rest w p e h = omega (
  arith,
  get_or-after xs (int_bytes w ++ rest) p 0 (omega arith),
  get_or-after xs (int_bytes w ++ rest) (p + 1) 1 (omega arith),
  get_or-after xs (int_bytes w ++ rest) (p + 2) 2 (omega arith),
  get_or-after xs (int_bytes w ++ rest) (p + 3) 3 (omega arith),
)

pub length-int_bytes : (w : ℕ) → length (int_bytes w) ≡ 4
unfolding int_bytes
length-int_bytes w = refl

pub ints_at-ints_bytes :
    (xs rest ws : List ℕ) (p : ℕ)
    → p ≡ length xs
    → AreInts ws
    → ints_at (xs ++ (ints_bytes ws ++ rest)) p (length ws) ≡ ws
unfolding ints_at ints_bytes
ints_at-ints_bytes xs rest [] p e h = refl
ints_at-ints_bytes xs rest (w ∷ ws) p e h =
    ap₂ ◌∷◌ (ap (λ b. int_at b p) split ∙ int_at-int_bytes xs (ints_bytes ws ++ rest) w p e h.0) (
      ap (λ b. ints_at b (p + 4) (length ws))
        (split ∙ sym (append_assoc xs (int_bytes w) (ints_bytes ws ++ rest)))
      ∙ ints_at-ints_bytes (xs ++ int_bytes w) rest ws (p + 4)
          (omega (arith, length-append xs (int_bytes w), length-int_bytes w)) h.1)
  where
    split : xs ++ (ints_bytes (w ∷ ws) ++ rest) ≡ xs ++ (int_bytes w ++ (ints_bytes ws ++ rest))
    split = ap (λ b. xs ++ b) (append_assoc (int_bytes w) (ints_bytes ws) rest)

-- A header with a full table of 32-bit fields is fetched as it was written back.
pub header_at-header_bytes :
    (h : FileHeader)
    → length h.data_sectors ≡ num_direct
    → AreInts (h.num_bytes ∷ h.num_sectors ∷ h.data_sectors)
    → header_at (header_bytes h) ≡ h
unfolding header_at header_bytes ints_bytes
header_at-header_bytes h l i = λ t. record {
  num_bytes =
      int_at-int_bytes [] (int_bytes h.num_sectors ++ ints_bytes h.data_sectors) h.num_bytes 0 refl
        i.0 t;
  num_sectors =
      int_at-int_bytes (int_bytes h.num_bytes) (ints_bytes h.data_sectors) h.num_sectors 4 refl
        i.1.0 t;
  data_sectors = sectors t;
}
  where
    two : List ℕ
    two = int_bytes h.num_bytes ++ int_bytes h.num_sectors

    sectors : ints_at (header_bytes h) 8 num_direct ≡ h.data_sectors
    sectors =
        ap₂ (λ b n. ints_at b 8 n)
          (ap (λ b. two ++ b) (sym (append-nil (ints_bytes h.data_sectors)))) (sym l)
        ∙ ints_at-ints_bytes two [] h.data_sectors 8 refl i.1.1

-- The fields of an entry fit the memory that the entry has.
pub record IsStored (e : DirectoryEntry) : Type 0 where
  pub sector_int : IsInt e.sector
  pub name_full : length e.name ≡ name_size

abbrev pub AreStored : List DirectoryEntry → Type 0
AreStored [] = Unit {0}
AreStored (e ∷ es) = IsStored e × AreStored es

pub drop-append : (xs ys : List ℕ) (k : ℕ) → drop (length xs + k) (xs ++ ys) ≡ drop k ys
drop-append [] ys k = ap (λ n. drop n ys) (omega arith)
drop-append (x ∷ xs) ys k =
    let shift : suc (length xs) + k ≡ suc (length xs + k) = omega arith in
    ap (λ n. drop n (x ∷ (xs ++ ys))) shift ∙ drop-append xs ys k

pub take-append : (n : ℕ) (xs ys : List ℕ) → length xs ≡ n → take n (xs ++ ys) ≡ xs
take-append zero [] ys e = refl
take-append zero (x ∷ xs) ys e = absurd (omega arith)
take-append (suc n) [] ys e = absurd (omega arith)
take-append (suc n) (x ∷ xs) ys e = ap (λ r. x ∷ r) (take-append n xs ys (omega arith))

bool_byte_lem : (b : Bool) → not ((if b then 1 else 0) == 0) ≡ b
bool_byte_lem true = refl
bool_byte_lem false = refl

length-entry_bytes : (e : DirectoryEntry) → IsStored e → length (entry_bytes e) ≡ entry_size
unfolding entry_bytes
length-entry_bytes e s = omega (
  arith,
  length-append (int_bytes e.sector) (e.name ++ ((if e.is_directory then 1 else 0) ∷ 0 ∷ [])),
  length-append e.name ((if e.is_directory then 1 else 0) ∷ 0 ∷ []),
  length-int_bytes e.sector,
  s.name_full,
)

entry_at-entry_bytes :
    (xs rest : List ℕ) (e : DirectoryEntry) (p : ℕ)
    → p ≡ length xs
    → IsStored e
    → entry_at (xs ++ (entry_bytes e ++ rest)) p ≡ e
unfolding entry_at entry_bytes
entry_at-entry_bytes xs rest e p q s = λ t. record {
  in_use =
      (ap (λ b. not (get_or b p 0 == 0)) split
          ∙ ap (λ n. not (n == 0)) (get_or-after xs _ p 0 (omega arith))
          ∙ bool_byte_lem e.in_use)
        t;
  sector =
      (ap (λ b. int_at b (p + 4)) (split ∙ sym (append_assoc xs four _))
          ∙ int_at-int_bytes (xs ++ four) _ e.sector (p + 4) (omega (arith, length-append xs four))
              s.sector_int)
        t;
  name =
      (ap₂ (λ b n. take 10 (drop n b)) (split ∙ sym (to_name _)) eight_more
          ∙ ap (take 10) (drop-append (xs ++ four ++ int_bytes e.sector) _ 0)
          ∙ take-append 10 e.name (bool_byte e.is_directory ∷ 0 ∷ rest) s.name_full)
        t;
  is_directory =
      (ap (λ b. not (get_or b (p + 18) 0 == 0))
            (split ∙ sym (to_name _) ∙ sym (append_assoc _ e.name _))
          ∙ ap (λ n. not (n == 0))
              (get_or-after (xs ++ four ++ int_bytes e.sector ++ e.name) _ (p + 18) 0 (
                omega (
                  arith,
                  eight,
                  length-append (xs ++ four ++ int_bytes e.sector) e.name,
                  s.name_full,
                )))
          ∙ bool_byte_lem e.is_directory)
        t;
}
  where
    four : List ℕ
    four = bool_byte e.in_use ∷ 0 ∷ 0 ∷ 0 ∷ []

    flag : List ℕ
    flag = bool_byte e.is_directory ∷ 0 ∷ []

    split :
        xs ++ (entry_bytes e ++ rest)
        ≡ xs ++ (four ++ (int_bytes e.sector ++ (e.name ++ (bool_byte e.is_directory ∷ 0 ∷ rest))))
    split =
        ap (λ b. xs ++ (four ++ b))
          (append_assoc (int_bytes e.sector) (e.name ++ flag) rest
            ∙ ap (λ b. int_bytes e.sector ++ b) (append_assoc e.name flag rest))

    eight : length (xs ++ four ++ int_bytes e.sector) ≡ p + 8
    eight = omega (
      arith,
      length-append (xs ++ four) (int_bytes e.sector),
      length-append xs four,
      length-int_bytes e.sector,
    )

    eight_more : p + 8 ≡ length (xs ++ four ++ int_bytes e.sector) + 0
    eight_more = omega (arith, eight)

    to_name :
        (ys : List ℕ)
        → xs ++ four ++ int_bytes e.sector ++ ys ≡ xs ++ (four ++ (int_bytes e.sector ++ ys))
    to_name ys =
        append_assoc (xs ++ four) (int_bytes e.sector) ys
        ∙ append_assoc xs four (int_bytes e.sector ++ ys)

-- A table of entries is fetched as it was written back.
pub entries_at-entries_bytes :
    (xs rest : List ℕ) (es : List DirectoryEntry) (p : ℕ)
    → p ≡ length xs
    → AreStored es
    → entries_at (xs ++ (entries_bytes es ++ rest)) p (length es) ≡ es
unfolding entries_at entries_bytes
entries_at-entries_bytes xs rest [] p q s = refl
entries_at-entries_bytes xs rest (e ∷ es) p q s =
    ap₂ ◌∷◌
      (ap (λ b. entry_at b p) split ∙ entry_at-entry_bytes xs (entries_bytes es ++ rest) e p q s.0)
      (ap (λ b. entries_at b (p + entry_size) (length es))
          (split ∙ sym (append_assoc xs (entry_bytes e) (entries_bytes es ++ rest)))
        ∙ entries_at-entries_bytes (xs ++ entry_bytes e) rest es (p + entry_size)
            (omega (arith, length-append xs (entry_bytes e), length-entry_bytes e s.0)) s.1)
  where
    split :
        xs ++ (entries_bytes (e ∷ es) ++ rest) ≡ xs ++ (entry_bytes e ++ (entries_bytes es ++ rest))
    split = ap (λ b. xs ++ b) (append_assoc (entry_bytes e) (entries_bytes es) rest)
