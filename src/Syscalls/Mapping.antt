-- ===== src/Syscalls/Mapping.antt =====
-- What a program's memory holds for the kernel of
-- dev3-process-management/nachos.tp3/code/userprog/exception.cc, and that reading it changes nothing.
use operating_systems_assign.Prelude.{
  ℕ, ◌+◌, ◌-◌, ◌*◌, ◌/◌, ◌%◌, ◌^◌, ◌<◌, ◌≡◌, ◌≢◌, refl, sym, ap, ap₂, subst, ◌∙◌, inl, inr, Bool,
  false, ◌&&◌, none, some, List, ◌==◌, ==_iff, if◌then◌else◌, ltb, Bool-cases, length, get_or, set,
  length-set, get_or-set_self, get_or-set_ne, arith,
}
use mathlib.Core.Bool.{true≢false}
use operating_systems_assign.AddrSpace.{TranslationEntry, entry, unmapped, page_size}
use operating_systems_assign.Machine.{
  touched, byte_at, read_value, finish_read, read_mem, raise_exception, write_register,
  delayed_load, bad_vaddr_reg,
}
use operating_systems_assign.Machine.Translation.{
  IsAllowed, physical_address, marked, translate-IsAllowed, translate_lem,
}
use operating_systems_assign.Syscalls.{Kernel, fetched, fetch_byte}

-- A page table that maps the same pages in the same way.
abbrev pub SameMapping : List TranslationEntry → List TranslationEntry → Type 0
SameMapping table table' =
    (length table' ≡ length table)
    × ((p : ℕ)
        → ((entry table' p).valid ≡ (entry table p).valid)
          × ((entry table' p).read_only ≡ (entry table p).read_only)
          × ((entry table' p).physical_page ≡ (entry table p).physical_page))

pub SameMapping-refl : (table : List TranslationEntry) → SameMapping table table
SameMapping-refl table = (refl, λ p. (refl, refl, refl))

pub SameMapping-sym : (a b : List TranslationEntry) → SameMapping a b → SameMapping b a
SameMapping-sym a b (l, f) = (sym l, λ p. (sym (f p).0, sym (f p).1, sym (f p).2))

pub SameMapping-trans :
    (a b c : List TranslationEntry) → SameMapping a b → SameMapping b c → SameMapping a c
SameMapping-trans a b c (l, f) (m, g) =
    (m ∙ l, λ p. ((g p).0 ∙ (f p).0, (g p).1 ∙ (f p).1, (g p).2 ∙ (f p).2))

-- What translation reads of an entry.
abbrev SameEntry : List TranslationEntry → List TranslationEntry → ℕ → Type 0
SameEntry table table' p =
    ((entry table' p).valid ≡ (entry table p).valid)
    × ((entry table' p).read_only ≡ (entry table p).read_only)
    × ((entry table' p).physical_page ≡ (entry table p).physical_page)

-- Setting the bits of an entry.
pub touched-SameMapping :
    (table : List TranslationEntry) (i : ℕ) (writing : Bool)
    → i < length table
    → SameMapping table (set table i (touched writing (entry table i)))
unfolding entry touched
touched-SameMapping table i w h = (
  length-set table i (touched w (entry table i)),
  λ p. elim (Bool-cases (i == p)) [
    | inl e ↦
        let self = get_or-set_self table i (touched w (entry table i)) (unmapped i) h in
        subst (SameEntry table (set table i (touched w (entry table i)))) ((==_iff i p).0 e)
          (ap (λ x. x.valid) self, ap (λ x. x.read_only) self, ap (λ x. x.physical_page) self)
    | inr e ↦
        let apart : i ≢ p = λ q. true≢false (sym ((==_iff i p).1 q) ∙ e) in
        let kept = get_or-set_ne table i p (touched w (entry table i)) (unmapped p) apart in
        (ap (λ x. x.valid) kept, ap (λ x. x.read_only) kept, ap (λ x. x.physical_page) kept)
  ],
)

pub IsAllowed-SameMapping :
    (table table' : List TranslationEntry) (a size : ℕ) (w : Bool)
    → SameMapping table table'
    → IsAllowed table a size w
    → IsAllowed table' a size w × (physical_address table' a ≡ physical_address table a)
IsAllowed-SameMapping table table' a size w (l, f) (al, i, va, ro, fr) =
    let g = f (a / page_size) in
    (
      (al, omega (arith, l, i), g.0 ∙ va, ap (λ b. b && w) g.1 ∙ ro, omega (arith, g.2, fr)),
      ap (λ x. x * page_size + a % page_size) g.2,
    )

-- The address of byte j of a buffer of the program.
abbrev pub user_address : ℕ → ℕ → ℕ
user_address source j = (source + j) % 2 ^ 32

abbrev pub Maps : Kernel → List TranslationEntry → Type 0
Maps k table = (k.machine.tlb ≡ none) × (k.machine.page_table ≡ some table)

-- Byte j behind `source` can be read, and is b.
abbrev pub Holds : Kernel → List TranslationEntry → ℕ → ℕ → ℕ → Type 0
Holds k table source j b =
    IsAllowed table (user_address source j) 1 false
    × (get_or k.machine.main_memory (physical_address table (user_address source j)) 0 ≡ b)
    × (b < 256)

-- The kernel has only read: the memory is the same and mapped as before, and so are the globals.
abbrev pub OnlyRead : List TranslationEntry → Kernel → Kernel → Type 0
OnlyRead table k k' =
    (table' : List TranslationEntry) × Maps k' table'
    × SameMapping table table'
    × (k'.machine.main_memory ≡ k.machine.main_memory)
    × (k'.ended ≡ k.ended)
    × (k'.exit_code ≡ k.exit_code)
    × (k'.log ≡ k.log)

pub OnlyRead-trans :
    (table table' : List TranslationEntry) (k k' k'' : Kernel)
    → SameMapping table table'
    → k'.machine.main_memory ≡ k.machine.main_memory
    → k'.ended ≡ k.ended
    → k'.exit_code ≡ k.exit_code
    → k'.log ≡ k.log
    → OnlyRead table' k' k''
    → OnlyRead table k k''
OnlyRead-trans table table' k k' k'' s m e x l (table'', maps, s', m', e', x', l') =
    (table'', maps, SameMapping-trans table table' table'' s s', m' ∙ m, e' ∙ e, x' ∙ x, l' ∙ l)

pub Holds-SameMapping :
    (k k' : Kernel) (table table' : List TranslationEntry) (source j b : ℕ)
    → SameMapping table table'
    → k'.machine.main_memory ≡ k.machine.main_memory
    → Holds k table source j b
    → Holds k' table' source j b
Holds-SameMapping k k' table table' source j b s m (allowed, value, small) =
    let (allowed', same) =
      IsAllowed-SameMapping table table' (user_address source j) 1 false s allowed in
    (allowed', ap₂ (λ q p. get_or q p 0) m same ∙ value, small)

read_char :
    (memory : List ℕ) (p b : ℕ)
    → get_or memory p 0 ≡ b
    → b < 256
    → (v : ℕ) × (read_value memory p 1 ≡ some v) × (v % 256 ≡ b)
unfolding read_value byte_at
read_char memory p b e h = (
  if ltb (get_or memory p 0) 128 then get_or memory p 0 else get_or memory p 0 + (2 ^ 32 - 256),
  refl,
  ground (arith, e, h),
)

-- A byte of the program that can be read.
pub fetch_byte_lem :
    (k : Kernel) (table : List TranslationEntry) (source j b : ℕ)
    → Maps k table
    → Holds k table source j b
    → (k' : Kernel) × (fetch_byte (user_address source j) k ≡ some (some b, k'))
      × OnlyRead table k k'
unfolding fetch_byte fetched read_mem finish_read
fetch_byte_lem k table source j b (t, p) (allowed, value, small) =
    let a = user_address source j in
    let (found, fits) = translate-IsAllowed k.machine table a 1 false (inl refl) t p allowed in
    let (v, read, low) = read_char k.machine.main_memory (physical_address table a) b value small in
    let m' = marked k.machine table a false in
    (
      record k { machine = m' },
      rw (found, read, low) refl,
      (
        _,
        (t, refl),
        touched-SameMapping table (a / page_size) false allowed.1,
        refl,
        refl,
        refl,
        refl,
      ),
    )

-- A byte of the program that cannot be read.
pub fetch_byte_fails :
    (k : Kernel) (table : List TranslationEntry) (source j : ℕ)
    → Maps k table
    → ¬ IsAllowed table (user_address source j) 1 false
    → (k' : Kernel) × (fetch_byte (user_address source j) k ≡ some (none, k')) × (k'.log ≡ k.log)
unfolding fetch_byte fetched read_mem finish_read raise_exception
fetch_byte_fails k table source j (t, p) refused =
    let a = user_address source j in
    elim (translate_lem k.machine table a 1 false (inl refl) t p) [
      | inl ok ↦ absurd (refused ok.0)
      | inr (x, found, cause) ↦ (
        record k { machine = delayed_load 0 0 (write_register k.machine bad_vaddr_reg a) },
        rw found refl,
        refl,
      )
    ]
