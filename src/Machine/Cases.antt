-- ===== src/Machine/Cases.antt =====
-- Register 0 of the simulated machine in the cases of OneInstruction of
-- dev4-memory-management/nachos.tp4/code/machine/mipssim.cc that return early.
use operating_systems_assign.Prelude.{
  ℕ, suc, ◌-◌, ◌^◌, ◌≡◌, refl, ◌⊎◌, inl, inr, Bool, true, false, Option, none, some, List, [], ◌∷◌,
  bit_and, ◌==◌, ◌&&◌, if◌then◌else◌, get_or, set, ◌>>=◌, ◌>>◌, assert,
}
use operating_systems_assign.Machine.{
  Machine, ExceptionType, register, write_register, delayed_load, bad_vaddr_reg, translate,
  finish_read, finish_write, read_value, write_value, raise_exception, read_mem, write_mem,
  address_error,
}
use operating_systems_assign.Machine.Operations.{
  Outcome, set_register, go_to, trap, set_hi_lo, divide, divide_unsigned, finish_load, load,
  aligned_load, finish_store, store_value, store_read, store_part,
}

abbrev pub Handler : Type 0
Handler = ExceptionType → Machine → Option Machine

-- What a machine that may be there holds in register 0.
abbrev pub ZeroIn : Option Machine → Type 0
ZeroIn none = Unit
ZeroIn (some m) = register m 0 ≡ 0

-- The exception handler keeps register 0 at 0.
abbrev pub KeepsZero : Handler → Type 0
KeepsZero kernel =
    (which : ExceptionType) (m m' : Machine)
    → register m 0 ≡ 0
    → kernel which m ≡ some m'
    → register m' 0 ≡ 0

-- The same of a machine that the switch returns with.
abbrev pub Leaves : Outcome → Type 0
Leaves none = Unit
Leaves (some (inl m)) = register m 0 ≡ 0
Leaves (some (inr x)) = Unit

-- The same of a failed ReadMem and a failed WriteMem.
abbrev pub Failed : Option (Option ℕ × Machine) → Type 0
Failed none = Unit
Failed (some (none, m)) = register m 0 ≡ 0
Failed (some (some v, m)) = Unit

abbrev pub Unwritten : Option (Bool × Machine) → Type 0
Unwritten none = Unit
Unwritten (some (false, m)) = register m 0 ≡ 0
Unwritten (some (true, m)) = Unit

set_zero : (l : List ℕ) → get_or (set l 0 0) 0 0 ≡ 0
set_zero [] = refl
set_zero (x ∷ l) = refl

pub set_other : (l : List ℕ) (k v : ℕ) → get_or (set l (suc k) v) 0 0 ≡ get_or l 0 0
set_other [] k v = refl
set_other (x ∷ l) k v = refl

pub delayed_load_zero : (r v : ℕ) (m : Machine) → register (delayed_load r v m) 0 ≡ 0
unfolding delayed_load register write_register
delayed_load_zero r v m = set_zero _

module _ (kernel : Handler) (keeps : KeepsZero kernel) where
  raised :
      (which : ExceptionType) (a : ℕ) (m m' : Machine)
      → raise_exception kernel which a m ≡ some m'
      → register m' 0 ≡ 0
  unfolding raise_exception
  raised which a m m' =
      keeps which (delayed_load 0 0 (write_register m bad_vaddr_reg a)) m'
        (delayed_load_zero 0 0 (write_register m bad_vaddr_reg a))

  trapped :
      (o : Option Machine)
      → ((m' : Machine) → o ≡ some m' → register m' 0 ≡ 0)
      → Leaves (o >>= λ m'. some (inl m'))
  trapped none h = tt
  trapped (some m') h = h m' refl

  pub trap_lem : (which : ExceptionType) (a : ℕ) (m : Machine) → Leaves (trap kernel which a m)
  unfolding trap
  trap_lem which a m = trapped (raise_exception kernel which a m) (raised which a m)

  raised_read :
      (o : Option Machine)
      → ((m' : Machine) → o ≡ some m' → register m' 0 ≡ 0)
      → Failed (o >>= λ m'. some (none, m'))
  raised_read none h = tt
  raised_read (some m') h = h m' refl

  value_read : (o : Option ℕ) (m : Machine) → Failed (o >>= λ v. some (some v, m))
  value_read none m = tt
  value_read (some v) m = tt

  read_translated :
      (address size : ℕ) (m : Machine) (o : Option (ExceptionType ⊎ (ℕ × Machine)))
      → Failed (o >>= finish_read kernel address size m)
  unfolding finish_read
  read_translated address size m none = tt
  read_translated address size m (some (inl which)) =
      raised_read (raise_exception kernel which address m) (raised which address m)
  read_translated address size m (some (inr (p, m'))) =
      value_read (read_value m'.main_memory p size) m'

  pub read_mem_lem : (address size : ℕ) (m : Machine) → Failed (read_mem kernel address size m)
  unfolding read_mem
  read_mem_lem address size m = read_translated address size m (translate m address size false)

  raised_write :
      (o : Option Machine)
      → ((m' : Machine) → o ≡ some m' → register m' 0 ≡ 0)
      → Unwritten (o >>= λ m'. some (false, m'))
  raised_write none h = tt
  raised_write (some m') h = h m' refl

  value_written :
      (o : Option (List ℕ)) (m : Machine)
      → Unwritten (o >>= λ memory. some (true, record m { main_memory = memory }))
  value_written none m = tt
  value_written (some v) m = tt

  write_translated :
      (address size v : ℕ) (m : Machine) (o : Option (ExceptionType ⊎ (ℕ × Machine)))
      → Unwritten (o >>= finish_write kernel address size v m)
  unfolding finish_write
  write_translated address size v m none = tt
  write_translated address size v m (some (inl which)) =
      raised_write (raise_exception kernel which address m) (raised which address m)
  write_translated address size v m (some (inr (p, m'))) =
      value_written (write_value m'.main_memory p size v) m'

  write_mem_lem : (address size v : ℕ) (m : Machine) → Unwritten (write_mem kernel address size v m)
  unfolding write_mem
  write_mem_lem address size v m = write_translated address size v m (translate m address size true)

  pub if-Leaves : (b : Bool) (x y : Outcome) → Leaves x → Leaves y → Leaves (if b then x else y)
  if-Leaves true x y p q = p
  if-Leaves false x y p q = q

  pub assert-Leaves : (b : Bool) (x : Outcome) → Leaves x → Leaves (assert b >> x)
  assert-Leaves true x p = p
  assert-Leaves false x p = tt

  loaded :
      (rt : ℕ) (convert : ℕ → Machine → ℕ) (pc : ℕ) (o : Option (Option ℕ × Machine))
      → Failed o
      → Leaves (o >>= finish_load rt convert pc)
  unfolding finish_load
  loaded rt convert pc none h = tt
  loaded rt convert pc (some (none, m)) h = h
  loaded rt convert pc (some (some v, m)) h = tt

  pub load-Leaves :
      (address size rt : ℕ) (convert : ℕ → Machine → ℕ) (pc : ℕ) (m : Machine)
      → Leaves (load kernel address size rt convert pc m)
  unfolding load
  load-Leaves address size rt convert pc m =
      loaded rt convert pc (read_mem kernel address size m) (read_mem_lem address size m)

  pub aligned_load-Leaves :
      (address size rt : ℕ) (convert : ℕ → Machine → ℕ) (pc : ℕ) (m : Machine)
      → Leaves (aligned_load kernel address size rt convert pc m)
  unfolding aligned_load
  aligned_load-Leaves address size rt convert pc m =
      if-Leaves (bit_and address (size - 1) == 0) _ _ (load-Leaves address size rt convert pc m)
        (trap_lem address_error address m)

  stored : (pc : ℕ) (o : Option (Bool × Machine)) → Unwritten o → Leaves (o >>= finish_store pc)
  unfolding finish_store go_to
  stored pc none h = tt
  stored pc (some (false, m)) h = h
  stored pc (some (true, m)) h = tt

  pub store_value-Leaves :
      (address size v pc : ℕ) (m : Machine) → Leaves (store_value kernel address size v pc m)
  unfolding store_value
  store_value-Leaves address size v pc m =
      stored pc (write_mem kernel address size v m) (write_mem_lem address size v m)

  part_read :
      (address : ℕ) (convert : ℕ → Machine → ℕ) (pc : ℕ) (o : Option (Option ℕ × Machine))
      → Failed o
      → Leaves (o >>= store_read kernel address convert pc)
  unfolding store_read
  part_read address convert pc none h = tt
  part_read address convert pc (some (none, m)) h = h
  part_read address convert pc (some (some v, m)) h =
      store_value-Leaves address 4 (convert v m) pc m

  pub store_part-Leaves :
      (address : ℕ) (convert : ℕ → Machine → ℕ) (pc : ℕ) (m : Machine)
      → Leaves (store_part kernel address convert pc m)
  unfolding store_part
  store_part-Leaves address convert pc m =
      assert-Leaves (bit_and address 3 == 0) _
        (part_read address convert pc (read_mem kernel address 4 m) (read_mem_lem address 4 m))

  pub divide-Leaves : (a b pc : ℕ) (m : Machine) → Leaves (divide a b pc m)
  unfolding divide set_hi_lo set_register
  divide-Leaves a b pc m =
      if-Leaves (b == 0) _ _ tt (if-Leaves ((a == 2 ^ 31) && (b == 2 ^ 32 - 1)) _ _ tt tt)

  pub divide_unsigned-Leaves : (a b pc : ℕ) (m : Machine) → Leaves (divide_unsigned a b pc m)
  unfolding divide_unsigned set_hi_lo set_register
  divide_unsigned-Leaves a b pc m = if-Leaves (b == 0) _ _ tt tt
