-- ===== src/Syscalls.antt =====
-- dev3-process-management/nachos.tp3/code/userprog/exception.cc: what the kernel does for a user
-- program, on the registers and the memory of the machine (the files machine/translate.cc and
-- machine/mipssim.cc of this copy are those that the module Machine models). An exception of an access
-- by the kernel comes back to ExceptionHandler, which ends the process with the code -1 as the test
-- of the result does. The outer `none` is a failed ASSERT or an access behind a buffer.
pub mod Mapping
pub mod Strings
pub mod Unterminated
pub mod Storing
mod Tests
use operating_systems_assign.Prelude.{
  ℕ, zero, suc, ◌+◌, ◌-◌, ◌*◌, ◌%◌, ◌^◌, Bool, true, false, not, ◌||◌, Option, none, some, List, [],
  ◌∷◌, ◌++◌, ltb, ◌==◌, if◌then◌else◌, length, get_or, set, take, ◌>>=◌, ◌>>◌, assert, minus_one,
  is_nonneg,
}
use operating_systems_assign.Machine.Operations.{pc_reg, next_pc_reg, prev_pc_reg}
use operating_systems_assign.Machine.{
  Machine, ExceptionType, register, write_register, read_mem, write_mem,
}

abbrev pub max_filename_length : ℕ
max_filename_length = 100

-- The machine, the globals ENDED and EXIT_CODE, and what SysCallLogWrite has printed.
pub record Kernel : Type 0 where
  pub machine : Machine
  pub ended : Bool
  pub exit_code : ℕ
  pub log : List ℕ

-- A call that returns to its caller, or that ends the process in Finish.
pub data Outcome (A : Type 0) : Type 0 where
  returned : A → Kernel → Outcome A
  exited : Kernel → Outcome A

-- incrementPC.
unfoldable pub increment_pc : Machine → Machine
increment_pc m =
    let past = write_register m prev_pc_reg (register m pc_reg) in
    let pc = register past next_pc_reg in
    write_register (write_register past pc_reg pc) next_pc_reg ((pc + 4) % 2 ^ 32)

-- SysCallExit up to Finish.
unfoldable pub exit_process : ℕ → Kernel → Kernel
exit_process code k = record k { ended = true; exit_code = code }

-- The exception handler below an access by the kernel.
abbrev pub no_handler : ExceptionType → Machine → Option Machine
no_handler exception m = some m

-- A read of one byte of the program; `none` in the pair is the failed access.
unfoldable pub fetched : Kernel → Option ℕ × Machine → Option ℕ × Kernel
fetched k (none, m) = (none, record k { machine = m })
fetched k (some value, m) = (some (value % 256), record k { machine = m })

unfoldable pub fetch_byte : ℕ → Kernel → Option (Option ℕ × Kernel)
fetch_byte addr k = read_mem no_handler addr 1 k.machine >>= λ r. some (fetched k r)

-- `kernelBufferDestination[i] = c`.
unfoldable pub put_byte : List ℕ → ℕ → ℕ → Option (List ℕ)
put_byte buffer i c = if ltb i (length buffer) then some (set buffer i c) else none

-- `kernelBufferSource[i]`.
unfoldable pub get_byte : List ℕ → ℕ → Option ℕ
get_byte buffer i = if ltb i (length buffer) then some (get_or buffer i 0) else none

-- A round of the loops of CopyFromUser, with what the later rounds do to the buffer.
unfoldable pub copy_round :
    (List ℕ → Kernel → Option (Outcome (List ℕ)))
    → List ℕ
    → ℕ
    → Option ℕ × Kernel
    → Option (Outcome (List ℕ))
copy_round rest buffer i (none, k) = some (exited (exit_process minus_one k))
copy_round rest buffer i (some c, k) =
    put_byte buffer i c >>= λ b. if c == 0 then some (returned b k) else rest b k

-- n rounds from the byte i on; both versions of CopyFromUser have this loop.
unfoldable pub copy_loop : ℕ → ℕ → ℕ → List ℕ → Kernel → Option (Outcome (List ℕ))
copy_loop source zero i buffer k = some (returned buffer k)
copy_loop source (suc n) i buffer k =
    fetch_byte ((source + i) % 2 ^ 32) k >>= copy_round (copy_loop source n (i + 1)) buffer i

-- CopyFromUser of a known size.
unfoldable pub copy_from_user : ℕ → List ℕ → ℕ → Kernel → Option (Outcome (List ℕ))
copy_from_user source buffer size k =
    if size == 0 || not (is_nonneg size)
    then some (exited (exit_process minus_one k))
    else copy_loop source size 0 buffer k

-- CopyFromUser of a string.
unfoldable pub copy_string : ℕ → List ℕ → Kernel → Option (Outcome (List ℕ))
copy_string source buffer k = copy_loop source (max_filename_length - 1) 0 buffer k

-- The loop of CopyToUser, n rounds from the byte i on; of the word that is written only its low byte
-- was set.
unfoldable pub store_round :
    (Kernel → Option (Outcome (Unit {0}))) → Kernel → Bool × Machine → Option (Outcome (Unit {0}))
store_round rest k (false, m) = some (exited (exit_process minus_one (record k { machine = m })))
store_round rest k (true, m) = rest (record k { machine = m })

unfoldable pub store_loop : List ℕ → ℕ → ℕ → ℕ → Kernel → Option (Outcome (Unit {0}))
store_loop buffer target zero i k = some (returned tt k)
store_loop buffer target (suc n) i k = get_byte buffer i >>= λ c.
    write_mem no_handler ((target + i) % 2 ^ 32) 1 c k.machine
    >>= store_round (store_loop buffer target n (i + 1)) k

unfoldable pub copy_to_user : List ℕ → ℕ → ℕ → Kernel → Option (Outcome (Unit {0}))
copy_to_user buffer target size k =
    if size == 0 || not (is_nonneg size)
    then some (exited (exit_process minus_one k))
    else store_loop buffer target size 0 k

-- The end of SysCallLogWrite, behind the copy.
unfoldable pub logged : ℕ → Outcome (List ℕ) → Option (Outcome (Unit {0}))
logged size (exited k) = some (exited k)
logged size (returned buffer k) = put_byte buffer size 0 >>= λ b.
    some (returned tt (record k { log = k.log ++ take size b; machine = increment_pc k.machine }))

-- SysCallLogWrite, where new has returned the `size + 1` bytes `buffer`.
unfoldable pub log_write : ℕ → ℕ → List ℕ → Kernel → Option (Outcome (Unit {0}))
log_write source size buffer k = copy_from_user source buffer size k >>= logged size
