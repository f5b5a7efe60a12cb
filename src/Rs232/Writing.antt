-- ===== src/Rs232/Writing.antt =====
-- rs232_tut_write of dev1-rs232-driver/rs232_tut-0.2/driver/rs232_tp.c.
use operating_systems_assign.Prelude.{
  ℕ, zero, suc, ◌+◌, ◌≤◌, ◌≡◌, ◌⊎◌, true, Option, none, some, List, [], ◌∷◌, ◌++◌,
}
use operating_systems_assign.CBuffer.{CBuffer, is_empty}
use operating_systems_assign.Rs232.{Driver}
use operating_systems_assign.Rs232.Bytes.{stream, IsOpen}

unfoldable pub read_then : Option ℕ → List ℕ → List ℕ
read_then none rest = []
read_then (some c) rest = c ∷ rest

-- The first n bytes of the program's buffer from the place i on, as far as they can be read.
unfoldable pub bytes_from : (ℕ → Option ℕ) → ℕ → ℕ → List ℕ
bytes_from copy_from_user i zero = []
bytes_from copy_from_user i (suc n) =
    read_then (copy_from_user i) (bytes_from copy_from_user (i + 1) n)

-- What interrupts may do to the driver while a program writes: bytes may arrive and may be sent, but
-- none on its way out is lost or added.
abbrev pub KeepsStream : (ℕ → ℕ → Driver → Driver) → Type 0
KeepsStream interrupts =
    (i p : ℕ) (d : Driver)
    → IsOpen d
    → IsOpen (interrupts i p d) × (stream (interrupts i p d) ≡ stream d)

module _ (interrupts : ℕ → ℕ → Driver → Driver) (keeps : KeepsStream interrupts) where
  -- What the loop has written when it ends: k bytes.
  abbrev Loop : (ℕ → Option ℕ) → ℕ → ℕ → Driver → Option ℕ × Driver → Type 0
  Loop copy n i d r =
      (k : ℕ) × (k ≤ n)
      × IsOpen r.1
      × (stream r.1 ≡ stream d ++ bytes_from copy i k)
      × ((r.0 ≡ some (i + k)) ⊎ ((r.0 ≡ none) × (is_empty r.1.cbuf_out ≡ true)))
