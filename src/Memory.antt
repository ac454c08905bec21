-- ===== src/Memory.antt =====
-- memory.h: the memory map, the flat byte array and the protection check in front of it. An index past
-- the end of the array is undefined behaviour in C++; here such an access gives `none`.
pub mod Layout
pub mod Raw
pub mod Protection
pub mod Loader
use mocker.Prelude.{
  ℕ, suc, zero, ◌+◌, ◌*◌, ◌≡◌, ◌==◌, Bool, true, false, ◌&&◌, ◌||◌, not, List, [], ◌∷◌, Option,
  none, some, if◌then◌else◌, ltb, leb, update, ◌>>=◌, add32, sub32, u32, bit_and, bit_or, ◌<<◌,
  ◌>>◌,
}
use Prim.Native.String.{String}
use Layout.{mem_size, hart_slot_base, hart_slot_top}

pub data AccessType : Type 0 where
  fetch load store : AccessType

pub record MemFault : Type 0 where
  pub occurred : Bool
  pub addr : ℕ
  pub type : AccessType
  pub reason : String

-- The byte at each index below `mem_size`.
pub record ProtectedMemory : Type 0 where
  pub bytes : ℕ → ℕ

unfoldable pub byte_at : ProtectedMemory → ℕ → Option ℕ
byte_at m a = if ltb a mem_size then some (m.bytes a) else none

unfoldable pub set_byte : ProtectedMemory → ℕ → ℕ → Option ProtectedMemory
set_byte m a v = if ltb a mem_size then some (record { bytes = update m.bytes a v }) else none

unfoldable pub raw_load_word : ProtectedMemory → ℕ → Option ℕ
raw_load_word m addr = do
  b0 ← byte_at m addr
  b1 ← byte_at m (add32 addr 1)
  b2 ← byte_at m (add32 addr 2)
  b3 ← byte_at m (add32 addr 3)
  some (bit_or (bit_or (bit_or b0 (b1 << 8)) (b2 << 16)) (b3 << 24))

unfoldable pub raw_store_word : ProtectedMemory → ℕ → ℕ → Option ProtectedMemory
raw_store_word m addr val = do
  m0 ← set_byte m addr (bit_and val 0xFF)
  m1 ← set_byte m0 (add32 addr 1) (bit_and (val >> 8) 0xFF)
  m2 ← set_byte m1 (add32 addr 2) (bit_and (val >> 16) 0xFF)
  set_byte m2 (add32 addr 3) (bit_and (val >> 24) 0xFF)

unfoldable pub raw_load_byte : ProtectedMemory → ℕ → Option ℕ
raw_load_byte m a = byte_at m a

unfoldable pub raw_store_byte : ProtectedMemory → ℕ → ℕ → Option ProtectedMemory
raw_store_byte m a v = set_byte m a v

unfoldable pub raw_load_half : ProtectedMemory → ℕ → Option ℕ
raw_load_half m a = do b0 ← byte_at m a; b1 ← byte_at m (add32 a 1); some (bit_or b0 (b1 << 8))

unfoldable pub raw_store_half : ProtectedMemory → ℕ → ℕ → Option ProtectedMemory
raw_store_half m a v = do
  m0 ← set_byte m a (bit_and v 0xFF)
  set_byte m0 (add32 a 1) (bit_and (v >> 8) 0xFF)

-- The loop from index `i` on.
unfoldable pub load_words : ProtectedMemory → List ℕ → ℕ → ℕ → Option ProtectedMemory
load_words m [] base i = some m
load_words m (w ∷ words) base i = do
  m' ← raw_store_word m (add32 base (u32 (i * 4))) w
  load_words m' words base (i + 1)

unfoldable pub load_program : ProtectedMemory → List ℕ → ℕ → Option ProtectedMemory
load_program m words base = load_words m words base 0

abbrev no_fault : MemFault
no_fault = record { occurred = false; addr = 0; type = load; reason = "" }

abbrev fault_at : ℕ → AccessType → String → MemFault
fault_at addr t reason = record { occurred = true; addr = addr; type = t; reason = reason }

pub is_fetch : AccessType → Bool
is_fetch fetch = true
is_fetch load = false
is_fetch store = false

pub is_load : AccessType → Bool
is_load fetch = false
is_load load = true
is_load store = false

-- U-mode: inside the hart's own slot.
pub check_slot : ℕ → AccessType → ℕ → MemFault
check_slot addr t id =
    if ltb addr (hart_slot_base id) || leb (hart_slot_top id) addr
    then fault_at addr t "cross-hart or kernel access"
    else no_fault

-- `none` is the hart id -1 of M-mode.
unfoldable pub check : ℕ → AccessType → Option ℕ → MemFault
unfolding check_slot is_fetch is_load
check addr t hart_id =
    if (is_fetch t || is_load t) && is_fetch t && not (bit_and addr 3 == 0)
    then fault_at addr t "misaligned fetch"
    else if leb mem_size addr
    then fault_at addr t "out of range"
    else elim hart_id [ none ↦ no_fault | some id ↦ check_slot addr t id ]

-- Each protected access gives the fault beside its result; on a fault a load gives 0 and a store does
-- nothing.
abbrev pub guarded_load :
    (ProtectedMemory → ℕ → Option ℕ) → ProtectedMemory → ℕ → Option ℕ → Option (MemFault × ℕ)
guarded_load raw m addr hart_id =
    let fault = check addr load hart_id in
    if fault.occurred then some (fault, 0) else (raw m addr >>= λ v. some (fault, v))

abbrev guarded_store :
    (ProtectedMemory → ℕ → ℕ → Option ProtectedMemory)
    → ProtectedMemory
    → ℕ
    → ℕ
    → Option ℕ
    → Option (MemFault × ProtectedMemory)
guarded_store raw m addr val hart_id =
    let fault = check addr store hart_id in
    if fault.occurred then some (fault, m) else (raw m addr val >>= λ m'. some (fault, m'))

unfoldable pub load_word : ProtectedMemory → ℕ → Option ℕ → Option (MemFault × ℕ)
load_word = guarded_load raw_load_word

unfoldable pub store_word : ProtectedMemory → ℕ → ℕ → Option ℕ → Option (MemFault × ProtectedMemory)
store_word = guarded_store raw_store_word

unfoldable pub load_byte : ProtectedMemory → ℕ → Option ℕ → Option (MemFault × ℕ)
load_byte = guarded_load raw_load_byte

unfoldable pub store_byte : ProtectedMemory → ℕ → ℕ → Option ℕ → Option (MemFault × ProtectedMemory)
store_byte = guarded_store raw_store_byte

unfoldable pub load_half : ProtectedMemory → ℕ → Option ℕ → Option (MemFault × ℕ)
load_half = guarded_load raw_load_half

unfoldable pub store_half : ProtectedMemory → ℕ → ℕ → Option ℕ → Option (MemFault × ProtectedMemory)
store_half = guarded_store raw_store_half
