-- ===== src/Memory/Layout.antt =====
-- memory.h: the constants of the memory map and the bounds of a hart's slot.
use mocker.Prelude.{ℕ, ◌*◌, ◌^◌, add32, sub32, u32}

abbrev pub mem_size : ℕ
mem_size = 2 ^ 20

abbrev pub hart_slot_base_addr : ℕ
hart_slot_base_addr = 0x10000

abbrev pub hart_slot_size : ℕ
hart_slot_size = 0x10000

abbrev pub max_harts : ℕ
max_harts = 8

abbrev pub stack_size : ℕ
stack_size = 0x2000

abbrev pub hart_slot_base : ℕ → ℕ
hart_slot_base id = add32 hart_slot_base_addr (u32 (id * hart_slot_size))

-- The first address past the slot.
abbrev pub hart_slot_top : ℕ → ℕ
hart_slot_top id = add32 (hart_slot_base id) hart_slot_size

abbrev pub hart_stack_top : ℕ → ℕ
hart_stack_top id = sub32 (hart_slot_top id) 4
