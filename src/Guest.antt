-- ===== src/Guest.antt =====
-- lib/GuestState.h: the state of the guest machine.
use dinorisc.Prelude.{ℕ, ◌*◌, ◌||◌, leb, ◌==◌, if◌then◌else◌}

-- `x` is the register array, by its index. The shadow memory is named by its host address.
pub record GuestState : Type 0 where
  pub x : ℕ → ℕ
  pub pc : ℕ
  pub shadow_memory : ℕ
  pub shadow_memory_size : ℕ
  pub guest_memory_base : ℕ

-- `offsetof`, on a 64-bit target: 32 registers of 8 bytes, then the fields of 8 bytes each.
abbrev pub register_offset : ℕ → ℕ
register_offset reg = reg * 8

abbrev pub shadow_memory_offset : ℕ
shadow_memory_offset = 264

abbrev pub guest_memory_base_offset : ℕ
guest_memory_base_offset = 280

abbrev pub update : (ℕ → ℕ) → ℕ → ℕ → ℕ → ℕ
update x reg value j = if reg == j then value else x j

unfoldable pub write_register : GuestState → ℕ → ℕ → GuestState
write_register state reg value =
    if leb 32 reg || reg == 0 then state else record state { x = update state.x reg value }
