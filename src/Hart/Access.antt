-- ===== src/Hart/Access.antt =====
-- `executeG_LD`, `executeG_ST` and the fetch of one instruction.
pub mod Keeps
use revive.Common.{
  ℕ, ◌+◌, ◌-◌, ◌*◌, ◌/◌, ◌^◌, bit_and, bit_or, Bool, true, false, not, Option, none, some, ltb,
  ◌==◌, ◌!=◌, if◌then◌else◌, u8, u16, u32, u64, test_bits,
}
use revive.Hart.State.{TraceMachineState}
use revive.Hart.Exec.{
  Host, M, Access, granted, faulted, pure, fail, ◌>>=◌, ◌>>◌, get_hart, modify, load, store,
}
use revive.Hart.Translate.{Request, translate_vaddr}
use revive.Hart.Trap.{except_enter}

-- `ExceptCode`
abbrev pub instr_addr_misalign : ℕ
instr_addr_misalign = 0

abbrev pub instr_access_fault : ℕ
instr_access_fault = 1

abbrev pub breakpoint : ℕ
breakpoint = 3

abbrev pub load_addr_misalign : ℕ
load_addr_misalign = 4

abbrev pub load_access_fault : ℕ
load_access_fault = 5

abbrev pub store_addr_misalign : ℕ
store_addr_misalign = 6

abbrev pub store_access_fault : ℕ
store_access_fault = 7

abbrev pub ecall_from_u : ℕ
ecall_from_u = 8

abbrev pub instr_page_fault : ℕ
instr_page_fault = 12

abbrev pub load_page_fault : ℕ
load_page_fault = 13

abbrev pub store_page_fault : ℕ
store_page_fault = 15

abbrev pub for_read : Request
for_read = record { read = true; write = false; exec = false }

abbrev pub for_write : Request
for_write = record { read = false; write = true; exec = false }

abbrev pub for_both : Request
for_both = record { read = true; write = true; exec = false }

abbrev pub for_exec : Request
for_exec = record { read = false; write = false; exec = true }

-- `addr & align_mask`, the mask being `(0x1 << size) - 0x1`
abbrev pub misaligned : ℕ → ℕ → Bool
misaligned addr size = test_bits addr (2 ^ size - 1)

-- `(uint32_t)(int32_t)(int8_t)x` and `(uint32_t)(int32_t)(int16_t)x`
abbrev pub widen8 : ℕ → ℕ
widen8 x = if ltb x (2 ^ 7) then x else x + (2 ^ 32 - 2 ^ 8)

abbrev pub widen16 : ℕ → ℕ
widen16 x = if ltb x (2 ^ 15) then x else x + (2 ^ 32 - 2 ^ 16)

-- The value of a load from what was read. A `size` other than 0 and 1 is that of a word.
unfoldable pub load_value : Bool → ℕ → ℕ → ℕ
load_value sign size read =
    if size == 0
    then (if sign then widen8 (u8 read) else u8 read)
    else if size == 1
    then (if sign then widen16 (u16 read) else u16 read)
    else u32 read

unfoldable pub store_value : ℕ → ℕ → ℕ
store_value size value = if size == 0 then u8 value else if size == 1 then u16 value else u32 value

-- The result of `fetch`: the instruction and its length.
pub data Fetched : Type 0 where
  fetched : ℕ → ℕ → Fetched
  fetch_faulted : ℕ → Fetched

module _ {S : Type 0} (host : Host S) where
  load_at : Bool → ℕ → Access → M S Access
  load_at sign size (faulted fault) = pure (faulted fault)
  load_at sign size (granted paddr) = do
    read ← load host paddr (2 ^ size)
    pure (granted (load_value sign size read))

  unfoldable pub execute_g_ld : ℕ → Bool → ℕ → M S Access
  unfolding load_at
  execute_g_ld addr sign size =
      if misaligned addr size then pure (faulted load_addr_misalign) else do
        paddr ← translate_vaddr host addr for_read load_page_fault load_access_fault
        load_at sign size paddr

  store_at : ℕ → ℕ → Access → M S (Option ℕ)
  store_at size value (faulted fault) = pure (some fault)
  store_at size value (granted paddr) = do
    store host paddr (2 ^ size) (store_value size value)
    pure none

  -- `none` where the store is done, the fault's code where it is not
  unfoldable pub execute_g_st : ℕ → ℕ → ℕ → M S (Option ℕ)
  unfolding store_at
  execute_g_st addr size value =
      if misaligned addr size then pure (some store_addr_misalign) else do
        paddr ← translate_vaddr host addr for_write store_page_fault store_access_fault
        store_at size value paddr

  upper_half : ℕ → Access → M S Fetched
  upper_half data' (faulted fault) = pure (fetch_faulted fault)
  upper_half data' (granted paddr2) = do
    read ← load host paddr2 2
    pure (fetched (u32 (bit_or data' (u64 (read * 2 ^ 16)))) 4)

  lower_half : TraceMachineState → Access → M S Fetched
  unfolding upper_half
  lower_half s (faulted fault) = pure (fetch_faulted fault)
  lower_half s (granted paddr) = do
    read ← load host paddr 2
    let data' = u32 read
    let paddr2 = u64 (paddr + 0x2)
    if not (bit_and data' 0x3 == 0x3)
        then pure (fetched data' 2)
        else if paddr / 2 ^ 12 != paddr2 / 2 ^ 12
        then (do
          second ←
              translate_vaddr host (u32 (s.pc + 0x2)) for_exec instr_page_fault instr_access_fault
          upper_half data' second)
        else upper_half data' (granted paddr2)

  -- one round of `fetch`
  unfoldable pub fetch_once : M S Fetched
  unfolding lower_half
  fetch_once = do
    s ← get_hart
    paddr ← translate_vaddr host s.pc for_exec instr_page_fault instr_access_fault
    lower_half s paddr

  second_round : Fetched → M S (ℕ × ℕ)
  second_round (fetched instr size) = pure (instr, size)
  second_round (fetch_faulted fault) = fail

  first_round : Fetched → M S (ℕ × ℕ)
  unfolding second_round
  first_round (fetched instr size) = pure (instr, size)
  first_round (fetch_faulted fault) = do
    modify (λ s. except_enter s fault s.pc)
    again ← fetch_once
    second_round again

  -- A fault enters its handler and fetches there; a second fault is a panic.
  unfoldable pub fetch : M S (ℕ × ℕ)
  unfolding first_round
  fetch = do result ← fetch_once; first_round result
