-- ===== src/Hart/Translate.antt =====
-- `checkPaddr` and `translateVaddr`, the walk of a two-level page table.
pub mod Entries
pub mod Granted
use revive.Common.{
  ℕ, ◌+◌, ◌*◌, ◌/◌, ◌^◌, bit_and, bit_or, Bool, true, false, not, ◌&&◌, ◌||◌, ◌==◌, ◌!=◌,
  if◌then◌else◌, u32, u64, field,
}
use revive.Hart.Status.{mprv, mpp, sum, mxr, atp_mode, atp_ppn}
use revive.Hart.State.{TraceMachineState, priv_user, priv_supervisor, priv_machine}
use revive.Hart.Exec.{Host, M, Access, granted, faulted, pure, ◌>>=◌, get_hart, load}

-- `Rv32PageTableEntry`
abbrev pub pte_valid : ℕ → Bool
pte_valid entry = field 0 1 entry != 0

abbrev pub pte_read : ℕ → Bool
pte_read entry = field 1 1 entry != 0

abbrev pub pte_write : ℕ → Bool
pte_write entry = field 2 1 entry != 0

abbrev pub pte_exec : ℕ → Bool
pte_exec entry = field 3 1 entry != 0

abbrev pub pte_user : ℕ → Bool
pte_user entry = field 4 1 entry != 0

abbrev pub pte_access : ℕ → Bool
pte_access entry = field 6 1 entry != 0

abbrev pub pte_dirty : ℕ → Bool
pte_dirty entry = field 7 1 entry != 0

abbrev pub pte_ppn : ℕ → ℕ
pte_ppn = field 10 22

-- What an access asks for.
pub record Request : Type 0 where
  pub read : Bool
  pub write : Bool
  pub exec : Bool

-- The check of a physical address, which lets every one pass.
unfoldable pub check_paddr : ℕ → Request → Bool
check_paddr paddr request = true

unfoldable pub need_trans : TraceMachineState → Bool
need_trans s =
    atp_mode s.trans != 0 && (if mprv s.status != 0 then mpp s.status else s.priv) != priv_machine

-- "invalid", of either level
unfoldable pub pte_invalid : ℕ → Bool
pte_invalid entry = not (pte_valid entry) || (not (pte_read entry) && pte_write entry)

-- "permission violation"
unfoldable pub pte_denied : TraceMachineState → Request → ℕ → Bool
pte_denied s request entry =
    (s.priv == priv_user && not (pte_user entry))
    || (s.priv == priv_supervisor && pte_user entry && not (sum s.status != 0))
    || (request.read && not (pte_read entry) && (not (mxr s.status != 0) || not (pte_exec entry)))
    || (request.exec && not (pte_exec entry))
    || (request.write && not (pte_write entry))

-- The tests on the entry that was found, and the check of the address that it gives.
unfoldable pub check_leaf : TraceMachineState → Request → ℕ → ℕ → ℕ → ℕ → Access
check_leaf s request entry paddr page_fault access_fault =
    if not (pte_access entry) || (not (pte_dirty entry) && request.write)
    then faulted page_fault
    else if pte_denied s request entry
    then faulted page_fault
    else if check_paddr paddr request
    then granted paddr
    else faulted access_fault

unfoldable pub super_paddr : ℕ → ℕ → ℕ
super_paddr entry vaddr = bit_or (u64 (pte_ppn entry * 2 ^ 12)) (bit_and vaddr 0x3fffff)

unfoldable pub page_paddr : ℕ → ℕ → ℕ
page_paddr entry vaddr = bit_or (u64 (pte_ppn entry * 2 ^ 12)) (bit_and vaddr 0xfff)

-- The page table's walk asks to read.
abbrev pub table_read : Request
table_read = record { read = true; write = false; exec = false }

module _ {S : Type 0} (host : Host S) where
  -- the second level, below the entry `entry1`
  unfoldable pub walk_second : TraceMachineState → Request → ℕ → ℕ → ℕ → ℕ → M S Access
  walk_second s request entry1 vaddr page_fault access_fault = do
    let idx2 = bit_and (vaddr / 2 ^ 12) 0x3ff
    let entry2_paddr = pte_ppn entry1 * 2 ^ 12 + idx2 * 4
    word ← load host entry2_paddr 4
    let entry = u32 word
    pure (
        if not (check_paddr entry2_paddr table_read)
        then faulted access_fault
        else if pte_invalid entry || (not (pte_read entry) && not (pte_exec entry))
        then faulted page_fault
        else check_leaf s request entry (page_paddr entry vaddr) page_fault access_fault)

  -- the first level, from the entry at `entry1_paddr`
  unfoldable pub walk_first : TraceMachineState → Request → ℕ → ℕ → ℕ → ℕ → M S Access
  walk_first s request entry1_paddr vaddr page_fault access_fault = do
    word ← load host entry1_paddr 4
    let entry = u32 word
    if pte_invalid entry
        then pure (faulted page_fault)
        else if pte_read entry || pte_exec entry
        then (if bit_and (pte_ppn entry) 0x3ff != 0
            then pure (faulted page_fault)
            else pure
                (check_leaf s request entry (super_paddr entry vaddr) page_fault access_fault))
        else walk_second s request entry vaddr page_fault access_fault

  unfoldable pub walk : TraceMachineState → Request → ℕ → ℕ → ℕ → M S Access
  walk s request vaddr page_fault access_fault =
      let idx1 = bit_and (vaddr / 2 ^ 22) 0x3ff in
      let entry1_paddr = atp_ppn s.trans * 2 ^ 12 + idx1 * 4 in
      if not (check_paddr entry1_paddr table_read)
      then pure (faulted access_fault)
      else walk_first s request entry1_paddr vaddr page_fault access_fault

  unfoldable pub translate_vaddr : ℕ → Request → ℕ → ℕ → M S Access
  translate_vaddr vaddr request page_fault access_fault = do
    s ← get_hart
    if need_trans s
        then walk s request vaddr page_fault access_fault
        else pure (if check_paddr vaddr request then granted vaddr else faulted access_fault)
