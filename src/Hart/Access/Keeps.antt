-- ===== src/Hart/Access/Keeps.antt =====
-- Translation, loads, stores and fetch keep a hart well formed, whatever the memory holds.
use revive.Common.{
  ℕ, ◌+◌, ◌^◌, ◌<◌, Bool, true, false, Option, none, some, arith, if◌then◌else◌, u32,
}
use revive.Hart.State.{TraceMachineState}
use revive.Hart.Trap.{except_enter}
use revive.Hart.Trap.Valid.{except_enter-IsValid}
use revive.Hart.Exec.{Host, Access, granted, faulted}
use revive.Hart.Exec.Keeps.{
  Keeps, Any, IsHost, Keeps-pure, Keeps-fail, Keeps-bind, Keeps-if, Keeps-get_hart, Keeps-modify,
  Keeps-load, Keeps-store,
}
use revive.Hart.Translate.{Request, check_leaf, walk_second, walk_first, walk, translate_vaddr}
use revive.Hart.Access.{
  load_page_fault, load_access_fault, store_page_fault, store_access_fault, instr_page_fault,
  instr_access_fault, for_read, for_write, for_exec, load_value, Fetched, fetched, fetch_faulted,
  load_at, execute_g_ld, store_at, execute_g_st, upper_half, lower_half, fetch_once, second_round,
  first_round, fetch,
}

-- The code of a fault is a word, and what was granted has `P`.
pub data Fits (P : ℕ → Type 0) : Access → Type 0 where
  granted_fits : (v : ℕ) → P v → Fits P (granted v)
  faulted_fits : (fault : ℕ) → fault < 2 ^ 32 → Fits P (faulted fault)

pub data StoreFits : Option ℕ → Type 0 where
  stored_fits : StoreFits none
  fault_fits : (fault : ℕ) → fault < 2 ^ 32 → StoreFits (some fault)

pub data FetchFits : Fetched → Type 0 where
  fetched_fits : (instr size : ℕ) → FetchFits (fetched instr size)
  fetch_fault_fits : (fault : ℕ) → fault < 2 ^ 32 → FetchFits (fetch_faulted fault)

abbrev pub IsWord : ℕ → Type 0
IsWord v = v < 2 ^ 32

Fits-if :
    {P : ℕ → Type 0} (b : Bool) (x y : Access) → Fits P x → Fits P y → Fits P (if b then x else y)
Fits-if true x y p q = p
Fits-if false x y p q = q

module _ {S : Type 0} (host : Host S) (page_fault access_fault : ℕ) (p : page_fault < 2 ^ 32)
    (a : access_fault < 2 ^ 32) where
  leaf-Fits :
      (s : TraceMachineState) (request : Request) (entry paddr : ℕ)
      → Fits Any (check_leaf s request entry paddr page_fault access_fault)
  unfolding check_leaf
  leaf-Fits s request entry paddr = search (Fits-if, granted_fits, faulted_fits)

  ruleset walk_rules = (Fits-if, granted_fits, faulted_fits, leaf-Fits, Keeps-pure, Keeps-if)

  walk_second-Keeps :
      (s : TraceMachineState) (request : Request) (entry1 vaddr : ℕ)
      → Keeps (Fits Any) (walk_second host s request entry1 vaddr page_fault access_fault)
  unfolding walk_second
  walk_second-Keeps s request entry1 vaddr =
      Keeps-bind _ _ (Keeps-load host _ _) (λ word _. search walk_rules depth 8)

  walk_first-Keeps :
      (s : TraceMachineState) (request : Request) (entry1_paddr vaddr : ℕ)
      → Keeps (Fits Any) (walk_first host s request entry1_paddr vaddr page_fault access_fault)
  unfolding walk_first
  walk_first-Keeps s request entry1_paddr vaddr =
      Keeps-bind _ _ (Keeps-load host entry1_paddr 4)
        (λ word _. search (walk_rules, walk_second-Keeps) depth 9)

  walk-Keeps :
      (s : TraceMachineState) (request : Request) (vaddr : ℕ)
      → Keeps (Fits Any) (walk host s request vaddr page_fault access_fault)
  unfolding walk
  walk-Keeps s request vaddr = search (walk_rules, walk_first-Keeps)

  pub translate_vaddr-Keeps :
      (vaddr : ℕ) (request : Request)
      → Keeps (Fits Any) (translate_vaddr host vaddr request page_fault access_fault)
  unfolding translate_vaddr
  translate_vaddr-Keeps vaddr request =
      Keeps-bind _ _ Keeps-get_hart (λ s _. search (walk_rules, walk-Keeps) depth 9)

load_value-lt : (sign : Bool) (size read : ℕ) → load_value sign size read < 2 ^ 32
unfolding load_value
load_value-lt sign size read = ground arith

module _ {S : Type 0} (host : Host S) where
  load_at-Keeps :
      (sign : Bool) (size : ℕ) (x : Access)
      → Fits Any x
      → Keeps (Fits IsWord) (load_at host sign size x)
  unfolding load_at
  load_at-Keeps sign size _ (granted_fits paddr h) =
      Keeps-bind _ _ (Keeps-load host _ _)
        (λ read _. Keeps-pure _ (granted_fits _ (load_value-lt sign size read)))
  load_at-Keeps sign size _ (faulted_fits fault h) = search (Keeps-pure, faulted_fits)

  pub execute_g_ld-Keeps :
      (addr : ℕ) (sign : Bool) (size : ℕ) → Keeps (Fits IsWord) (execute_g_ld host addr sign size)
  unfolding execute_g_ld
  execute_g_ld-Keeps addr sign size = Keeps-if _ _ _ (Keeps-pure _ (faulted_fits _ (omega arith))) (
      Keeps-bind _ _
        (translate_vaddr-Keeps host load_page_fault load_access_fault (omega arith) (omega arith)
          addr for_read)
        (load_at-Keeps sign size))

  module _ (good : IsHost host) where
    store_at-Keeps :
        (size value : ℕ) (x : Access) → Fits Any x → Keeps StoreFits (store_at host size value x)
    unfolding store_at
    store_at-Keeps size value _ (granted_fits paddr h) =
        Keeps-bind _ _ (Keeps-store host _ _ _ good) (λ _ _. Keeps-pure none stored_fits)
    store_at-Keeps size value _ (faulted_fits fault h) = search (Keeps-pure, fault_fits)

    pub execute_g_st-Keeps :
        (addr size value : ℕ) → Keeps StoreFits (execute_g_st host addr size value)
    unfolding execute_g_st
    execute_g_st-Keeps addr size value =
        Keeps-if _ _ _ (Keeps-pure _ (fault_fits _ (omega arith))) (
          Keeps-bind _ _
            (translate_vaddr-Keeps host store_page_fault store_access_fault (omega arith)
              (omega arith) addr for_write)
            (store_at-Keeps size value))

  upper_half-Keeps : (d : ℕ) (x : Access) → Fits Any x → Keeps FetchFits (upper_half host d x)
  unfolding upper_half
  upper_half-Keeps d _ (granted_fits paddr h) =
      Keeps-bind _ _ (Keeps-load host _ _) (λ read _. Keeps-pure _ (fetched_fits _ _))
  upper_half-Keeps d _ (faulted_fits fault h) = search (Keeps-pure, fetch_fault_fits)

  fetch_translate-Keeps :
      (vaddr : ℕ)
      → Keeps (Fits Any) (translate_vaddr host vaddr for_exec instr_page_fault instr_access_fault)
  fetch_translate-Keeps vaddr =
      translate_vaddr-Keeps host instr_page_fault instr_access_fault (omega arith) (omega arith)
        vaddr for_exec

  lower_half-Keeps :
      (s : TraceMachineState) (x : Access) → Fits Any x → Keeps FetchFits (lower_half host s x)
  unfolding lower_half
  lower_half-Keeps s _ (granted_fits paddr h) = Keeps-bind _ _ (Keeps-load host paddr 2) λ read _.
      Keeps-if _ _ _ (Keeps-pure _ (fetched_fits _ _)) (
        Keeps-if _ _ _
          (Keeps-bind _ _ (fetch_translate-Keeps (u32 (s.pc + 0x2))) (upper_half-Keeps (u32 read)))
          (upper_half-Keeps _ _ (granted_fits _ tt)))
  lower_half-Keeps s _ (faulted_fits fault h) = search (Keeps-pure, fetch_fault_fits)

  fetch_once-Keeps : Keeps FetchFits (fetch_once host)
  unfolding fetch_once
  fetch_once-Keeps =
      Keeps-bind _ _ Keeps-get_hart
        λ s _. Keeps-bind _ _ (fetch_translate-Keeps s.pc) (lower_half-Keeps s)

  second_round-Keeps : (x : Fetched) → Keeps Any (second_round host x)
  unfolding second_round
  second_round-Keeps (fetched instr size) = Keeps-pure _ tt
  second_round-Keeps (fetch_faulted fault) = Keeps-fail

  first_round-Keeps : (x : Fetched) → FetchFits x → Keeps Any (first_round host x)
  unfolding first_round
  first_round-Keeps _ (fetched_fits instr size) = Keeps-pure _ tt
  first_round-Keeps _ (fetch_fault_fits fault h) =
      Keeps-bind _ _
        (Keeps-modify (λ s. except_enter s fault s.pc)
          (λ s v. except_enter-IsValid s fault s.pc v h v.pc_lt))
        λ _ _. Keeps-bind _ _ fetch_once-Keeps (λ x _. second_round-Keeps x)

  pub fetch-Keeps : Keeps Any (fetch host)
  unfolding fetch
  fetch-Keeps = Keeps-bind _ _ fetch_once-Keeps first_round-Keeps
