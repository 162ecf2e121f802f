-- ===== src/Jumps.antt =====
-- shared/src/setjmp_longjmp.rs: the two assembly routines, on a machine with the registers and the
-- instructions that they use.
pub mod Restore
mod Tests
use nea.Base.{
  ℕ, ◌+◌, ◌-◌, ◌%◌, ◌^◌, ◌==◌, ltb, Bool, true, false, List, [], ◌∷◌, if◌then◌else◌, update, u32,
  u64,
}

-- The numbers of the registers.
abbrev pub rax : ℕ
rax = 0

abbrev pub rdx : ℕ
rdx = 2

abbrev pub rbx : ℕ
rbx = 3

abbrev pub rsp : ℕ
rsp = 4

abbrev pub rbp : ℕ
rbp = 5

abbrev pub rsi : ℕ
rsi = 6

abbrev pub rdi : ℕ
rdi = 7

abbrev pub r12 : ℕ
r12 = 12

abbrev pub r13 : ℕ
r13 = 13

abbrev pub r14 : ℕ
r14 = 14

abbrev pub r15 : ℕ
r15 = 15

-- The registers, the memory as a word of 64 bits at each aligned address, the carry flag and the
-- address of the next instruction behind the routine.
pub record Machine : Type 0 where
  pub register : ℕ → ℕ
  pub memory : ℕ → ℕ
  pub carry : Bool
  pub next : ℕ

pub data Instruction : Type 0 where
  mov_store : ℕ → ℕ → ℕ → Instruction
  mov_load : ℕ → ℕ → ℕ → Instruction
  lea : ℕ → ℕ → ℕ → Instruction
  xor_self : ℕ → Instruction
  cmp : ℕ → ℕ → Instruction
  adc : ℕ → ℕ → Instruction
  jmp : ℕ → ℕ → Instruction
  ret : Instruction

module _ (m : Machine) where
  -- The address `[base + offset]`.
  abbrev pub address : ℕ → ℕ → ℕ
  address base offset = u64 (m.register base + offset)

  abbrev pub set_register : ℕ → ℕ → Machine
  set_register r v = record m { register = update m.register r v }

  abbrev pub carry_bit : ℕ
  carry_bit = if m.carry then 1 else 0

-- A write to the lower half of a register clears its upper half.
abbrev pub execute : Instruction → Machine → Machine
execute (mov_store base offset src) m = record m {
  memory = update m.memory (address m base offset) (m.register src);
}
execute (mov_load dst base offset) m = set_register m dst (m.memory (address m base offset))
execute (lea dst base offset) m = set_register m dst (address m base offset)
execute (xor_self dst) m = record m { register = update m.register dst 0; carry = false }
execute (cmp r n) m = record m { carry = ltb (u32 (m.register r)) n }
execute (adc dst src) m =
    let sum = u32 (m.register dst) + u32 (m.register src) + carry_bit m in
    record m { register = update m.register dst (u32 sum); carry = ltb (2 ^ 32 - 1) sum }
execute (jmp base offset) m = record m { next = m.memory (address m base offset) }
execute ret m = record m {
  register = update m.register rsp (address m rsp 8);
  next = m.memory (address m rsp 0);
}

abbrev pub run : List Instruction → Machine → Machine
run [] m = m
run (i ∷ is) m = run is (execute i m)

abbrev pub setjmp : List Instruction
setjmp =
    mov_store rdi 0 rbx
    ∷ mov_store rdi 8 rbp
    ∷ mov_store rdi 16 r12
    ∷ mov_store rdi 24 r13
    ∷ mov_store rdi 32 r14
    ∷ mov_store rdi 40 r15
    ∷ lea rdx rsp 8
    ∷ mov_store rdi 48 rdx
    ∷ mov_load rdx rsp 0
    ∷ mov_store rdi 56 rdx
    ∷ xor_self rax
    ∷ ret
    ∷ []

abbrev pub longjmp : List Instruction
longjmp =
    xor_self rax
    ∷ cmp rsi 1
    ∷ adc rax rsi
    ∷ mov_load rbx rdi 0
    ∷ mov_load rbp rdi 8
    ∷ mov_load r12 rdi 16
    ∷ mov_load r13 rdi 24
    ∷ mov_load r14 rdi 32
    ∷ mov_load r15 rdi 40
    ∷ mov_load rsp rdi 48
    ∷ jmp rdi 56
    ∷ []
