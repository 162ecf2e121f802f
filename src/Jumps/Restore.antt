-- ===== src/Jumps/Restore.antt =====
-- shared/src/setjmp_longjmp.rs: what a jump brings back.
use nea.Base.{
  ℕ, ◌+◌, ◌*◌, ◌%◌, ◌^◌, ◌<◌, ◌≤◌, ◌==◌, ◌≡◌, ◌⊎◌, refl, ap, ◌∙◌, arith, if◌then◌else◌, u32, u64,
}
use nea.Jumps.{Machine, run, setjmp, longjmp, rax, rbx, rbp, rsp, rsi, rdi, r12, r13, r14, r15}

-- The buffer lies in memory, apart from the return address on the stack.
pub record IsBuffer (env stack : ℕ) : Type 0 where
  pub aligned : env % 8 ≡ 0
  pub stack_aligned : stack % 8 ≡ 0
  pub in_memory : env + 64 ≤ 2 ^ 64
  pub stack_in_memory : stack + 8 < 2 ^ 64
  pub apart : (stack + 8 ≤ env) ⊎ (env + 64 ≤ stack)

-- Machine `j` goes on where `setjmp`, called on `m`, returns, with a value.
pub record Resumes (m j : Machine) (value : ℕ) : Type 0 where
  same_rbx : j.register rbx ≡ m.register rbx
  same_rbp : j.register rbp ≡ m.register rbp
  same_r12 : j.register r12 ≡ m.register r12
  same_r13 : j.register r13 ≡ m.register r13
  same_r14 : j.register r14 ≡ m.register r14
  same_r15 : j.register r15 ≡ m.register r15
  stack : j.register rsp ≡ m.register rsp + 8
  returns_to : j.next ≡ m.memory (m.register rsp)
  result : j.register rax ≡ value

-- The eight words of the buffer at `env` are those of the other memory.
abbrev pub KeepsBuffer : ℕ → (ℕ → ℕ) → (ℕ → ℕ) → Type 0
KeepsBuffer env before after = (k : ℕ) → k < 8 → after (env + 8 * k) ≡ before (env + 8 * k)

module _ (m : Machine) (buffer : IsBuffer (m.register rdi) (m.register rsp)) where
  abbrev env : ℕ
  env = m.register rdi

  -- What `setjmp` puts in the buffer.
  saved :
      ((run setjmp m).memory (env + 0) ≡ m.register rbx)
      × ((run setjmp m).memory (env + 8) ≡ m.register rbp)
      × ((run setjmp m).memory (env + 16) ≡ m.register r12)
      × ((run setjmp m).memory (env + 24) ≡ m.register r13)
      × ((run setjmp m).memory (env + 32) ≡ m.register r14)
      × ((run setjmp m).memory (env + 40) ≡ m.register r15)
      × ((run setjmp m).memory (env + 48) ≡ m.register rsp + 8)
      × ((run setjmp m).memory (env + 56) ≡ m.memory (m.register rsp))
  saved = ground (arith, buffer.in_memory, buffer.stack_in_memory, buffer.apart)

  setjmp-Resumes : Resumes m (run setjmp m) 0
  setjmp-Resumes = record {
    same_rbx = refl;
    same_rbp = refl;
    same_r12 = refl;
    same_r13 = refl;
    same_r14 = refl;
    same_r15 = refl;
    stack = omega (arith, buffer.stack_in_memory);
    returns_to = ground (arith, buffer.in_memory, buffer.stack_in_memory, buffer.apart);
    result = refl;
  }

  -- A word of the buffer, as `longjmp` addresses it.
  kept_word :
      (later : Machine)
      → later.register rdi ≡ env
      → KeepsBuffer env (run setjmp m).memory later.memory
      → (k : ℕ) → k < 8
      → later.memory (u64 (later.register rdi + 8 * k)) ≡ (run setjmp m).memory (env + 8 * k)
  kept_word later here kept k lt =
      let e : u64 (later.register rdi + 8 * k) ≡ env + 8 * k =
        omega (arith, buffer.in_memory, here) in
      ap later.memory e ∙ kept k lt

  -- `setjmp` with a buffer of eight aligned words in memory, apart from the return address on the
  -- stack, returns 0 to its caller with the six saved registers and the stack as they were. A later
  -- `longjmp` with the same buffer, whose words have not changed, does the same, but returns the
  -- value it is given, or 1 for 0.
  pub longjmp-setjmp :
      (later : Machine)
      → later.register rdi ≡ m.register rdi
      → KeepsBuffer (m.register rdi) (run setjmp m).memory later.memory
      → let value = u32 (later.register rsi) in
        Resumes m (run setjmp m) 0 × Resumes m (run longjmp later) (if value == 0 then 1 else value)
  longjmp-setjmp later here kept =
      let word = kept_word later here kept in
      let (w0, w1, w2, w3, w4, w5, w6, w7) = saved in
      (
        setjmp-Resumes,
        record {
          same_rbx = word 0 (omega arith) ∙ w0;
          same_rbp = word 1 (omega arith) ∙ w1;
          same_r12 = word 2 (omega arith) ∙ w2;
          same_r13 = word 3 (omega arith) ∙ w3;
          same_r14 = word 4 (omega arith) ∙ w4;
          same_r15 = word 5 (omega arith) ∙ w5;
          stack = word 6 (omega arith) ∙ w6;
          returns_to = word 7 (omega arith) ∙ w7;
          result = ground arith;
        },
      )
