-- ===== src/Jumps/Tests.antt =====
-- A machine whose stack is at 4096 and which calls `setjmp` with a buffer at 8192, and one that
-- jumps there with the value 7.
use nea.Base.{◌+◌, ◌==◌, refl, arith, inl, false, if◌then◌else◌}
use nea.Jumps.{Machine, run, setjmp, longjmp, rdi, rsp, rsi}
use nea.Jumps.Restore.{IsBuffer, Resumes, longjmp-setjmp}

abbrev caller : Machine
caller = record {
  register = λ r. if r == rdi then 8192 else if r == rsp then 4096 else 100 + r;
  memory = λ a. if a == 4096 then 5555 else 0;
  carry = false;
  next = 0;
}

abbrev jumper : Machine
jumper = record {
  register = λ r. if r == rdi then 8192 else if r == rsi then 7 else 0;
  memory = (run setjmp caller).memory;
  carry = false;
  next = 0;
}

caller-IsBuffer : IsBuffer (caller.register rdi) (caller.register rsp)
caller-IsBuffer = record {
  aligned = refl;
  stack_aligned = refl;
  in_memory = omega arith;
  stack_in_memory = omega arith;
  apart = inl (omega arith);
}

longjmp-setjmp_example :
    Resumes caller (run setjmp caller) 0 × Resumes caller (run longjmp jumper) 7
longjmp-setjmp_example = longjmp-setjmp caller caller-IsBuffer jumper refl (λ k lt. refl)
