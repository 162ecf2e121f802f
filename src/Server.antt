-- ===== src/Server.antt =====
-- nea/src/lib.rs: the arena that a thread allocates from, by the number in its thread-local
-- `CURRENT_ARENA`, and the global allocator over it. An allocation that jumps back to the worker is
-- a value here, as is a call of the system allocator.
pub mod Arenas
mod Tests
use nea.Base.{
  ℕ, ◌-◌, ◌^◌, ◌==◌, ◌||◌, Bool, true, false, Option, none, some, if◌then◌else◌, List, [], ◌∷◌,
  Result, ok, panic, unwrap_failed, assertion_failed,
}
use nea.Allocator.{Layout, ServerAlloc, try_allocate_in_initial_bucket, try_allocate_in_bucket}

abbrev pub arena_index_before_main : ℕ
arena_index_before_main = 2 ^ 32 - 1

abbrev pub arena_index_executor : ℕ
arena_index_executor = 2 ^ 32 - 2

abbrev pub arena_index_reactor : ℕ
arena_index_reactor = 2 ^ 32 - 3

abbrev pub arena_index_uninitialized : ℕ
arena_index_uninitialized = 2 ^ 32 - 4

-- What an allocation ends in: a null pointer, a block, a call of the system allocator, or a jump.
pub data Allocation : Type 0 where
  null : Allocation
  block : ℕ → Allocation
  system : Layout → Allocation
  jumps : Allocation

abbrev pub or_null : Option ℕ → Allocation
or_null none = null
or_null (some p) = block p

abbrev pub or_system : Layout → Option ℕ → Allocation
or_system l none = system l
or_system l (some p) = block p

abbrev pub or_jump : Option ℕ → Allocation
or_jump none = jumps
or_jump (some p) = block p

-- `GlobalAlloc::alloc`.
pub alloc : ℕ → ServerAlloc → Layout → Allocation × ServerAlloc
alloc arena a l =
    let (initial, a1) = try_allocate_in_initial_bucket a l in
    let (own, a2) = try_allocate_in_bucket a l arena in
    if arena == arena_index_before_main
    then (or_null initial, a1)
    else if arena == arena_index_executor || arena == arena_index_reactor
    then (or_system l initial, a1)
    else if arena == arena_index_uninitialized
    then (null, a)
    else (or_jump own, a2)

-- `roc_panic`, with the message at its pointer, and with what that is as UTF-8: it jumps back to the
-- worker, unless the pointer is null or the message no text.
abbrev roc_panic : Option (Option (List ℕ)) → Result Allocation
roc_panic none = panic assertion_failed
roc_panic (some none) = panic unwrap_failed
roc_panic (some (some message)) = ok jumps

-- `roc_alloc`, with the layout that `Layout::from_size_align` made of its arguments.
pub roc_alloc : ℕ → ServerAlloc → Option Layout → Result (Allocation × ServerAlloc)
roc_alloc arena a none = panic unwrap_failed
roc_alloc arena a (some l) =
    let (own, a2) = try_allocate_in_bucket a l arena in ok (or_jump own, a2)

-- `GlobalAlloc::realloc`, as the trait provides it: a new block, into which the contents are copied;
-- contents are not modelled.
abbrev realloc : ℕ → ServerAlloc → Layout → ℕ → Allocation × ServerAlloc
realloc arena a l new_size = alloc arena a (record l { size = new_size })

-- A null pointer is a call of `roc_panic`, which jumps.
abbrev jump_at_null : Allocation → Allocation
jump_at_null null = jumps
jump_at_null (block p) = block p
jump_at_null (system l) = system l
jump_at_null jumps = jumps

abbrev roc_realloc : ℕ → ServerAlloc → Option Layout → ℕ → Result (Allocation × ServerAlloc)
roc_realloc arena a none new_size = panic unwrap_failed
roc_realloc arena a (some l) new_size =
    let (given, a') = realloc arena a l new_size in ok (jump_at_null given, a')

-- `dealloc` and `roc_dealloc` give nothing back.
pub dealloc : ServerAlloc → ℕ → ServerAlloc
dealloc a ptr = a
