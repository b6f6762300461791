-- ===== src/Miniproc/Fork.antt =====
-- Which descriptor `do_fork` of MiniprocOS picks, and what it puts there.
use cs111_operating_system.Prelude.{
  if◌then◌else◌, update_ne, ◌∙◌, ℕ, zero, suc, ◌+◌, ◌-◌, ◌%◌, ◌≤◌, ◌<◌, ◌≡◌, ◌⊎◌, arith, inl, inr,
  ◌≢◌, ℕ_discrete, some, true, false, Bool-cases, ◌&&◌, ◌||◌, not, ◌==◌, minus_one,
}
use cs111_operating_system.Miniproc.State.{Kernel, Process, ProcState, is_empty, nprocs}
use cs111_operating_system.Miniproc.{
  set_process, fork_slot, do_fork, copy_stack, Forked, proc_stack_size, memcpy,
}
use cs111_operating_system.Miniproc.Inv.{Inv}
use cs111_operating_system.Miniproc.Memcpy.{
  InStack, top, copy_stack_memory, copy_stack_esp, copy_stack_others, copy_stack_current,
  memcpy_outside, memcpy_inside,
}

-- Steps round the array from `c` to `i`.
abbrev pub gap : (c i : ℕ) → ℕ
gap c i = (i + 16 - c) % 16

pub record Slot (procs : ℕ → Process) (parent c r : ℕ) : Type 0 where
  pub bounded : r < 16
  pub nonzero : r ≢ 0
  pub free : (r ≡ parent) ⊎ (is_empty (procs r).state ≡ true)
  pub exhausted :
      r ≡ parent
      → (i : ℕ) → i < 16
      → i ≢ 0
      → gap c i < gap c parent
      → is_empty (procs i).state ≡ false

fork_slot-Slot :
    (procs : ℕ → Process) (f parent c : ℕ)
    → gap c parent < f
    → c < 16
    → parent < 16
    → parent ≢ 0
    → (r : ℕ) × (fork_slot procs f parent c ≡ some r) × Slot procs parent c r
unfolding fork_slot
fork_slot-Slot procs zero parent c h hc hp nz = absurd (omega arith)
fork_slot-Slot procs (suc f) parent c h hc hp nz =
    elim (Bool-cases ((not (is_empty (procs c).state) && not (c == parent)) || c == 0)) [
      | inl go ↦
          let (r, e, s) =
            fork_slot-Slot procs f parent ((c + 1) % 16) (ground arith) (omega arith) hp nz in
          (
            r,
            ground arith,
            record {
              bounded = s.bounded;
              nonzero = s.nonzero;
              free = s.free;
              exhausted = λ q i hi ni g. elim (ℕ_discrete i c) [
                | yes here ↦ ground arith
                | no there ↦ s.exhausted q i hi ni (omega arith)
              ];
            },
          )
      | inr stop ↦ (
        c,
        ground arith,
        record {
          bounded = hc;
          nonzero = ground arith;
          free = ground arith;
          exhausted = λ q i hi ni g. absurd (omega arith);
        },
      )
    ]

-- Process `c` of `k'` is a copy of process `p` of `k` in a descriptor that was empty.
pub record Child (k k' : Kernel) (p c : ℕ) : Type 0 where
  pub bounded : c < nprocs
  pub nonzero : c ≢ 0
  pub other : c ≢ p
  pub was_empty : (k.proc_array c).state ≡ ProcState.empty
  pub now_runnable : (k'.proc_array c).state ≡ ProcState.runnable
  pub pid : (k'.proc_array c).pid ≡ c
  pub queue : (k'.proc_array c).queue ≡ (k.proc_array c).queue
  pub esp : ℕ
  pub registers :
      (k'.proc_array c).registers
      ≡ record ((k.proc_array p).registers) { eax = 0; esp = esp; ebp = top c }
  pub offset : esp + top p ≡ (k.proc_array p).registers.esp + top c
  pub stack :
      (x : ℕ)
      → esp ≤ x
      → x < top c
      → k'.memory x ≡ k.memory ((k.proc_array p).registers.esp + (x - esp))
  pub others : (i : ℕ) → i ≢ c → k'.proc_array i ≡ k.proc_array i
  pub memory : (x : ℕ) → (x + proc_stack_size < top c) ⊎ (top c ≤ x) → k'.memory x ≡ k.memory x
  pub current : k'.current ≡ k.current

-- The kernel as `do_fork` hands it to `copy_stack`.
abbrev pub with_child : (k : Kernel) (p c : ℕ) → Kernel
with_child k p c =
    let par = k.proc_array p in
    let old = k.proc_array c in
    set_process k c (record old {
      pid = c;
      registers = record (par.registers) { eax = 0 };
      state = ProcState.runnable;
    })

module _ (k : Kernel) (p c : ℕ) (hp : p < nprocs) (hc : c < nprocs) (nz : c ≢ 0) (ne : c ≢ p)
    (pid : (k.proc_array p).pid ≡ p) (em : is_empty (k.proc_array c).state ≡ true)
    (ins : InStack p (k.proc_array p).registers.esp) where
  child_memory :
      (copy_stack (with_child k p c) c p).memory
      ≡ memcpy k.memory
          ((k.proc_array p).registers.esp + top c - top p)
          (k.proc_array p).registers.esp
          (top p - (k.proc_array p).registers.esp)
  child_memory = ground (
    arith,
    update_ne k.proc_array c p ((with_child k p c).proc_array c),
    copy_stack_memory (with_child k p c) c p c p,
  )

  child_entry :
      (copy_stack (with_child k p c) c p).proc_array c ≡ record ((with_child k p c).proc_array c) {
        registers = record ((k.proc_array p).registers) {
          eax = 0;
          esp = (k.proc_array p).registers.esp + top c - top p;
          ebp = top c;
        };
      }
  child_entry = ground (arith, copy_stack_esp (with_child k p c) c p c p)

  copy_stack-Child : Child k (copy_stack (with_child k p c) c p) p c
  copy_stack-Child = record {
    bounded = hc;
    nonzero = nz;
    other = ne;
    was_empty = ground arith;
    now_runnable = ground (arith, child_entry);
    pid = ground (arith, child_entry);
    queue = ground (arith, child_entry);
    esp = (k.proc_array p).registers.esp + top c - top p;
    registers = ground (arith, child_entry);
    offset = omega arith;
    stack = λ x lo hi.
        rw child_memory (
          memcpy_inside k.memory _ _ _ x (omega arith) (omega arith) (omega arith) lo
            (omega arith));
    others = λ i h.
        copy_stack_others (with_child k p c) c p i h ∙ update_ne k.proc_array c i _ (omega arith);
    memory = λ x h. rw child_memory (memcpy_outside k.memory _ _ _ x (omega arith) (omega arith));
    current = copy_stack_current (with_child k p c) c p;
  }

pub fork_slot-current :
    {k : Kernel}
    → Inv k
    → k.current < 15
    → (r : ℕ) × (fork_slot k.proc_array 17 k.current (k.current + 1) ≡ some r)
      × Slot k.proc_array k.current (k.current + 1) r
fork_slot-current {k} inv lt =
    fork_slot-Slot k.proc_array 17 k.current (k.current + 1) (omega arith) (omega arith)
      inv.current_in inv.current_nonzero

pub do_fork_of_slot :
    (k : Kernel) (p r : ℕ)
    → (k.proc_array p).pid ≡ p
    → fork_slot k.proc_array 17 p (p + 1) ≡ some r
    → do_fork k p ≡ (
        if r == p
        then Forked.returned k minus_one
        else Forked.returned (copy_stack (with_child k p r) r p) r)
unfolding do_fork
do_fork_of_slot k p r pid e = ground arith

-- No descriptor but 0 is left for a new process.
abbrev pub IsFull : Kernel → Type 0
IsFull k = (i : ℕ) → i < nprocs → i ≢ 0 → is_empty (k.proc_array i).state ≡ false

-- A process whose number is below 15 and whose stack pointer lies in its stack forks in one of two
-- ways: `do_fork` returns the number of a descriptor that was empty and now holds a runnable copy
-- of the process, with 0 in eax, its own copy of the stack, esp at the same place in that copy, ebp
-- at the top of the child's stack whatever the parent has in ebp, and the waiting queue that the
-- descriptor had before, and nothing else has changed; or no descriptor was empty, it returns -1 and changes
-- nothing.
pub do_fork_copies :
    {k : Kernel}
    → Inv k
    → k.current < 15
    → InStack k.current (k.proc_array k.current).registers.esp
    → ((c : ℕ) × (k' : Kernel) × (do_fork k k.current ≡ Forked.returned k' c)
        × Child k k' k.current c)
      ⊎ ((do_fork k k.current ≡ Forked.returned k minus_one) × IsFull k)
do_fork_copies {k} inv lt ins =
    let (r, e, s) = fork_slot-current inv lt in
    let pid : (k.proc_array k.current).pid ≡ k.current = inv.pids k.current inv.current_in in
    elim (ℕ_discrete r k.current) [
      | yes own ↦ inr (
        ground (arith, do_fork_of_slot k k.current r pid e),
        λ i hi ni. elim (ℕ_discrete i k.current) [
          | yes here ↦ ground (arith, inv.current_runnable)
          | no there ↦ s.exhausted own i hi ni (omega arith)
        ],
      )
      | no ne ↦ inl (
        r,
        copy_stack (with_child k k.current r) r k.current,
        ground (arith, do_fork_of_slot k k.current r pid e),
        copy_stack-Child k k.current r inv.current_in s.bounded s.nonzero ne pid
            (ground (arith, s.free)) ins,
      )
    ]

-- The search of process 15 begins behind the last descriptor of the array.
pub do_fork_overruns : {k : Kernel} → Inv k → k.current ≡ 15 → do_fork k k.current ≡ Forked.overrun
unfolding do_fork fork_slot
do_fork_overruns {k} inv e = ground (arith, inv.pids k.current)
