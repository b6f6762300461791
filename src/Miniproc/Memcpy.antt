-- ===== src/Miniproc/Memcpy.antt =====
-- What `memcpy` and `copy_stack` of MiniprocOS leave in memory.
use cs111_operating_system.Prelude.{
  ℕ, zero, suc, ◌+◌, ◌*◌, ◌-◌, ◌^◌, add32, ◌≤◌, ◌<◌, ◌≡◌, ◌⊎◌, refl, Memory, arith, update, ◌≢◌,
  ◌∙◌, ap, ℕ_discrete,
}
use cs111_operating_system.Miniproc.State.{Kernel}
use cs111_operating_system.Miniproc.{memcpy, copy_stack, proc1_stack_addr, proc_stack_size}

pub memcpy_outside :
    (m : Memory) (dst src n x : ℕ)
    → dst + n < 2 ^ 32
    → (x < dst) ⊎ (dst + n ≤ x)
    → memcpy m dst src n x ≡ m x
unfolding memcpy
memcpy_outside m dst src zero x small h = refl
memcpy_outside m dst src (suc n) x small h =
    memcpy_outside (update m dst (m src)) (add32 dst 1) (add32 src 1) n x (omega arith)
      (omega arith)
    ∙ (let there : x ≢ dst = omega arith in ground arith)

-- Between ranges that do not meet and do not reach the highest address, `memcpy` copies every byte, and what was there before counts.
pub memcpy_inside :
    (m : Memory) (dst src n x : ℕ)
    → dst + n < 2 ^ 32
    → src + n < 2 ^ 32
    → (dst + n ≤ src) ⊎ (src + n ≤ dst)
    → dst ≤ x
    → x < dst + n
    → memcpy m dst src n x ≡ m (src + (x - dst))
unfolding memcpy
memcpy_inside m dst src zero x a b h lo hi = absurd (omega arith)
memcpy_inside m dst src (suc n) x a b h lo hi = elim (ℕ_discrete x dst) [
  | yes e ↦
      memcpy_outside (update m dst (m src)) (add32 dst 1) (add32 src 1) n x (omega arith)
        (omega arith)
      ∙ (let here : update m dst (m src) x ≡ m src = ground arith in here ∙ ap m (omega arith))
  | no ne ↦
      memcpy_inside (update m dst (m src)) (add32 dst 1) (add32 src 1) n x (omega arith)
        (omega arith) (omega arith) (omega arith) (omega arith)
      ∙ (let there : dst ≢ add32 src 1 + (x - add32 dst 1) = omega arith in
          let same : add32 src 1 + (x - add32 dst 1) ≡ src + (x - dst) = omega arith in
          ground arith)
]

-- A stack pointer that lies in the stack of process `pid`.
abbrev pub InStack : (pid esp : ℕ) → Type 0
InStack pid esp =
    (proc1_stack_addr + pid * proc_stack_size ≤ esp + proc_stack_size)
    × (esp ≤ proc1_stack_addr + pid * proc_stack_size)

-- The top of the stack of process `pid`.
abbrev pub top : ℕ → ℕ
top pid = proc1_stack_addr + pid * proc_stack_size

module _ (k : Kernel) (dest src dp sp : ℕ) where
  pub copy_stack_memory :
      (k.proc_array dest).pid ≡ dp
      → (k.proc_array src).pid ≡ sp
      → dp < 16
      → sp < 16
      → InStack sp (k.proc_array src).registers.esp
      → (copy_stack k dest src).memory
        ≡ memcpy k.memory
            ((k.proc_array src).registers.esp + top dp - top sp)
            (k.proc_array src).registers.esp
            (top sp - (k.proc_array src).registers.esp)
  unfolding copy_stack
  copy_stack_memory ed es d s i = ground arith

  pub copy_stack_esp :
      (k.proc_array dest).pid ≡ dp
      → (k.proc_array src).pid ≡ sp
      → dp < 16
      → sp < 16
      → InStack sp (k.proc_array src).registers.esp
      → (copy_stack k dest src).proc_array dest ≡ record (k.proc_array dest) {
        registers = record ((k.proc_array dest).registers) {
          esp = (k.proc_array src).registers.esp + top dp - top sp;
          ebp = top dp;
        };
      }
  unfolding copy_stack
  copy_stack_esp ed es d s i = ground arith

pub copy_stack_others :
    (k : Kernel) (dest src i : ℕ) → i ≢ dest → (copy_stack k dest src).proc_array i ≡ k.proc_array i
unfolding copy_stack
copy_stack_others k dest src i h = ground arith

pub copy_stack_current : (k : Kernel) (dest src : ℕ) → (copy_stack k dest src).current ≡ k.current
unfolding copy_stack
copy_stack_current k dest src = refl

-- Copying a stack changes only registers and memory.
pub copy_stack_fields :
    (k : Kernel) (dest src i : ℕ)
    → (((copy_stack k dest src).proc_array i).pid ≡ (k.proc_array i).pid)
      × (((copy_stack k dest src).proc_array i).state ≡ (k.proc_array i).state)
      × (((copy_stack k dest src).proc_array i).queue ≡ (k.proc_array i).queue)
unfolding copy_stack
copy_stack_fields k dest src i = (ground arith, ground arith, ground arith)
