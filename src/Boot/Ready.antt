-- ===== src/Boot/Ready.antt =====
-- What holds when `entry` of kernel.c has done its initialisations.
use linux_os.Base.{
  ℕ, ◌<◌, ◌≡◌, refl, sym, ap, ◌∙◌, Bool, true, false, ◌&&◌, Option, none, some, [], ◌∷◌, codes,
  ◌==◌, if◌then◌else◌, ◌>>=◌, Bool-cases, inl, inr,
}
use mathlib.Core.Path.{subst}
use linux_os.Lifecycle.Boot.{IsIdle}
use linux_os.Pic.{Pic, enable_irq, clear_bit, i8259_init}
use linux_os.Console.{Console, clear}
use linux_os.Pic.Laws.{is_enabled, is_started, is_enabled-is_started}
use linux_os.Rtc.{rtc_init}
use linux_os.Scheduler.{pit_init}
use linux_os.Interrupts.{keyboard_init}
use linux_os.Process.{Kernel}
use linux_os.Machine.{Machine}
use linux_os.Boot.{
  Boot, Placed, Loaded, Entry, ready, stopped, initialise, mount, entry, multiboot_bootloader_magic,
  print_loaded, print_tables, print, check_flag, with_console,
}

-- The four initialisations, from any state of the controller, leave the masks with the bits 0, 1 and 2
-- of the master and 0 of the slave clear.
masks :
    (prev : ℕ) (s : Pic)
    → let s' = pit_init (rtc_init prev (keyboard_init (i8259_init s))) in
      (s'.master_mask ≡ 0xF8) × (s'.slave_mask ≡ 0xFE)
unfolding pit_init rtc_init keyboard_init i8259_init enable_irq clear_bit
masks prev s = (refl, refl)

-- A predicate on the state in which the first shell is started.
OnReady : (Boot → Type 0) → Option Entry → Type 0
OnReady P none = Unit
OnReady P (some (stopped b)) = Unit
OnReady P (some (ready b)) = P b

module _ (P : Boot → Type 0) where
  OnReady->>= :
      {A : Type 0} (m : Option A) (f : A → Option Entry)
      → ((a : A) → OnReady P (f a))
      → OnReady P (m >>= f)
  unfolding OnReady
  OnReady->>= none f h = tt
  OnReady->>= (some a) f h = h a

  OnReady-if :
      (test : Bool) (x y : Option Entry)
      → OnReady P x
      → OnReady P y
      → OnReady P (if test then x else y)
  OnReady-if true x y h h' = h
  OnReady-if false x y h h' = h'

  OnReady-stopped : (b : Boot) → OnReady P (some (stopped b))
  unfolding OnReady
  OnReady-stopped b = tt

  OnReady-ready : (b : Boot) → P b → OnReady P (some (ready b))
  unfolding OnReady
  OnReady-ready b h = h

-- The initialisations follow the printing, which changes the screen only.
IsInitialised : Loaded → Placed → Boot → Boot → Type 0
IsInitialised l p b b' = (s : Console) × (b' ≡ initialise p (mount l (with_console s b)))

initialised :
    (l : Loaded) (p : Placed) (b : Boot) (s : Console)
    → IsInitialised l p b (initialise p (mount l (with_console s b)))
unfolding IsInitialised
initialised l p b s = (s, refl)

entry-IsInitialised :
    (l : Loaded) (p : Placed) (magic : ℕ) (b : Boot)
    → OnReady (IsInitialised l p b) (entry l p magic b)
unfolding entry
entry-IsInitialised l p magic b =
    let P = IsInitialised l p b in
    let cleared = clear b.machine.console in
    OnReady-if P (magic == multiboot_bootloader_magic) _ _
      (OnReady->>= P (print_loaded l cleared) _ (λ shown.
        OnReady-if P (check_flag l.mbi.flags 4 && check_flag l.mbi.flags 5) _ _
          (OnReady->>= P (print l (codes "Both bits 4 and 5 are set.\n") [] shown) _
            (λ s. OnReady-stopped P (mount l (with_console s b))))
          (OnReady->>= P (print_tables l shown) _ (λ s.
            OnReady-ready P (initialise p (mount l (with_console s b))) (initialised l p b s)))))
      (OnReady->>= P (print l (codes "Invalid magic number: 0x%#x\n") (magic ∷ []) cleared) _
        (λ s. OnReady-stopped P (with_console s b)))

mount-machine : (l : Loaded) (b : Boot) → (mount l b).machine ≡ b.machine
unfolding mount
mount-machine l b = elim (Bool-cases (check_flag l.mbi.flags 3)) [
  | inl given ↦ rw given refl
  | inr absent ↦ rw absent refl
]

-- What `entry` hands over to the first shell.
pub record IsReady (b b' : Boot) : Type 0 where
  pub idle : IsIdle b'.machine
  pub same_kernel : b'.machine.kernel ≡ b.machine.kernel
  pub started : (irq : ℕ) → irq < 16 → is_enabled irq b'.machine.pic ≡ is_started irq
  pub stack : b'.machine.esp0 ≡ 0x800000

initialise-IsReady :
    (p : Placed) (b b' : Boot)
    → b'.machine.kernel ≡ b.machine.kernel
    → b'.machine.terminal_arr ≡ b.machine.terminal_arr
    → IsIdle b.machine
    → IsReady b (initialise p b')
unfolding initialise
initialise-IsReady p b b' kernel front idle = record {
  idle = record {
    no_tasks = λ t. ap (λ (k : Kernel). k.tasks t) kernel ∙ idle.no_tasks t;
    no_front = λ t. ap (λ (a : ℕ → Option ℕ). a t) front ∙ idle.no_front t;
  };
  same_kernel = kernel;
  started = λ irq h.
      let (master, slave) = masks p.prev b'.machine.pic in
      is_enabled-is_started irq
        (pit_init (rtc_init p.prev (keyboard_init (i8259_init b'.machine.pic)))) h master slave;
  stack = refl;
}

-- When `entry` comes to the first shell, no process runs and no terminal has one, as before the boot,
-- the calls' state is what it was, exactly the interrupts of the timer, the keyboard, the slave controller
-- and the clock are enabled, and the kernel's stack for interrupts is that of the first process.
pub entry-IsReady :
    (l : Loaded) (p : Placed) (magic : ℕ) (b b' : Boot)
    → IsIdle b.machine
    → entry l p magic b ≡ some (ready b')
    → IsReady b b'
unfolding OnReady IsInitialised
entry-IsReady l p magic b b' idle e =
    let (s, is) = subst (OnReady (IsInitialised l p b)) e (entry-IsInitialised l p magic b) in
    let same = mount-machine l (with_console s b) in
    subst (IsReady b) (sym is) (
      initialise-IsReady p b (mount l (with_console s b)) (ap (λ (m : Machine). m.kernel) same)
        (ap (λ (m : Machine). m.terminal_arr) same) idle)
