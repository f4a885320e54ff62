-- ===== src/Process/Tree.antt =====
-- The processes as a tree for each terminal: the parents, and the process in front.
use linux_os.Base.{ℕ, ◌≡◌, ◌≢◌, sym, ap, ◌∙◌, Option, none, some, arith, update}
use linux_os.Process.{Pcb}

-- Every running process has its own pid in its block, and a running parent on its terminal; a process
-- is the parent of one process at most, besides itself; the process in front of a terminal is a
-- running process of it and no other process's parent; and the current process is in front.
pub record IsTree (tasks : ℕ → ℕ) (pcbs : ℕ → Pcb) (front : ℕ → Option ℕ) (current : ℕ)
    : Type 0 where
  pub running : tasks current ≢ 0
  pub own : (p : ℕ) → tasks p ≢ 0 → (pcbs p).pid ≡ p
  pub parent : (p : ℕ) → tasks p ≢ 0 → tasks (pcbs p).parent_pid ≢ 0
  pub home : (p : ℕ) → tasks p ≢ 0 → (pcbs (pcbs p).parent_pid).terminal_idx ≡ (pcbs p).terminal_idx
  pub only_child :
      (p q : ℕ)
      → tasks p ≢ 0
      → tasks q ≢ 0
      → (pcbs p).parent_pid ≡ (pcbs q).parent_pid
      → (pcbs p).parent_pid ≢ p
      → (pcbs q).parent_pid ≢ q
      → p ≡ q
  pub in_front : (t p : ℕ) → front t ≡ some p → (tasks p ≢ 0) × ((pcbs p).terminal_idx ≡ t)
  pub leaf : (t p q : ℕ) → front t ≡ some p → tasks q ≢ 0 → (pcbs q).parent_pid ≡ p → q ≡ p
  pub current_in_front : front (pcbs current).terminal_idx ≡ some current

module _ {tasks : ℕ → ℕ} {pcbs : ℕ → Pcb} {front : ℕ → Option ℕ} {current : ℕ}
    (v : IsTree tasks pcbs front current) where
  -- Another process in front becomes the current one.
  pub IsTree-switch : (t p : ℕ) → front t ≡ some p → IsTree tasks pcbs front p
  IsTree-switch t p e =
      let (alive, at) = v.in_front t p e in
      record {
        running = alive;
        own = v.own;
        parent = v.parent;
        home = v.home;
        only_child = v.only_child;
        in_front = v.in_front;
        leaf = v.leaf;
        current_in_front = ap front at ∙ e;
      }

  module _ (next terminal : ℕ) (pc : Pcb) (free : tasks next ≡ 0) (its_pid : pc.pid ≡ next)
      (at : pc.terminal_idx ≡ terminal) where
    -- A process on a terminal without one is its own parent.
    pub IsTree-start_root :
        pc.parent_pid ≡ next
        → front terminal ≡ none
        → IsTree
            (update tasks next 1)
            (update pcbs next pc)
            (update front terminal (some next))
            next
    IsTree-start_root root unused = record {
      running = ground arith;
      own = λ p alive. ground (arith, v.own p);
      parent = λ p alive. ground (arith, v.parent p);
      home = λ p alive. ground (arith, v.parent p, v.home p);
      only_child = λ p q a b e n n'. ground (arith, v.only_child p q);
      in_front = λ t p e. ground (arith, v.in_front t p);
      leaf = λ t p q e a c. ground (arith, v.leaf t p q, v.in_front t p, v.parent q);
      current_in_front = ground arith;
    }

    -- A process that the current one starts on its terminal is its child.
    pub IsTree-start_child :
        pc.parent_pid ≡ current
        → terminal ≡ (pcbs current).terminal_idx
        → IsTree
            (update tasks next 1)
            (update pcbs next pc)
            (update front terminal (some next))
            next
    IsTree-start_child child same = record {
      running = ground arith;
      own = λ p alive. ground (arith, v.own p);
      parent = λ p alive. ground (arith, v.parent p, v.running);
      home = λ p alive. ground (arith, v.parent p, v.home p, v.running);
      only_child = λ p q a b e n n'. ground (
        arith,
        v.only_child p q,
        v.running,
        v.current_in_front,
        v.leaf terminal current p,
        v.leaf terminal current q,
        v.parent p,
        v.parent q,
      );
      in_front = λ t p e. ground (arith, v.in_front t p);
      leaf = λ t p q e a c. ground (
        arith,
        v.leaf t p q,
        v.in_front t p,
        v.parent q,
        v.current_in_front,
        v.in_front t current,
      );
      current_in_front = ground arith;
    }

  -- The current process, if it is not its own parent, leaves its terminal to its parent.
  pub IsTree-finish :
      (pcbs current).parent_pid ≢ current
      → IsTree
          (update tasks current 0)
          pcbs
          (update front (pcbs current).terminal_idx (some (pcbs current).parent_pid))
          (pcbs current).parent_pid
  IsTree-finish other =
      let t0 = (pcbs current).terminal_idx in
      let up = (pcbs current).parent_pid in
      record {
        running = ground (arith, v.parent current, v.running);
        own = λ p alive. ground (arith, v.own p);
        parent = λ p alive. ground (arith, v.parent p, v.leaf t0 current p, v.current_in_front);
        home = λ p alive. ground (arith, v.home p);
        only_child = λ p q a b e n n'. ground (arith, v.only_child p q);
        in_front =
            λ t p e. ground (arith, v.in_front t p, v.parent current, v.running, v.home current);
        leaf = λ t p q e a c. ground (arith, v.leaf t p q, v.only_child q current, v.running);
        current_in_front = ground (arith, v.home current, v.running);
      }

-- Two tables of control blocks that agree in what the tree is made of.
abbrev pub SameBlocks : (ℕ → Pcb) → (ℕ → Pcb) → Type 0
SameBlocks a b =
    (p : ℕ)
    → ((b p).pid ≡ (a p).pid)
      × ((b p).parent_pid ≡ (a p).parent_pid)
      × ((b p).terminal_idx ≡ (a p).terminal_idx)

pub IsTree-SameBlocks :
    {tasks : ℕ → ℕ} {a b : ℕ → Pcb} {front : ℕ → Option ℕ} {current : ℕ}
    → SameBlocks a b
    → IsTree tasks a front current
    → IsTree tasks b front current
IsTree-SameBlocks {tasks} {a} {b} {front} {current} same v = record {
  running = v.running;
  own = λ p alive. (same p).0 ∙ v.own p alive;
  parent = λ p alive. rw (same p).1 (v.parent p alive);
  home = λ p alive. rw (same p).1 ((same (a p).parent_pid).2 ∙ v.home p alive ∙ sym (same p).2);
  only_child = λ p q alive alive' e n n'. ground (arith, v.only_child p q, same p, same q);
  in_front = λ t p e. ((v.in_front t p e).0, (same p).2 ∙ (v.in_front t p e).1);
  leaf = λ t p q e alive c. v.leaf t p q e alive (sym (same q).1 ∙ c);
  current_in_front = ap front (same current).2 ∙ v.current_in_front;
}
