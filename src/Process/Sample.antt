-- ===== src/Process/Sample.antt =====
-- Process 1 with the child 2, which runs: the data of tests.
use os_exercises.Base.{
  ℕ, ◌+◌, ◌≡◌, refl, inl, inr, false, Option, none, some, List, [], ◌∷◌, arith, leb, ◌==◌,
  if◌then◌else◌, Bool-cases,
}
use os_exercises.Sched.{Kernel, proc_runnable, proc_sleeping}
use os_exercises.Sched.Ready.{IsValid, Picks}
use os_exercises.Family.{Links}
use os_exercises.Family.Children.{Represents}
use os_exercises.Process.{World}

abbrev pub children : ℕ → List ℕ
children q = if q == 1 then 2 ∷ [] else []

abbrev pub links : Links
links = record {
  parent = λ p. if p == 2 then some 1 else some 0;
  cptr = λ p. if p == 1 then some 2 else none;
  yptr = λ p. none;
  optr = λ p. none;
  proc_list = 2 ∷ 1 ∷ [];
  nr_process = 3;
}

abbrev pub kernel : Kernel
kernel = record {
  procs = λ p.
      if p == 2
      then record { state = proc_runnable; wait_state = 0; need_resched = false; runs = 0 }
      else record { state = proc_sleeping; wait_state = 0; need_resched = false; runs = 0 };
  current = 2;
  ready = [];
}

-- Processes 1 and 2 share table 50 and have the address spaces 60 and 61.
abbrev pub world : World
world = record {
  kernel = kernel;
  links = links;
  hash_list = λ b. if b == 241 then 2 ∷ [] else if b == 632 then 1 ∷ [] else [];
  cursor = record { last_pid = 2; next_safe = 8192 };
  tasks = λ p. record {
    pid = p;
    kstack = some p;
    mm = some (60 + p);
    filesp = some 50;
    flags = 0;
    exit_code = 0;
  };
  memory = record {
    procs = λ x. leb x 2;
    stacks = λ x. leb x 2;
    mms = λ x. x == 62;
    pgdirs = λ x. x == 62;
    tables = λ x. x == 50;
  };
  mm_count = λ x. 1;
  files_count = λ x. 2;
}

pub children-Represents : Represents children links
children-Represents = record {
  heads = λ q. ground arith;
  linked = λ q. elim (Bool-cases (q == 1)) [
    | inl e ↦ let at : q ≡ 1 = ground arith in rw at (refl, refl, refl, tt)
    | inr e ↦ rw e tt
  ];
  distinct = λ q. elim (Bool-cases (q == 1)) [
    | inl e ↦ let at : q ≡ 1 = ground arith in rw at (refl, tt)
    | inr e ↦ rw e tt
  ];
}

pub kernel-IsValid : IsValid kernel
kernel-IsValid = record { queued = λ q. ground arith }

-- The scheduling class that takes the first process.
abbrev pub pick_first : List ℕ → Option ℕ
pick_first [] = none
pick_first (p ∷ l) = some p

pub pick_first-Picks : Picks pick_first
pick_first-Picks [] = inl (refl, refl)
pick_first-Picks (p ∷ l) = inr (p, refl, ground arith)
