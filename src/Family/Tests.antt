-- ===== src/Family/Tests.antt =====
-- Process 1 with the children 4, 3 and 2, and process 5, which is new.
use os_exercises.Base.{
  ℕ, ◌≡◌, refl, Bool-cases, inl, inr, false, none, some, List, [], ◌∷◌, arith, ◌==◌, if◌then◌else◌,
}
use os_exercises.Wait.{unlink}
use os_exercises.Sched.{Kernel, proc_runnable}
use os_exercises.Family.{Links, remove_links}
use os_exercises.Family.Children.{Represents, put_children}
use os_exercises.Family.Removal.{remove_links-Represents}

abbrev children : ℕ → List ℕ
children q = if q == 1 then 4 ∷ 3 ∷ 2 ∷ [] else []

abbrev links : Links
links = record {
  parent = λ p. if p == 1 then some 0 else some 1;
  cptr = λ p. if p == 1 then some 4 else none;
  yptr = λ p. if p == 3 then some 4 else if p == 2 then some 3 else none;
  optr = λ p. if p == 4 then some 3 else if p == 3 then some 2 else none;
  proc_list = 4 ∷ 3 ∷ 2 ∷ 1 ∷ [];
  nr_process = 4;
}

links-Represents : Represents children links
links-Represents = record {
  heads = λ q. ground arith;
  linked = λ q. elim (Bool-cases (q == 1)) [
    | inl e ↦
        let at : q ≡ 1 = ground arith in
        rw at (refl, refl, refl, (refl, refl, refl, (refl, refl, refl, tt)))
    | inr e ↦ rw e tt
  ];
  distinct = λ q. elim (Bool-cases (q == 1)) [
    | inl e ↦ let at : q ≡ 1 = ground arith in rw at (refl, (refl, (refl, tt)))
    | inr e ↦ rw e tt
  ];
}

remove_links-Represents_example :
    Represents (put_children children 1 (unlink 3 (4 ∷ 3 ∷ 2 ∷ []))) (remove_links 3 links)
remove_links-Represents_example = remove_links-Represents links 1 3 links-Represents refl

abbrev kernel : Kernel
kernel = record {
  procs = λ p. record { state = proc_runnable; wait_state = 0; need_resched = false; runs = 0 };
  current = 2;
  ready = [];
}

-- Process 2 has the children 7 and 6.
abbrev more_children : ℕ → List ℕ
more_children q = if q == 1 then 2 ∷ [] else if q == 2 then 7 ∷ 6 ∷ [] else []

abbrev more_links : Links
more_links = record {
  parent = λ p. if p == 2 then some 1 else some 2;
  cptr = λ p. if p == 1 then some 2 else if p == 2 then some 7 else none;
  yptr = λ p. if p == 6 then some 7 else none;
  optr = λ p. if p == 7 then some 6 else none;
  proc_list = 7 ∷ 6 ∷ 2 ∷ 1 ∷ [];
  nr_process = 4;
}

more_links-Represents : Represents more_children more_links
more_links-Represents = record {
  heads = λ q. ground arith;
  linked = λ q. elim (Bool-cases (q == 1)) [
    | inl e ↦ let at : q ≡ 1 = ground arith in rw at (refl, refl, refl, tt)
    | inr e ↦ elim (Bool-cases (q == 2)) [
      | inl two ↦ let at : q ≡ 2 = ground arith in rw at (refl, refl, refl, (refl, refl, refl, tt))
      | inr other ↦ rw (e, other) tt
    ]
  ];
  distinct = λ q. elim (Bool-cases (q == 1)) [
    | inl e ↦ rw e (refl, tt)
    | inr e ↦ elim (Bool-cases (q == 2)) [
      | inl two ↦ rw (e, two) (refl, (refl, tt))
      | inr other ↦ rw (e, other) tt
    ]
  ];
}
