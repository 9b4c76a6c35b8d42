-- ===== src/Process/Hashed.antt =====
-- The hash lists hold each process in the list of its number.
use os_exercises.Base.{
  ℕ, ◌<◌, ◌≡◌, ◌≢◌, ◌⊎◌, inl, inr, refl, sym, ◌∙◌, true, none, some, List, [], ◌∷◌, arith, ltb,
  ◌==◌, ◌&&◌, Bool-cases,
}
use os_exercises.Wait.{member}
use os_exercises.Pid.{max_pid}
use os_exercises.Process.{Task, World, pid_hashfn, hash_proc, find_hashed, find_proc}

pub record Hashed (w : World) : Type 0 where
  pub listed :
      (p : ℕ)
      → member p w.links.proc_list ≡ true
      → member p (w.hash_list (pid_hashfn (w.tasks p).pid)) ≡ true
  pub placed :
      (b p : ℕ)
      → member p (w.hash_list b) ≡ true
      → (b ≡ pid_hashfn (w.tasks p).pid) × (member p w.links.proc_list ≡ true)
  pub numbered :
      (p q : ℕ)
      → member p w.links.proc_list ≡ true
      → member q w.links.proc_list ≡ true
      → (w.tasks p).pid ≡ (w.tasks q).pid
      → p ≡ q

pub find_hashed-member :
    (pid : ℕ) (tasks : ℕ → Task) (l : List ℕ)
    → ((find_hashed pid tasks l ≡ none) × ((p : ℕ) → member p l ≡ true → (tasks p).pid ≢ pid))
      ⊎ ((p : ℕ) × (find_hashed pid tasks l ≡ some p) × (member p l ≡ true) × ((tasks p).pid ≡ pid))
unfolding find_hashed
find_hashed-member pid tasks [] = inl (refl, λ p m. absurd (ground (arith, m)))
find_hashed-member pid tasks (q ∷ l) = elim (Bool-cases ((tasks q).pid == pid)) [
  | inl e ↦ inr (q, rw e refl, ground arith, ground arith)
  | inr e ↦ elim (find_hashed-member pid tasks l) [
    | inl (run, other) ↦ inl (
      rw e run,
      λ p m. elim (Bool-cases (p == q)) [
        | inl same ↦ let at : p ≡ q = ground arith in rw at (ground arith)
        | inr differs ↦ other p (ground arith)
      ],
    )
    | inr (p, run, m, is) ↦ inr (p, rw e run, ground arith, is)
  ]
]

-- With the processes in the lists of their numbers, `find_proc` finds the process that has a number
-- if there is one, and only that one; of numbers that no process can have it finds none.
pub find_proc-exact :
    (pid : ℕ) (w : World)
    → Hashed w
    → ((find_proc pid w ≡ none)
        × ((0 < pid)
            → (pid < max_pid)
            → (p : ℕ) → member p w.links.proc_list ≡ true
            → (w.tasks p).pid ≢ pid))
      ⊎ ((p : ℕ) × (find_proc pid w ≡ some p)
          × (member p w.links.proc_list ≡ true)
          × ((w.tasks p).pid ≡ pid)
          × ((q : ℕ) → member q w.links.proc_list ≡ true → (w.tasks q).pid ≡ pid → q ≡ p))
unfolding find_proc
find_proc-exact pid w v = elim (Bool-cases (ltb 0 pid && ltb pid max_pid)) [
  | inr out ↦ inl (rw out refl, λ low high. absurd (ground arith))
  | inl range ↦ elim (find_hashed-member pid w.tasks (w.hash_list (pid_hashfn pid))) [
    | inl (run, other) ↦ inl (rw range run, λ low high p m e. other p (rw e at (v.listed p m)) e)
    | inr (p, run, m, is) ↦
        let (b, held) = v.placed (pid_hashfn pid) p m in
        inr (p, rw range run, held, is, λ q mq e. v.numbered q p mq held (e ∙ sym is))
  ]
]

-- A process with a number of its own enters the lists.
pub hash_proc-finds :
    (pid p : ℕ) (w : World)
    → (w.tasks p).pid ≡ pid
    → 0 < pid
    → pid < max_pid
    → find_proc pid (hash_proc p w) ≡ some p
unfolding find_proc hash_proc find_hashed
hash_proc-finds pid p w is low high = ground (arith, is)
