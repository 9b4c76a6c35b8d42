-- ===== src/Family/Search.antt =====
-- The search of `do_wait` along the children.
use os_exercises.Base.{
  ℕ, ◌≡◌, refl, Bool, true, false, Option, none, some, List, [], ◌∷◌, length, if◌then◌else◌,
  Bool-cases, inl, inr,
}
use os_exercises.Sched.{Kernel, is_zombie}
use os_exercises.Wait.{first}
use os_exercises.Family.{Links, find_zombie}
use os_exercises.Family.Children.{Linked, Represents}

abbrev pub has_any : List ℕ → Bool
has_any [] = false
has_any (p ∷ cs) = true

-- The first zombie of the list.
abbrev pub first_zombie : Kernel → List ℕ → Option ℕ
first_zombie k [] = none
first_zombie k (p ∷ cs) = if is_zombie (k.procs p).state then some p else first_zombie k cs

find_zombie-Linked :
    (l : Links) (k : Kernel) (q : ℕ) (before : Option ℕ) (cs : List ℕ)
    → Linked l q before cs
    → find_zombie (length cs) (first cs) l k ≡ some (has_any cs, first_zombie k cs)
unfolding find_zombie
find_zombie-Linked l k q before [] h = refl
find_zombie-Linked l k q before (p ∷ cs) h = elim (Bool-cases (is_zombie (k.procs p).state)) [
  | inl e ↦ rw e refl
  | inr e ↦ rw (e, h.1, find_zombie-Linked l k q (some p) cs h.3) refl
]

-- Where the pointers represent lists of children, the search of `do_wait` for any child ends after
-- at most one round per child; it says whether the process has a child, and finds its youngest
-- zombie child if there is one.
pub find_zombie-youngest :
    {children : ℕ → List ℕ} (l : Links) (k : Kernel) (q : ℕ)
    → Represents children l
    → find_zombie (length (children q)) (l.cptr q) l k
      ≡ some (has_any (children q), first_zombie k (children q))
find_zombie-youngest {children} l k q v =
    rw (v.heads q) (find_zombie-Linked l k q none (children q) (v.linked q))
