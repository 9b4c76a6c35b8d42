-- ===== src/Files/Valid.antt =====
-- When the table of open files is consistent, and how one entry may change.
use mathlib.Core.Path.{subst}
use os_exercises.Base.{
  ℕ, zero, suc, ◌+◌, ◌≤◌, ◌<◌, ◌≡◌, ◌≢◌, refl, ap, ◌∙◌, Bool, true, false, Option, none, some,
  arith, ◌==◌, ◌&&◌, ◌||◌, if◌then◌else◌, is_some, Bool-cases, inl, inr,
}
use os_exercises.Files.{
  Status, fd_none, fd_init, fd_opened, fd_closed, File, Inodes, Files, nentry, is_init, is_opened,
  is_closed,
}

-- What the status promises, for an entry that `k` unfinished calls use.
abbrev pub Counted : Status → ℕ → File → Type 0
Counted fd_none k f = (f.open_count ≡ 0) × (k ≡ 0)
Counted fd_init k f = (f.open_count ≡ 0) × (k ≡ 0)
Counted fd_opened k f = (f.open_count ≡ k + 1) × (is_some f.node ≡ true)
Counted fd_closed k f = (f.open_count ≡ k) × (0 < k) × (is_some f.node ≡ true)

abbrev pub Entry : ℕ → ℕ → File → Type 0
Entry i k f = (f.fd ≡ i) × Counted f.status k f

abbrev pub is_node : ℕ → Option ℕ → Bool
is_node n none = false
is_node n (some m) = n == m

-- Does the entry hold the inode `n`?
abbrev pub uses : ℕ → File → ℕ
uses n f = if (is_opened f.status || is_closed f.status) && is_node n f.node then 1 else 0

-- How many of the first `m` entries hold it.
abbrev pub users : ℕ → (ℕ → File) → ℕ → ℕ
users n fa zero = 0
users n fa (suc m) = uses n (fa m) + users n fa m

users-same :
    (n : ℕ) (fa fb : ℕ → File) (i m : ℕ)
    → ((j : ℕ) → j ≢ i → fb j ≡ fa j)
    → m ≤ i
    → users n fb m ≡ users n fa m
users-same n fa fb i zero same h = refl
users-same n fa fb i (suc m) same h =
    rw (same m (omega arith), users-same n fa fb i m same (omega arith)) refl

pub users-change :
    (n : ℕ) (fa fb : ℕ → File) (i m : ℕ)
    → ((j : ℕ) → j ≢ i → fb j ≡ fa j)
    → i < m
    → users n fb m + uses n (fa i) ≡ users n fa m + uses n (fb i)
users-change n fa fb i zero same h = absurd (omega arith)
users-change n fa fb i (suc m) same h = elim (Bool-cases (m == i)) [
  | inl e ↦
      let at : m ≡ i = ground arith in
      rw (at, users-same n fa fb i i same (omega arith)) (omega arith)
  | inr e ↦
      let at = same m (ground arith) in
      rw at (omega (arith, users-change n fa fb i m same (ground arith)))
]

pub users-uses : (n : ℕ) (fa : ℕ → File) (i m : ℕ) → i < m → uses n (fa i) ≤ users n fa m
users-uses n fa i zero h = absurd (omega arith)
users-uses n fa i (suc m) h = elim (Bool-cases (m == i)) [
  | inl e ↦ let at : m ≡ i = ground arith in rw at (omega arith)
  | inr e ↦ omega (arith, users-uses n fa i m (ground arith))
]

abbrev pub put_count : (ℕ → ℕ) → ℕ → ℕ → ℕ → ℕ
put_count h i k j = if j == i then k else h j

-- The table `s`, where `held i` unfinished calls use the entry `i`, and `opens n` and `refs n` are
-- the counts that others than the table have on the inode `n`.
pub record IsValid (opens refs held : ℕ → ℕ) (s : Files) : Type 0 where
  pub entries : (i : ℕ) → i < nentry → Entry i (held i) (s.fd_array i)
  pub opened : (n : ℕ) → (s.inodes n).opens ≡ users n s.fd_array nentry + opens n
  pub counted : (n : ℕ) → (s.inodes n).refs ≡ users n s.fd_array nentry + refs n
  pub shared : 0 < s.files_count

-- The counts of the inodes follow the change of an entry from `f` to `g`.
abbrev pub Follows : File → File → Inodes → Inodes → Type 0
Follows f g ns ns' =
    (n : ℕ)
    → ((ns' n).opens + uses n f ≡ (ns n).opens + uses n g)
      × ((ns' n).refs + uses n f ≡ (ns n).refs + uses n g)

pub change-IsValid :
    {opens refs held : ℕ → ℕ} {s : Files} (i k : ℕ) (s' : Files)
    → IsValid opens refs held s
    → i < nentry
    → ((j : ℕ) → j ≢ i → s'.fd_array j ≡ s.fd_array j)
    → Entry i k (s'.fd_array i)
    → Follows (s.fd_array i) (s'.fd_array i) s.inodes s'.inodes
    → s'.files_count ≡ s.files_count
    → IsValid opens refs (put_count held i k) s'
change-IsValid {opens} {refs} {held} {s} i k s' v lt same entry follows shared = record {
  entries = λ j h. elim (Bool-cases (j == i)) [
    | inl e ↦
        let at : j ≡ i = ground arith in
        let count : put_count held i k i ≡ k = ground arith in rw (at, count) entry
    | inr e ↦
        let count : put_count held i k j ≡ held j = rw e refl in
        rw (count, same j (ground arith)) (v.entries j h)
  ];
  opened = λ n.
      omega (arith, v.opened n, follows n, users-change n s.fd_array s'.fd_array i nentry same lt);
  counted = λ n.
      omega (arith, v.counted n, follows n, users-change n s.fd_array s'.fd_array i nentry same lt);
  shared = rw shared v.shared;
}

pub held-IsValid :
    {opens refs held : ℕ → ℕ} {s : Files} (held' : ℕ → ℕ)
    → IsValid opens refs held s
    → ((j : ℕ) → held j ≡ held' j)
    → IsValid opens refs held' s
held-IsValid {s = s} held' v same = record {
  entries = λ j h. subst (λ k. Entry j k (s.fd_array j)) (same j) (v.entries j h);
  opened = v.opened;
  counted = v.counted;
  shared = v.shared;
}

put_count-same : (held : ℕ → ℕ) (i j : ℕ) → put_count held i (held i) j ≡ held j
put_count-same held i j = elim (Bool-cases (j == i)) [
  | inl e ↦ let at : j ≡ i = ground arith in rw at (ground arith)
  | inr e ↦ rw e refl
]

pub put_count-IsValid :
    {opens refs held : ℕ → ℕ} {s : Files} (i : ℕ)
    → IsValid opens refs (put_count held i (held i)) s
    → IsValid opens refs held s
put_count-IsValid {held = held} i v = held-IsValid held v (put_count-same held i)

-- The entries that a call is about to open are left alone.
abbrev pub Frame : Files → Files → Type 0
Frame s s' = (j : ℕ) → is_init (s.fd_array j).status ≡ true → s'.fd_array j ≡ s.fd_array j

pub change-Frame :
    (i : ℕ) (s s' : Files)
    → is_init (s.fd_array i).status ≡ false
    → ((j : ℕ) → j ≢ i → s'.fd_array j ≡ s.fd_array j)
    → Frame s s'
change-Frame i s s' other same j h = elim (Bool-cases (j == i)) [
  | inl e ↦
      let at : j ≡ i = ground arith in
      let clash : is_init (s.fd_array i).status ≡ true = rw at at h in cc (other, clash)
  | inr e ↦ same j (ground arith)
]

pub Frame-trans : (r s t : Files) → Frame r s → Frame s t → Frame r t
Frame-trans r s t f g j h = g j (ap (λ (x : File). is_init x.status) (f j h) ∙ h) ∙ f j h
