-- ===== src/Pid/Unique.antt =====
-- `get_pid` finds a number that no process has, whenever there is one.
use os_exercises.Base.{
  ℕ, zero, suc, ◌+◌, ◌-◌, ◌≤◌, ◌<◌, ◌≡◌, ◌≢◌, inl, inr, refl, true, false, some, List, [], ◌∷◌,
  arith, length, leb, ◌==◌, if◌then◌else◌, Bool-cases,
}
use os_exercises.Pid.{Cursor, cursor, max_pid, walk, repeat, fuel, get_pid}
use os_exercises.Pid.Walk.{
  Free, Safe, member, InRange, walk-InRange, walk-Free, walk_grows, walk_below,
}

-- The restarts that are left at most, with `f` free.
abbrev restarts : Cursor → ℕ → ℕ
restarts c f = if leb c.last_pid f then f - c.last_pid else max_pid - c.last_pid + f

module _ (pids : List ℕ) (f : ℕ) (free : member f pids ≡ false) (pos : 0 < f)
    (lt : f < max_pid) where
  fewer :
      (c : Cursor) → InRange c → (walk pids c).0 ≡ true → restarts (walk pids c).1 f < restarts c f
  fewer c r e =
      let range = walk-InRange pids c r in
      elim (Bool-cases (leb c.last_pid f)) [
        | inl le ↦
            let (low, grows) = walk_below pids c f free lt (ground arith) in
            let further = grows e in ground arith
        | inr gt ↦ ground (arith, walk_grows pids c e)
      ]

  repeat-Fresh :
      (k : ℕ) (c : Cursor)
      → InRange c
      → restarts c f < k
      → (c' : Cursor) × (repeat k pids c ≡ some c') × InRange c' × Free c' pids
  unfolding repeat
  repeat-Fresh zero c r h = absurd (omega arith)
  repeat-Fresh (suc k) c r h = elim (Bool-cases (walk pids c).0) [
    | inl e ↦
        let (c', run, range, open_from) =
          repeat-Fresh k (walk pids c).1 (walk-InRange pids c r) (omega (arith, fewer c r e)) in
        (c', ground arith, range, open_from)
    | inr e ↦ ((walk pids c).1, ground arith, walk-InRange pids c r, walk-Free pids c r e)
  ]

  get_pid-Fresh :
      (c : Cursor)
      → Safe c pids
      → c.next_safe ≤ max_pid
      → (c' : Cursor) × (get_pid pids c ≡ some c') × InRange c' × Free c' pids
  unfolding get_pid
  get_pid-Fresh c s h = elim (Bool-cases (leb max_pid (c.last_pid + 1))) [
    | inl top ↦
        let (c', run, range, open_from) =
          repeat_all (cursor 1 max_pid) (omega arith) (ground arith) in
        (c', ground arith, range, open_from)
    | inr low ↦ elim (Bool-cases (leb c.next_safe (c.last_pid + 1))) [
      | inl unsure ↦
          let (c', run, range, open_from) =
            repeat_all (cursor (c.last_pid + 1) max_pid) (ground arith) (ground arith) in
          (c', ground arith, range, open_from)
      | inr sure ↦ (
        cursor (c.last_pid + 1) c.next_safe,
        ground arith,
        (ground arith, ground arith, h),
        further pids s,
      )
    ]
  ]
    where
      further : (qs : List ℕ) → Safe c qs → Free (cursor (c.last_pid + 1) c.next_safe) qs
      further [] s = tt
      further (q ∷ qs) s = (ground arith, further qs s.1)

      repeat_all :
          (d : Cursor)
          → InRange d
          → restarts d f < fuel
          → (c' : Cursor) × (repeat fuel pids d ≡ some c') × InRange c' × Free c' pids
      repeat_all d r h = repeat-Fresh fuel d r h

-- Fewer than `n` numbers do not fill the range from 1 to `n`.
drop_all : ℕ → List ℕ → List ℕ
drop_all a [] = []
drop_all a (q ∷ qs) = let rest = drop_all a qs in if a == q then rest else q ∷ rest

length-drop_all :
    (a : ℕ) (qs : List ℕ)
    → (length (drop_all a qs) ≤ length qs)
      × (member a qs ≡ true → length (drop_all a qs) < length qs)
unfolding drop_all
length-drop_all a [] = (omega arith, λ m. cc)
length-drop_all a (q ∷ qs) =
    let (le, lt) = length-drop_all a qs in (ground arith, λ m. ground (arith, lt))

member-drop_all : (a b : ℕ) (qs : List ℕ) → b ≢ a → member b (drop_all a qs) ≡ member b qs
unfolding drop_all
member-drop_all a b [] ne = refl
member-drop_all a b (q ∷ qs) ne = ground (arith, member-drop_all a b qs ne)

gap : (n : ℕ) (qs : List ℕ) → length qs < n → (f : ℕ) × (0 < f) × (f ≤ n) × (member f qs ≡ false)
gap zero qs h = absurd (omega arith)
gap (suc n) qs h = elim (Bool-cases (member (suc n) qs)) [
  | inr e ↦ (suc n, omega arith, omega arith, e)
  | inl e ↦
      let (le, lt) = length-drop_all (suc n) qs in
      let (f, pos, low, out) = gap n (drop_all (suc n) qs) (omega (arith, lt e)) in
      (f, pos, omega arith, rw (← member-drop_all (suc n) f qs (omega arith)) out)
]

-- While there are fewer processes than numbers and the cursor is right about the numbers in use,
-- `get_pid` ends with a number in the range from 1 to MAX_PID - 1 that no process has, and its
-- cursor is right about the numbers that follow, the new process counted in, so that the next call
-- can trust it.
pub get_pid-fresh :
    (pids : List ℕ) (c : Cursor)
    → Safe c pids
    → c.next_safe ≤ max_pid
    → length pids < max_pid - 1
    → (c' : Cursor) × (get_pid pids c ≡ some c')
      × (0 < c'.last_pid)
      × (c'.last_pid < max_pid)
      × (member c'.last_pid pids ≡ false)
      × Safe c' (c'.last_pid ∷ pids)
      × (c'.next_safe ≤ max_pid)
get_pid-fresh pids c s h few =
    let (f, pos, low, out) = gap (max_pid - 1) pids few in
    let (c', run, range, free) = get_pid-Fresh pids f out pos (omega arith) c s h in
    (
      c',
      run,
      range.0,
      omega arith,
      not_taken c' range pids free,
      (inl (omega arith), weaker c' pids free),
      range.2,
    )
  where
    not_taken : (d : Cursor) → InRange d → (qs : List ℕ) → Free d qs → member d.last_pid qs ≡ false
    not_taken d r [] g = refl
    not_taken d r (q ∷ qs) g = ground (arith, not_taken d r qs g.1)

    weaker : (d : Cursor) (qs : List ℕ) → Free d qs → Safe d qs
    weaker d [] g = tt
    weaker d (q ∷ qs) g = (ground arith, weaker d qs g.1)
