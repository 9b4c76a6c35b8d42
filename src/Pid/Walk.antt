-- ===== src/Pid/Walk.antt =====
-- One walk of `get_pid` over the list of processes.
use mathlib.Core.Path.{subst}
use os_exercises.Base.{
  ℕ, ◌≤◌, ◌<◌, ◌≡◌, ◌⊎◌, inl, inr, Bool, true, false, List, [], ◌∷◌, arith, All, ◌==◌, ◌||◌,
  Bool-cases,
}
use os_exercises.Pid.{Cursor, max_pid, blocked, advance, walk}

-- No process has a number from `last_pid` on and below `next_safe`.
abbrev pub Free : Cursor → List ℕ → Type 0
Free c = All (λ q. (q < c.last_pid) ⊎ (c.next_safe ≤ q))

-- No process has a number behind `last_pid` and below `next_safe`.
abbrev pub Safe : Cursor → List ℕ → Type 0
Safe c = All (λ q. (q ≤ c.last_pid) ⊎ (c.next_safe ≤ q))

abbrev pub member : ℕ → List ℕ → Bool
member a [] = false
member a (q ∷ qs) = a == q || member a qs

abbrev pub InRange : Cursor → Type 0
InRange c = (0 < c.last_pid) × (c.last_pid < c.next_safe) × (c.next_safe ≤ max_pid)

abbrev pub Passed : Cursor → ℕ → Type 0
Passed c q = (q < c.last_pid) ⊎ (c.next_safe ≤ q)

advance-InRange : (p : ℕ) (c : Cursor) → blocked p c ≡ false → InRange c → InRange (advance p c)
advance-InRange p c b r = ground arith

advance-Passed : (p : ℕ) (c : Cursor) → InRange c → Passed (advance p c) p
advance-Passed p c r = ground arith

advance_keeps : (p q : ℕ) (c : Cursor) → Passed c q → Passed (advance p c) q
advance_keeps p q c k = ground arith

walk_keeps :
    (ps : List ℕ) (q : ℕ) (c : Cursor) → (walk ps c).0 ≡ false → Passed c q → Passed (walk ps c).1 q
unfolding walk
walk_keeps [] q c e k = k
walk_keeps (p ∷ ps) q c e k = elim (Bool-cases (blocked p c)) [
  | inl b ↦ ground arith
  | inr b ↦ rw b (walk_keeps ps q (advance p c) (rw b at e) (advance_keeps p q c k))
]

pub walk-InRange : (ps : List ℕ) (c : Cursor) → InRange c → InRange (walk ps c).1
unfolding walk
walk-InRange [] c r = r
walk-InRange (p ∷ ps) c r = elim (Bool-cases (blocked p c)) [
  | inl b ↦ rw b (ground arith)
  | inr b ↦ rw b (walk-InRange ps (advance p c) (advance-InRange p c b r))
]

-- A walk to the end leaves a number that no process has, and knows the next one that is taken.
pub walk-Free :
    (ps : List ℕ) (c : Cursor) → InRange c → (walk ps c).0 ≡ false → Free (walk ps c).1 ps
unfolding walk
walk-Free [] c r e = tt
walk-Free (p ∷ ps) c r e = elim (Bool-cases (blocked p c)) [
  | inl b ↦ ground arith
  | inr b ↦
      let ended = (rw b at e) in
      let on : walk ps (advance p c) ≡ walk (p ∷ ps) c = ground arith in
      subst (λ w. Free w.1 (p ∷ ps)) on
        (
          walk_keeps ps p (advance p c) ended (advance-Passed p c r),
          walk-Free ps (advance p c) (advance-InRange p c b r) ended,
        )
]

-- A new start is further on, or at 1 again.
pub walk_grows :
    (ps : List ℕ) (c : Cursor)
    → (walk ps c).0 ≡ true
    → (c.last_pid < (walk ps c).1.last_pid) ⊎ ((walk ps c).1.last_pid ≡ 1)
unfolding walk
walk_grows [] c e = cc
walk_grows (p ∷ ps) c e = elim (Bool-cases (blocked p c)) [
  | inl b ↦ rw b (ground arith)
  | inr b ↦ rw b (ground (arith, walk_grows ps (advance p c) (rw b at e)))
]

-- A free number in front is not passed.
pub walk_below :
    (ps : List ℕ) (c : Cursor) (f : ℕ)
    → member f ps ≡ false
    → f < max_pid
    → c.last_pid ≤ f
    → ((walk ps c).1.last_pid ≤ f) × ((walk ps c).0 ≡ true → c.last_pid < (walk ps c).1.last_pid)
unfolding walk
walk_below [] c f m h le = (le, λ e. cc)
walk_below (p ∷ ps) c f m h le = elim (Bool-cases (blocked p c)) [
  | inl b ↦ rw b (ground arith, λ e. ground arith)
  | inr b ↦
      let (low, grows) = walk_below ps (advance p c) f (ground arith) h (ground arith) in
      rw b (low, λ e. ground (arith, grows e))
]
