-- ===== src/Timer/Due.antt =====
-- The list of differences as a list of due times.
use os_exercises.Base.{
  ℕ, ◌+◌, ◌-◌, ◌%◌, ◌^◌, ◌<◌, ◌≡◌, refl, List, [], ◌∷◌, arith, ltb, ◌==◌, if◌then◌else◌,
}
use os_exercises.Timer.{Timer, insert_timer, pass_on, del_timer}

-- When a timer is due, which it is, and whom it wakes.
pub record Due : Type 0 where
  pub time : ℕ
  pub id : ℕ
  pub proc : ℕ

abbrev pub due_at : ℕ → Timer → Due
due_at now t = record { time = now + t.expires; id = t.id; proc = t.proc }

abbrev pub due : ℕ → List Timer → List Due
due now [] = []
due now (t ∷ ts) = due_at now t ∷ due (now + t.expires) ts

-- Insertion behind everything that is due no later.
unfoldable pub insert_due : Due → List Due → List Due
insert_due d [] = d ∷ []
insert_due d (e ∷ ds) =
    let later = e ∷ insert_due d ds in if ltb d.time e.time then d ∷ e ∷ ds else later

unfoldable pub remove_due : ℕ → List Due → List Due
remove_due i [] = []
remove_due i (d ∷ ds) = let later = d ∷ remove_due i ds in if i == d.id then ds else later

-- `add_timer` puts a timer in its place among the due times, behind those that are due at the same
-- tick, and moves no other due time.
pub due-insert_timer :
    (now : ℕ) (t : Timer) (ts : List Timer)
    → due now (insert_timer t ts) ≡ insert_due (due_at now t) (due now ts)
unfolding insert_timer insert_due
due-insert_timer now t [] = refl
due-insert_timer now t (next ∷ ts) = ground (
  arith,
  due-insert_timer (now + next.expires) (record t { expires = t.expires - next.expires }) ts,
)

-- Every timer is due within the 32 bits that `expires` has.
abbrev pub Bounded : ℕ → List Timer → Type 0
Bounded now [] = Unit
Bounded now (t ∷ ts) = (now + t.expires < 2 ^ 32) × Bounded (now + t.expires) ts

due-pass_on :
    (now e : ℕ) (ts : List Timer) → Bounded (now + e) ts → due now (pass_on e ts) ≡ due (now + e) ts
due-pass_on now e [] b = refl
due-pass_on now e (next ∷ ts) b =
    let sum : now + (next.expires + e) % 2 ^ 32 ≡ now + e + next.expires = omega (arith, b.0) in
    ground (arith, sum)

-- `del_timer` takes one timer out and moves no other due time, where the due times fit in 32 bits.
pub due-del_timer :
    (now i : ℕ) (ts : List Timer)
    → Bounded now ts
    → due now (del_timer i ts) ≡ remove_due i (due now ts)
unfolding del_timer remove_due
due-del_timer now i [] b = refl
due-del_timer now i (t ∷ ts) b =
    ground (arith, due-pass_on now t.expires ts b.1, due-del_timer (now + t.expires) i ts b.1)

-- The processes whose timers are due at the next tick, and the other due times, one tick nearer.
unfoldable pub due_next : List Due → List ℕ
due_next [] = []
due_next (d ∷ ds) = let rest = due_next ds in if d.time == 1 then d.proc ∷ rest else rest

unfoldable pub nearer : List Due → List Due
nearer [] = []
nearer (d ∷ ds) =
    let rest = nearer ds in if d.time == 1 then rest else record d { time = d.time - 1 } ∷ rest
