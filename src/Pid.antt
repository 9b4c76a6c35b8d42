-- ===== src/Pid.antt =====
-- The allocation of process numbers (`get_pid` of kern/process/proc.c).
pub mod Unique
mod Tests
pub mod Walk
use os_exercises.Base.{
  ℕ, zero, suc, ◌+◌, ◌*◌, Bool, true, false, Option, none, some, List, [], ◌∷◌, ltb, leb, ◌==◌,
  ◌&&◌, if◌then◌else◌,
}

abbrev pub max_process : ℕ
max_process = 4096

abbrev pub max_pid : ℕ
max_pid = max_process * 2

-- The static variables of `get_pid`.
pub record Cursor : Type 0 where
  pub last_pid : ℕ
  pub next_safe : ℕ

abbrev pub cursor : ℕ → ℕ → Cursor
cursor l n = record { last_pid = l; next_safe = n }

-- `++last_pid >= next_safe` at the process `p`: the walk starts again.
abbrev pub blocked : ℕ → Cursor → Bool
blocked p c = p == c.last_pid && leb c.next_safe (c.last_pid + 1)

-- The cursor for the next walk.
abbrev pub restart : Cursor → Cursor
restart c = cursor (if leb max_pid (c.last_pid + 1) then 1 else c.last_pid + 1) max_pid

-- The cursor behind the process `p`.
abbrev pub advance : ℕ → Cursor → Cursor
advance p c =
    if p == c.last_pid
    then cursor (c.last_pid + 1) c.next_safe
    else if ltb c.last_pid p && ltb p c.next_safe
    then cursor c.last_pid p
    else c

-- A walk over `proc_list`, of which the numbers are given: must it start again, and where?
unfoldable pub walk : List ℕ → Cursor → Bool × Cursor
walk [] c = (false, c)
walk (p ∷ ps) c =
    let rest = walk ps (advance p c) in if blocked p c then (true, restart c) else rest

-- The walks from `repeat` on; `none` when the fuel runs out.
unfoldable pub repeat : ℕ → List ℕ → Cursor → Option Cursor
repeat zero pids c = none
repeat (suc fuel) pids c = elim (walk pids c).0 [
  | true ↦ repeat fuel pids (walk pids c).1
  | false ↦ some (walk pids c).1
]

-- Two sweeps over all numbers are enough.
abbrev pub fuel : ℕ
fuel = 2 * max_pid

-- `get_pid`: the new cursor, whose `last_pid` is the result.
unfoldable pub get_pid : List ℕ → Cursor → Option Cursor
get_pid pids c =
    let l = c.last_pid + 1 in
    if leb max_pid l
    then repeat fuel pids (cursor 1 max_pid)
    else if leb c.next_safe l
    then repeat fuel pids (cursor l max_pid)
    else some (cursor l c.next_safe)
