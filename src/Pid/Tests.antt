-- ===== src/Pid/Tests.antt =====
-- Process numbers on concrete lists.
use os_exercises.Base.{◌≤◌, ◌<◌, ◌≡◌, refl, inl, false, some, [], ◌∷◌, arith}
use os_exercises.Pid.{Cursor, cursor, max_pid, walk, repeat, get_pid}
use os_exercises.Pid.Walk.{Safe, member}
use os_exercises.Pid.Unique.{get_pid-fresh}

-- The numbers wrap round, and the walk starts again behind 1 and 2.
wraps : get_pid (2 ∷ 1 ∷ 7 ∷ []) (cursor 8191 8192) ≡ some (cursor 3 7)
unfolding get_pid repeat walk
wraps = refl

get_pid-fresh_example :
    (c' : Cursor) × (get_pid (2 ∷ 1 ∷ 7 ∷ []) (cursor 8191 8192) ≡ some c')
    × (0 < c'.last_pid)
    × (c'.last_pid < max_pid)
    × (member c'.last_pid (2 ∷ 1 ∷ 7 ∷ []) ≡ false)
    × Safe c' (c'.last_pid ∷ 2 ∷ 1 ∷ 7 ∷ [])
    × (c'.next_safe ≤ max_pid)
get_pid-fresh_example =
    get_pid-fresh (2 ∷ 1 ∷ 7 ∷ []) (cursor 8191 8192)
      (inl (omega arith), (inl (omega arith), (inl (omega arith), tt))) (omega arith) (omega arith)
