-- ===== src/Sem/Sound.antt =====
-- Any sequence of calls on a semaphore.
use os_exercises.Sem.World.{World}
