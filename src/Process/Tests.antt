-- ===== src/Process/Tests.antt =====
-- Processes found by their numbers, and killed.
use os_exercises.Process.Hashed.{Hashed}
