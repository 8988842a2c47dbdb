-- ===== src/Ini/Fuel.antt =====
-- The loop of `parser` ends.
use alias.Outcome.{Outcome}
