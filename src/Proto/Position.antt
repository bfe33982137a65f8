-- ===== src/Proto/Position.antt =====
-- The named values of the enum PositionX of proto/commands.proto.
use ultramat.Base.{ℕ}

abbrev pub invalid : ℕ
invalid = 0

abbrev pub one : ℕ
one = 1

abbrev pub final : ℕ
final = 8
