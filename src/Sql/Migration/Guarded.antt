-- ===== src/Sql/Migration/Guarded.antt =====
-- Which statements of a migration script lose data, and that the script is marked then.
use schema_compare_c.Base.{◌≡◌, false}
use schema_compare_c.Sql.Migration.{Script}
use schema_compare_c.Sql.Calls.Calm.{Calm}

-- What is not marked as destructive has no such call.
record IsGuarded (s : Script) : Type 0 where
  guards : s.has_destructive ≡ false → Calm s.calls
