-- ===== src/RedMain/Migration/Tests.antt =====
-- Runs of migration.py, and its theorem at concrete data.
use github.Base.{library, ◌≡◌, refl, some, [], ◌∷◌}
use github.Base.Text.{codes, lstrip_of}
use github.RedMain.Migration.{migration}
use github.RedMain.Migration.Fits.{Finds, migration-Finds}

migration_test :
    migration "**/migrations/**, /db/*.sql" ("src/a.py" ∷ "db/deep/a.sql" ∷ "db/a.sql" ∷ [])
    ≡ some "db/a.sql"
unfolding migration codes lstrip_of library
migration_test = refl

directories_test : migration "**/migrations/**" ("migrations/a.sql" ∷ []) ≡ some "migrations/a.sql"
unfolding migration codes lstrip_of library
directories_test = refl

migration-Finds_example :
    Finds "**/migrations/**, /db/*.sql"
      ("src/a.py" ∷ "db/deep/a.sql" ∷ "db/a.sql" ∷ [])
      (migration "**/migrations/**, /db/*.sql" ("src/a.py" ∷ "db/deep/a.sql" ∷ "db/a.sql" ∷ []))
migration-Finds_example =
    migration-Finds "**/migrations/**, /db/*.sql" ("src/a.py" ∷ "db/deep/a.sql" ∷ "db/a.sql" ∷ [])
