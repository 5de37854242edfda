-- ===== src/Exec/Runs.antt =====
-- Requests that the server answers one after the other, each with its own faults.
use meetgo_dating_server.Prelude.{List, [], ◌∷◌}
use meetgo_dating_server.Schema.{Db}
use meetgo_dating_server.Exec.{Faults}

module _ {C : Type 0} (run : C → Faults → Db → Db) where
  unfoldable pub run_all : List (C × Faults) → Db → Db
  run_all [] d = d
  run_all ((c, fs) ∷ cs) d = run_all cs (run c fs d)

  pub run_all-Keeps {κ} :
      (P : Db → Type κ)
      → ((c : C) (fs : Faults) (d : Db) → P d → P (run c fs d))
      → (cs : List (C × Faults)) (d : Db) → P d
      → P (run_all cs d)
  unfolding run_all
  run_all-Keeps P k [] d h = h
  run_all-Keeps P k ((c, fs) ∷ cs) d h = run_all-Keeps P k cs (run c fs d) (k c fs d h)
