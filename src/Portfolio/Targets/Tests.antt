-- ===== src/Portfolio/Targets/Tests.antt =====
-- Runs of the requests on targets, and the theorems at concrete inputs.
use stock_monitor.Base.{ℕ, ◌≡◌, refl, some, List, [], ◌∷◌, length}
use stock_monitor.Base.Text.{codes, text_eq, strip, upper}
use stock_monitor.Base.Int.{ℤ}
use stock_monitor.Float.Fixed.{fixed, fixed-IsOrder, fixed-IsMonotone}
use stock_monitor.Portfolio.{TargetAllocation, Outcome, committed, busy}
use stock_monitor.Portfolio.Targets.{TargetAllocationCreate, create_target}
use stock_monitor.Portfolio.Targets.Budget.{
  Allocated, IsBudget, Request, create, delete, serve, create_target_effect, serve-IsBudget,
}
use stock_monitor.Portfolio.Samples.{units, db, alice, bob}

abbrev italy : ℕ → TargetAllocationCreate ℤ
italy n = record {
  name = codes " Italy ";
  target_percent = units n;
  scope_type = [];
  scope_value = some (codes "it");
}

abbrev requests : List (Request ℤ)
requests =
    create alice (italy 60) committed
    ∷ create alice (italy 50) committed
    ∷ create bob (italy 50) committed
    ∷ create alice (italy 40) busy
    ∷ create alice (italy 40) committed
    ∷ delete alice 1 committed
    ∷ []

-- The second is refused, the fourth meets a busy database, and the last removes the first.
requests_run : length (serve requests db).targets ≡ 2
unfolding serve text_eq strip upper
requests_run = refl

create_target_effect_example :
    Outcome (Allocated alice (italy 60) db) db (create_target alice (italy 60) committed db)
create_target_effect_example = create_target_effect alice (italy 60) committed db

no_targets : IsBudget (let ts : List (TargetAllocation ℤ) = [] in ts)
no_targets = record { ranges = tt; within = λ u. refl }

serve-IsBudget_example : IsBudget (serve requests db).targets
serve-IsBudget_example = serve-IsBudget fixed-IsOrder fixed-IsMonotone requests db no_targets
