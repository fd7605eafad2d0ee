-- ===== src/Collection/Tests.antt =====
-- The control of a State with a heap limit of one megabyte.
use lunar.Base.{
  ◌+◌, ◌-◌, ◌*◌, ◌≡◌, refl, inl, not, ◌&&◌, ◌||◌, ◌==◌, true, false, List, [], ◌∷◌, arith,
}
use lunar.Base.Int.{pos}
use lunar.Collection.{
  CollectionControl, charge, charge_capacity_growth, automatic_collection_budget, max_uint64,
  word_count, minimum_automatic_collection_debt,
}
use lunar.Collection.Budget.{
  saturated, charge_capacity_growth-debt, automatic_collection_budget_lem,
}
use lunar.Collection.Schedule.{
  Operation, charged, debt_reset, stop_set, pause_set, run, apply, initial, IsScheduled,
  run-IsScheduled, IsDueWith, run-runnable,
}

abbrev operations : List Operation
operations = debt_reset 1000 ∷ charged 262143 ∷ []

run-IsScheduled_example : IsScheduled false (run operations (initial 1048576))
run-IsScheduled_example = run-IsScheduled operations 1048576

-- The same State's debt is a byte below the budget, and another byte makes a cycle due while stopped.
due : IsDueWith 1 (run operations (initial 1048576))
unfolding apply charge lunar.Collection.reset_debt automatic_collection_budget
due = inl (omega arith)

abbrev later : List Operation
later = stop_set true ∷ pause_set (pos 300) ∷ charged 8 ∷ []

run-runnable_example : (run later (charge 1 (run operations (initial 1048576)))).runnable ≡ (
    not (run later (charge 1 (run operations (initial 1048576)))).servicing
    && (not (run later (charge 1 (run operations (initial 1048576)))).stopped
        || not ((run later (charge 1 (run operations (initial 1048576)))).heap_limit == 0)))
run-runnable_example =
    run-runnable operations later 1048576 1 (omega arith) due (refl, (refl, (refl, tt)))

charge_capacity_growth-debt_example :
    (charge_capacity_growth 4 max_uint64 16 (initial 0)).debt
    ≡ saturated ((initial 0).debt + (max_uint64 - 4) * 16)
charge_capacity_growth-debt_example =
    charge_capacity_growth-debt 4 max_uint64 16 (initial 0) (omega arith)

automatic_collection_budget_lem_example : automatic_collection_budget 1000000 (pos 150) ≡ 500000
automatic_collection_budget_lem_example = automatic_collection_budget_lem 1000000 (pos 150)
