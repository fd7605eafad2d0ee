-- ===== src/Collection/Schedule.antt =====
-- The schedule of collections: what holds of the control after any sequence of its operations.
use mathlib.Core.Path.{subst}
use lunar.Base.{
  leb_false→lt, ◌⊎◌, inl, inr, ◌∙◌, not, ◌&&◌, ◌||◌, ◌==◌, if◌then◌else◌, All, ℕ, ◌+◌, ◌-◌, ◌*◌,
  ◌≤◌, ◌<◌, ◌≡◌, refl, sym, Bool, true, false, arith, List, [], ◌∷◌,
}
use lunar.Base.Int.{ℤ, pos, negsuc}
use lunar.Collection.Budget.{saturated, growth_charges, automatic_collection_budget_lem}
use lunar.Collection.{
  CollectionControl, charge, charge_capacity_growth, automatic_collection_budget, request_cycle,
  set_stopped, set_servicing, reset_debt, restore_after_finalizer, refresh_runnable, release,
  set_pause, set_step_multiplier, minimum_automatic_collection_debt, max_uint64,
  default_collection_control,
}

-- The operations that the rest of a State performs on its control.
pub data Operation : Type 0 where
  charged : ℕ → Operation
  grown : ℕ → ℕ → ℕ → Operation
  cycle_requested : Operation
  stop_set servicing_set : Bool → Operation
  debt_reset : ℕ → Operation
  finalizer_restored : Operation
  pause_set step_multiplier_set : ℤ → Operation
  released : Operation

unfoldable pub apply : Operation → CollectionControl → CollectionControl
unfolding charge charge_capacity_growth request_cycle set_stopped set_servicing reset_debt
    restore_after_finalizer release
apply (charged bytes) control = charge bytes control
apply (grown previous current element_bytes) control =
    charge_capacity_growth previous current element_bytes control
apply cycle_requested control = request_cycle control
apply (stop_set stopped) control = set_stopped stopped control
apply (servicing_set servicing) control = set_servicing servicing control
apply (debt_reset live_bytes) control = reset_debt live_bytes control
apply finalizer_restored control = restore_after_finalizer control
apply (pause_set amount) control = set_pause amount control
apply (step_multiplier_set amount) control = set_step_multiplier amount control
apply released control = release control

abbrev pub run : List Operation → CollectionControl → CollectionControl
run [] control = control
run (operation ∷ rest) control = run rest (apply operation control)

-- The control of a new State, with `Options.MaxHeapBytes`.
abbrev pub initial : ℕ → CollectionControl
initial heap_limit = record default_collection_control { heap_limit = heap_limit }

abbrev is_release : Operation → Bool
is_release released = true
is_release _ = false

-- Whether the control was released before, or is by one of the operations.
abbrev pub released_by : Bool → List Operation → Bool
released_by before [] = before
released_by before (operation ∷ rest) = released_by (before || is_release operation) rest

-- `runnable` is the gate that the other fields give, and debt and budget are uint64 numbers. The budget
-- is at least the minimum and a debt that has reached it has a cycle requested; only once the control
-- was released may budget and debt both be 0 instead.
abbrev pub IsScheduled : Bool → CollectionControl → Type 0
IsScheduled was_released control =
    (control.runnable ≡ (refresh_runnable control).runnable)
    × (control.debt ≤ max_uint64)
    × (control.budget ≤ max_uint64)
    × ((minimum_automatic_collection_debt ≤ control.budget)
          × (control.requested ≡ false → control.debt < control.budget)
        ⊎ (was_released ≡ true) × (control.budget ≡ 0) × (control.debt ≡ 0))

||-false : (b : Bool) → (b || false) ≡ b
||-false b = ground arith

||-true : (b : Bool) → (b || true) ≡ true
||-true b = ground arith

budget-bounds :
    (live_bytes : ℕ) (pause : ℤ)
    → (minimum_automatic_collection_debt ≤ automatic_collection_budget live_bytes pause)
      × (automatic_collection_budget live_bytes pause ≤ max_uint64)
unfolding automatic_collection_budget
budget-bounds live_bytes (negsuc n) = (omega arith, omega arith)
budget-bounds live_bytes (pos p) =
    let exact = automatic_collection_budget_lem live_bytes (pos p) in ground (arith, exact)

charge-IsScheduled :
    (bytes : ℕ) (was : Bool) (control : CollectionControl)
    → IsScheduled was control
    → IsScheduled was (charge bytes control)
unfolding charge request_cycle
charge-IsScheduled bytes was control (gate, debt, budget, due) = ground arith

growth-IsScheduled :
    (previous current element_bytes : ℕ) (was : Bool) (control : CollectionControl)
    → IsScheduled was control
    → IsScheduled was (charge_capacity_growth previous current element_bytes control)
growth-IsScheduled previous current element_bytes was control ok =
    subst (IsScheduled was) (sym (growth_charges previous current element_bytes control))
      (charge-IsScheduled (saturated ((current - previous) * element_bytes)) was control ok)

apply-IsScheduled :
    (operation : Operation) (was : Bool) (control : CollectionControl)
    → IsScheduled was control
    → IsScheduled (was || is_release operation) (apply operation control)
unfolding request_cycle set_stopped set_servicing reset_debt restore_after_finalizer release apply
apply-IsScheduled (charged bytes) was control ok =
    rw (||-false was) (charge-IsScheduled bytes was control ok)
apply-IsScheduled (grown previous current element_bytes) was control ok =
    rw (||-false was) (growth-IsScheduled previous current element_bytes was control ok)
apply-IsScheduled cycle_requested was control (gate, debt, budget, due) = ground arith
apply-IsScheduled (stop_set stopped) was control (gate, debt, budget, due) =
    rw (||-false was) (refl, debt, budget, due)
apply-IsScheduled (servicing_set servicing) was control (gate, debt, budget, due) =
    rw (||-false was) (refl, debt, budget, due)
apply-IsScheduled (debt_reset live_bytes) was control (gate, debt, budget, due) =
    let (least, most) = budget-bounds live_bytes control.pause in
    (refl, omega arith, most, inl (least, λ e. omega arith))
apply-IsScheduled finalizer_restored was control (gate, debt, budget, due) =
    let (least, most) = budget-bounds control.baseline control.pause in
    let quiet =
      leb_false→lt (automatic_collection_budget control.baseline control.pause) control.debt in
    (refl, debt, most, inl (least, quiet))
apply-IsScheduled (pause_set amount) was control ok = rw (||-false was) ok
apply-IsScheduled (step_multiplier_set amount) was control ok = rw (||-false was) ok
apply-IsScheduled released was control ok =
    (refl, omega arith, omega arith, inr (||-true was, refl, refl))

run_keeps :
    (operations : List Operation) (was : Bool) (control : CollectionControl)
    → IsScheduled was control
    → IsScheduled (released_by was operations) (run operations control)
run_keeps [] was control ok = ok
run_keeps (operation ∷ rest) was control ok =
    run_keeps rest (was || is_release operation) (apply operation control)
      (apply-IsScheduled operation was control ok)

-- The control of a State stays scheduled under every sequence of operations from its creation on:
-- `runnable` is the gate of the other fields, debt and budget are uint64 numbers, the budget is at
-- least the minimum, and a cycle is requested whenever the debt has reached the budget. After a release
-- the budget and the debt may both be 0 instead.
pub run-IsScheduled :
    (operations : List Operation) (heap_limit : ℕ)
    → IsScheduled (released_by false operations) (run operations (initial heap_limit))
run-IsScheduled operations heap_limit =
    run_keeps operations false (initial heap_limit)
      (refl, omega arith, omega arith, inl (omega arith, λ e. omega arith))

-- What makes a cycle due with `bytes` more, in exact sums: the debt reaches the budget, or the heap limit
-- is exceeded by the last measurement, or by the estimate once the minimum debt has gathered. An
-- estimate beyond uint64 is left out.
abbrev pub IsDueWith : ℕ → CollectionControl → Type 0
IsDueWith bytes control =
    ((if control.budget == 0 then minimum_automatic_collection_debt else control.budget)
      ≤ control.debt + bytes)
    ⊎ (0 < control.heap_limit)
      × ((control.heap_limit < control.baseline)
          ⊎ (minimum_automatic_collection_debt ≤ control.debt + bytes)
            × (control.heap_limit < control.baseline + control.debt + bytes)
            × (control.baseline + control.debt + bytes ≤ max_uint64))

charge-requested :
    (bytes : ℕ) (control : CollectionControl)
    → 0 < bytes
    → control.budget ≤ max_uint64
    → IsDueWith bytes control
    → (charge bytes control).requested ≡ true
unfolding charge request_cycle
charge-requested bytes control some_bytes budget due = ground arith

-- The operations that may withdraw a request: a measurement, the end of a finalizer and a release.
abbrev pub withdraws : Operation → Bool
withdraws (debt_reset live_bytes) = true
withdraws finalizer_restored = true
withdraws released = true
withdraws _ = false

charge-keeps_requested :
    (bytes : ℕ) (control : CollectionControl)
    → control.requested ≡ true
    → (charge bytes control).requested ≡ true
unfolding charge
charge-keeps_requested bytes control asked = ground arith

apply-keeps_requested :
    (operation : Operation) (control : CollectionControl)
    → withdraws operation ≡ false
    → control.requested ≡ true
    → (apply operation control).requested ≡ true
unfolding apply request_cycle set_stopped set_servicing
apply-keeps_requested (charged bytes) control kept asked =
    charge-keeps_requested bytes control asked
apply-keeps_requested (grown previous current element_bytes) control kept asked =
    rw (growth_charges previous current element_bytes control)
      (charge-keeps_requested (saturated ((current - previous) * element_bytes)) control asked)
apply-keeps_requested cycle_requested control kept asked = refl
apply-keeps_requested (stop_set stopped) control kept asked = asked
apply-keeps_requested (servicing_set servicing) control kept asked = asked
apply-keeps_requested (debt_reset live_bytes) control kept asked = cc
apply-keeps_requested finalizer_restored control kept asked = cc
apply-keeps_requested (pause_set amount) control kept asked = asked
apply-keeps_requested (step_multiplier_set amount) control kept asked = asked
apply-keeps_requested released control kept asked = cc

run-keeps_requested :
    (later : List Operation) (control : CollectionControl)
    → All (λ operation. withdraws operation ≡ false) later
    → control.requested ≡ true
    → (run later control).requested ≡ true
run-keeps_requested [] control kept asked = asked
run-keeps_requested (operation ∷ rest) control (first, kept) asked =
    run-keeps_requested rest (apply operation control) kept
      (apply-keeps_requested operation control first asked)

-- A cycle that becomes due is not lost: once a charge after any operations of a State makes one due,
-- then after any further operations that are no measurement, no end of a finalizer and no release the
-- collector is runnable exactly if it is not being serviced and not stopped without a heap limit.
pub run-runnable :
    (operations later : List Operation) (heap_limit bytes : ℕ)
    → 0 < bytes
    → IsDueWith bytes (run operations (initial heap_limit))
    → All (λ operation. withdraws operation ≡ false) later
    → (run later (charge bytes (run operations (initial heap_limit)))).runnable ≡ (
        not (run later (charge bytes (run operations (initial heap_limit)))).servicing
        && (not (run later (charge bytes (run operations (initial heap_limit)))).stopped
            || not
                ((run later (charge bytes (run operations (initial heap_limit)))).heap_limit == 0)))
run-runnable operations later heap_limit bytes some_bytes due kept =
    let before = run operations (initial heap_limit) in
    let was = released_by false operations in
    let ok = run-IsScheduled operations heap_limit in
    let (_, _, budget, _) = ok in
    let (gate, _, _, _) =
      run_keeps later was (charge bytes before) (charge-IsScheduled bytes was before ok) in
    let asked =
      run-keeps_requested later (charge bytes before) kept
        (charge-requested bytes before some_bytes budget due) in
    gate ∙ rw asked
