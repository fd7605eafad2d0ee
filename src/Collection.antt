-- ===== src/Collection.antt =====
-- collection_control.go: when the collector of a State is due, and the writes of library_base.go to the
-- control. The attribution set of long strings is
-- left out, and so is the collection itself: a measurement gives the live bytes to `reset_debt`. The
-- receivers are never nil here, where the source's `charge` and `release` do nothing on nil.
mod Budget
mod Schedule
mod Tests
use lunar.Base.{
  ℕ, zero, suc, ◌+◌, ◌-◌, ◌*◌, ◌/◌, ◌%◌, Bool, true, false, not, ◌&&◌, ◌||◌, leb, ltb, ◌==◌,
  if◌then◌else◌,
}
use lunar.Base.Int.{ℤ, pos, negsuc}

-- The uint64 numbers: 2 ^ 64 of them, and the last one, `^uint64(0)`.
abbrev pub word_count : ℕ
word_count = 18446744073709551616

abbrev pub max_uint64 : ℕ
max_uint64 = 18446744073709551615

abbrev pub default_collection_pause : ℕ
default_collection_pause = 200

abbrev pub default_collection_step_multiplier : ℕ
default_collection_step_multiplier = 200

-- `256 << 10`.
abbrev pub minimum_automatic_collection_debt : ℕ
minimum_automatic_collection_debt = 262144

pub record CollectionControl : Type 0 where
  pub pause : ℤ
  pub step_multiplier : ℤ
  pub debt : ℕ
  pub budget : ℕ
  pub baseline : ℕ
  pub stopped : Bool
  pub requested : Bool
  pub servicing : Bool
  pub runnable : Bool
  pub heap_limit : ℕ

abbrev pub default_collection_control : CollectionControl
default_collection_control = record {
  pause = pos default_collection_pause;
  step_multiplier = pos default_collection_step_multiplier;
  debt = 0;
  budget = minimum_automatic_collection_debt;
  baseline = 0;
  stopped = false;
  requested = false;
  servicing = false;
  runnable = false;
  heap_limit = 0;
}

abbrev pub refresh_runnable : CollectionControl → CollectionControl
refresh_runnable control = record control {
  runnable =
      control.requested
      && not control.servicing
      && (not control.stopped || not (control.heap_limit == 0));
}

unfoldable pub request_cycle : CollectionControl → CollectionControl
request_cycle control = refresh_runnable (record control { requested = true })

unfoldable pub set_stopped : Bool → CollectionControl → CollectionControl
set_stopped stopped control = refresh_runnable (record control { stopped = stopped })

unfoldable pub set_servicing : Bool → CollectionControl → CollectionControl
set_servicing servicing control = refresh_runnable (record control { servicing = servicing })

-- The debt saturates, and a budget of 0 becomes the minimum.
abbrev pub add_debt : ℕ → CollectionControl → CollectionControl
add_debt bytes control = record control {
  debt = if ltb (max_uint64 - control.debt) bytes then max_uint64 else control.debt + bytes;
  budget = if control.budget == 0 then minimum_automatic_collection_debt else control.budget;
}

-- What `charge` does with the debt added: whether a cycle is due.
abbrev pub is_due : CollectionControl → Bool
is_due control =
    if leb control.budget control.debt
    then true
    else if control.heap_limit == 0
    then false
    else if ltb control.heap_limit control.baseline
    then true
    else leb minimum_automatic_collection_debt control.debt
      && ltb control.heap_limit ((control.baseline + control.debt) % word_count)

abbrev pub request_if : Bool → CollectionControl → CollectionControl
request_if due control = if due then request_cycle control else control

unfoldable pub charge : ℕ → CollectionControl → CollectionControl
unfolding request_cycle
charge bytes control =
    if bytes == 0
    then control
    else if control.requested
    then add_debt bytes control
    else request_if (is_due (add_debt bytes control)) (add_debt bytes control)

-- The lengths are ints that are not negative.
unfoldable pub charge_capacity_growth : ℕ → ℕ → ℕ → CollectionControl → CollectionControl
unfolding charge
charge_capacity_growth previous current element_bytes control =
    if leb current previous || element_bytes == 0
    then control
    else if ltb (max_uint64 / element_bytes) (current - previous)
    then charge max_uint64 control
    else charge ((current - previous) * element_bytes) control

-- A pause above 100, by what it exceeds 100.
abbrev pub scaled_budget : ℕ → ℕ → ℕ
scaled_budget live_bytes scale =
    if ltb (max_uint64 / scale) live_bytes
    then max_uint64
    else if ltb (live_bytes * scale / 100) minimum_automatic_collection_debt
    then minimum_automatic_collection_debt
    else live_bytes * scale / 100

unfoldable pub automatic_collection_budget : ℕ → ℤ → ℕ
automatic_collection_budget live_bytes (negsuc n) = minimum_automatic_collection_debt
automatic_collection_budget live_bytes (pos pause) =
    if leb pause 100 || live_bytes == 0
    then minimum_automatic_collection_debt
    else scaled_budget live_bytes (pause - 100)

unfoldable pub reset_debt : ℕ → CollectionControl → CollectionControl
unfolding automatic_collection_budget
reset_debt live_bytes control = refresh_runnable (record control {
  debt = 0;
  baseline = live_bytes;
  budget = automatic_collection_budget live_bytes control.pause;
  requested = false;
})

unfoldable pub restore_after_finalizer : CollectionControl → CollectionControl
unfolding automatic_collection_budget
restore_after_finalizer control =
    let budget : ℕ = automatic_collection_budget control.baseline control.pause in
    refresh_runnable
      (record control { stopped = false; budget = budget; requested = leb budget control.debt })

-- The zero value of the control: a closed State's.
unfoldable pub release : CollectionControl → CollectionControl
release control = record {
  pause = pos 0;
  step_multiplier = pos 0;
  debt = 0;
  budget = 0;
  baseline = 0;
  stopped = false;
  requested = false;
  servicing = false;
  runnable = false;
  heap_limit = 0;
}

-- `collectgarbage("setpause", amount)` and `collectgarbage("setstepmul", amount)`, without the answers.
abbrev pub set_pause : ℤ → CollectionControl → CollectionControl
set_pause amount control = record control { pause = amount }

abbrev pub set_step_multiplier : ℤ → CollectionControl → CollectionControl
set_step_multiplier amount control = record control { step_multiplier = amount }
