-- ===== src/Table/Counts.antt =====
-- The nodes of a store by what they hold, and how a change of one node changes their numbers.
use lunar.Base.{
  some-injective, ℕ, zero, suc, ◌+◌, ◌≡◌, ◌≢◌, refl, ap, Bool, true, false, not, ◌&&◌, Option, none,
  some, List, [], ◌∷◌, length, get_elem?, set, arith, ◌==◌,
}
use lunar.Table.Store.{Entry, Store, is_live}
use lunar.Table.Insert.{relink, is_positive_integer_key}

abbrev pub bit : Bool → ℕ
bit true = 1
bit false = 0

abbrev pub count : (Entry → Bool) → List Entry → ℕ
count p [] = 0
count p (entry ∷ entries) = bit (p entry) + count p entries

-- A test that does not read the successor.
abbrev pub Ignores : (Entry → Bool) → Type 0
Ignores p = (entry : Entry) (next : ℕ) → p (record entry { next = next }) ≡ p entry

-- One node was taken out and another put in.
abbrev pub Swapped : List Entry → List Entry → Entry → Entry → Type 0
Swapped before after old new =
    (p : Entry → Bool) → Ignores p → count p after + bit (p old) ≡ count p before + bit (p new)

pub set-Swapped :
    (entries : List Entry) (index : ℕ) (old new : Entry)
    → get_elem? entries index ≡ some old
    → Swapped entries (set entries index new) old new
set-Swapped [] index old new h p ignores = cc
set-Swapped (entry ∷ entries) zero old new h p ignores =
    let same : p entry ≡ p old = ap p (some-injective h) in rw same (omega arith)
set-Swapped (entry ∷ entries) (suc index) old new h p ignores =
    let rest = set-Swapped entries index old new h p ignores in omega (arith, rest)

pub count-relink :
    (entries : List Entry) (index next : ℕ) (p : Entry → Bool)
    → Ignores p
    → count p (relink entries index next) ≡ count p entries
count-relink [] index next p ignores = refl
count-relink (entry ∷ entries) zero next p ignores = rw (ignores entry next)
count-relink (entry ∷ entries) (suc index) next p ignores =
    rw (count-relink entries index next p ignores)

-- A relinked node holds what it held.
pub get_elem?-relink :
    (entries : List Entry) (index next at : ℕ) (entry : Entry)
    → get_elem? entries at ≡ some entry
    → (n : ℕ) × (get_elem? (relink entries index next) at ≡ some (record entry { next = n }))
get_elem?-relink [] index next at entry h = cc
get_elem?-relink (e ∷ entries) zero next zero entry h = (
  next,
  ap (λ (o : Option Entry). elim o [ none ↦ none | some x ↦ some (record x { next = next }) ]) h,
)
get_elem?-relink (e ∷ entries) zero next (suc at) entry h = (entry.next, h)
get_elem?-relink (e ∷ entries) (suc index) next zero entry h = (entry.next, h)
get_elem?-relink (e ∷ entries) (suc index) next (suc at) entry h =
    get_elem?-relink entries index next at entry h

pub get_elem?-set :
    (entries : List Entry) (index : ℕ) (old new : Entry)
    → get_elem? entries index ≡ some old
    → get_elem? (set entries index new) index ≡ some new
get_elem?-set [] index old new h = cc
get_elem?-set (e ∷ entries) zero old new h = refl
get_elem?-set (e ∷ entries) (suc index) old new h = get_elem?-set entries index old new h

pub get_elem?-set_other :
    (entries : List Entry) (index at : ℕ) (new : Entry)
    → index ≢ at
    → get_elem? (set entries index new) at ≡ get_elem? entries at
get_elem?-set_other [] index at new ne = refl
get_elem?-set_other (e ∷ entries) zero zero new ne = absurd (ne refl)
get_elem?-set_other (e ∷ entries) zero (suc at) new ne = refl
get_elem?-set_other (e ∷ entries) (suc index) zero new ne = refl
get_elem?-set_other (e ∷ entries) (suc index) (suc at) new ne =
    get_elem?-set_other entries index at new (λ e. ne (ap suc e))

pub length-relink :
    (entries : List Entry) (index next : ℕ) → length (relink entries index next) ≡ length entries
length-relink [] index next = refl
length-relink (e ∷ entries) zero next = refl
length-relink (e ∷ entries) (suc index) next = ap suc (length-relink entries index next)

abbrev pub is_used : Entry → Bool
is_used entry = not (entry.hash == 0)

abbrev pub live_entry : Entry → Bool
live_entry entry = is_used entry && is_live entry

abbrev pub dead_entry : Entry → Bool
dead_entry entry = is_used entry && not (is_live entry)

module _ (is_integer : ℕ → Bool) where
  abbrev pub integer_entry : Entry → Bool
  integer_entry entry = live_entry entry && is_positive_integer_key is_integer entry.key

  -- The counters of a store count its nodes.
  pub record IsCounted (store : Store) : Type 0 where
    pub live : store.live ≡ count live_entry store.entries
    pub dead : store.dead ≡ count dead_entry store.entries
    pub integers : store.integer_keys ≡ count integer_entry store.entries
