-- ===== src/Verify/Roles.antt =====
-- What the roles that `classifyPrototypeWords` answers say of the code.
use lunar.Base.{
  ℕ, zero, suc, ◌+◌, ◌≤◌, ◌<◌, ◌≡◌, refl, sym, ◌∙◌, ap, some, List, [], ◌∷◌, arith, length,
  get_elem?,
}
use lunar.Verify.Prototype.{
  Prototype, Result, ok, err, Check, ◌>>=◌, ◌>>◌, Role, executable, set_list_extra, closure_binding,
}
use lunar.Verify.Words.{
  Awaiting, instruction, block_number, binding, bindings_of, next_binding, after_instruction,
  check_block_number, verify_closure_binding, classify, classify_words,
}

-- The runs of the classification that end well, as a relation.
pub data Classified (p : Prototype) : ℕ → ℕ → Awaiting → List Role → Type 0 where
  done : {pc : ℕ} → Classified p zero pc instruction []
  instr :
      {n pc : ℕ} {awaiting : Awaiting} {roles : List Role}
      → after_instruction p pc ≡ ok awaiting
      → Classified p n (pc + 1) awaiting roles
      → Classified p (suc n) pc instruction (executable ∷ roles)
  block :
      {n pc : ℕ} {roles : List Role}
      → check_block_number p pc ≡ ok tt
      → Classified p n (pc + 1) instruction roles
      → Classified p (suc n) pc block_number (set_list_extra ∷ roles)
  bound :
      {n pc closure index left : ℕ} {roles : List Role}
      → verify_closure_binding p pc ≡ ok tt
      → Classified p n (pc + 1) (next_binding closure index left) roles
      → Classified p (suc n) pc (binding closure index left) (closure_binding ∷ roles)

pub bind-eq-ok {ℓ κ} :
    {Given : Type ℓ} {Wanted : Type κ} (first : Result Given) (next : Given → Result Wanted)
    {answer : Wanted}
    → (first >>= next) ≡ ok answer
    → (given : Given) × (first ≡ ok given) × (next given ≡ ok answer)
bind-eq-ok (err failure) next h = cc
bind-eq-ok (ok given) next h = (given, refl, h)

pub then-eq-ok {ℓ} :
    {B : Type ℓ} (m : Check) (k : Result B) {b : B} → (m >> k) ≡ ok b → (m ≡ ok tt) × (k ≡ ok b)
then-eq-ok (ok tt) k h = (refl, h)
then-eq-ok (err e) k h = cc

pub ok-injective {ℓ} : {A : Type ℓ} {a b : A} → ok a ≡ ok b → a ≡ b
ok-injective h = cc

-- The roles that `classify` puts together are those of a well-ended run.
classify-Classified :
    (p : Prototype) (n pc : ℕ) (awaiting : Awaiting) (roles : List Role)
    → classify p n pc awaiting ≡ ok roles
    → Classified p n pc awaiting roles
unfolding classify
classify-Classified p zero pc instruction roles h = rw (← ok-injective h) done
classify-Classified p zero pc block_number roles h = cc
classify-Classified p zero pc (binding c i l) roles h = cc
classify-Classified p (suc n) pc instruction roles h =
    let (awaiting, e, r) = bind-eq-ok (after_instruction p pc) _ h in
    let (rest, e', r') = bind-eq-ok (classify p n (pc + 1) awaiting) _ r in
    rw (← ok-injective r') (instr e (classify-Classified p n (pc + 1) awaiting rest e'))
classify-Classified p (suc n) pc block_number roles h =
    let (e, r) = then-eq-ok (check_block_number p pc) _ h in
    let (rest, e', r') = bind-eq-ok (classify p n (pc + 1) instruction) _ r in
    rw (← ok-injective r') (block e (classify-Classified p n (pc + 1) instruction rest e'))
classify-Classified p (suc n) pc (binding c i l) roles h =
    let (e, r) = then-eq-ok (verify_closure_binding p pc) _ h in
    let (rest, e', r') = bind-eq-ok (classify p n (pc + 1) (next_binding c i l)) _ r in
    rw (← ok-injective r') (bound e (classify-Classified p n (pc + 1) (next_binding c i l) rest e'))

pub classify_words-Classified :
    (p : Prototype) (roles : List Role)
    → classify_words p ≡ ok roles
    → Classified p (length p.code) 0 instruction roles
unfolding classify_words
classify_words-Classified p roles h = classify-Classified p (length p.code) 0 instruction roles h

-- There is a role for each word.
pub length-Classified :
    {p : Prototype} {n pc : ℕ} {awaiting : Awaiting} {roles : List Role}
    → Classified p n pc awaiting roles
    → length roles ≡ n
length-Classified done = refl
length-Classified (instr e c) = ap suc (length-Classified c)
length-Classified (block e c) = ap suc (length-Classified c)
length-Classified (bound e c) = ap suc (length-Classified c)

-- Where an instruction is awaited, the next word is one.
pub first_executable :
    {p : Prototype} {n pc : ℕ} {roles : List Role}
    → Classified p n pc instruction roles
    → 0 < n
    → get_elem? roles 0 ≡ some executable
first_executable done h = elim h [ ]
first_executable (instr e c) h = refl

-- Behind an instruction with no words of its own stands another instruction.
pub next_executable :
    {p : Prototype} {n pc : ℕ} {awaiting : Awaiting} {roles : List Role} (i q : ℕ)
    → Classified p n pc awaiting roles
    → q ≡ pc + i
    → get_elem? roles i ≡ some executable
    → after_instruction p q ≡ ok instruction
    → suc i < n
    → get_elem? roles (suc i) ≡ some executable
next_executable i q done e x plain h = cc
next_executable zero q (instr {pc = at} {awaiting = aw} {roles = rest} a c) e x plain h =
    let here : q ≡ at = omega arith in
    let same : aw ≡ instruction = ok-injective (sym a ∙ rw here at plain) in
    first_executable (rw same at c) (omega arith)
next_executable (suc i) q (instr a c) e x plain h =
    next_executable i q c (omega arith) x plain (omega arith)
next_executable zero q (block a c) e x plain h = cc
next_executable (suc i) q (block a c) e x plain h =
    next_executable i q c (omega arith) x plain (omega arith)
next_executable zero q (bound a c) e x plain h = cc
next_executable (suc i) q (bound a c) e x plain h =
    next_executable i q c (omega arith) x plain (omega arith)

bindings_checked :
    (k q : ℕ) {p : Prototype} {n pc closure index left : ℕ} {roles : List Role}
    → Classified p n pc (binding closure index left) roles
    → q ≡ pc + k
    → k ≤ left
    → verify_closure_binding p q ≡ ok tt
bindings_checked zero q (bound {pc = at} a c) e h = let here : q ≡ at = omega arith in rw here a
bindings_checked (suc k) q (bound {left = zero} a c) e h = absurd (omega arith)
bindings_checked (suc k) q (bound {left = suc left} a c) e h =
    bindings_checked k q c (omega arith) (omega arith)

awaited_bindings :
    {p : Prototype} {n pc : ℕ} {roles : List Role} (count closure k q : ℕ)
    → Classified p n pc (bindings_of closure count) roles
    → q ≡ pc + k
    → k < count
    → verify_closure_binding p q ≡ ok tt
awaited_bindings zero closure k q c e h = elim h [ ]
awaited_bindings (suc left) closure k q c e h = bindings_checked k q c e (omega arith)

-- The words behind a CLOSURE are bindings that passed their check.
pub closure_bindings :
    {p : Prototype} {n pc : ℕ} {awaiting : Awaiting} {roles : List Role} (i q count k : ℕ)
    → Classified p n pc awaiting roles
    → q ≡ pc + i
    → get_elem? roles i ≡ some executable
    → after_instruction p q ≡ ok (bindings_of q count)
    → k < count
    → verify_closure_binding p (q + 1 + k) ≡ ok tt
closure_bindings i q count k done e x closes h = cc
closure_bindings {p} zero q count k (instr {pc = at} {awaiting = aw} a c) e x closes h =
    let here : q ≡ at = omega arith in
    let a' : after_instruction p q ≡ ok aw = rw here a in
    let same : aw ≡ bindings_of q count = ok-injective (sym a' ∙ closes) in
    awaited_bindings count q k (q + 1 + k) (rw same at c) (omega arith) h
closure_bindings (suc i) q count k (instr a c) e x closes h =
    closure_bindings i q count k c (omega arith) x closes h
closure_bindings zero q count k (block a c) e x closes h = cc
closure_bindings (suc i) q count k (block a c) e x closes h =
    closure_bindings i q count k c (omega arith) x closes h
closure_bindings zero q count k (bound a c) e x closes h = cc
closure_bindings (suc i) q count k (bound a c) e x closes h =
    closure_bindings i q count k c (omega arith) x closes h

-- An instruction is followed by what its operation awaits.
pub instruction_awaits :
    {p : Prototype} {n pc : ℕ} {awaiting : Awaiting} {roles : List Role} (i q : ℕ)
    → Classified p n pc awaiting roles
    → q ≡ pc + i
    → get_elem? roles i ≡ some executable
    → (next : Awaiting) × (after_instruction p q ≡ ok next)
instruction_awaits i q done e x = cc
instruction_awaits zero q (instr {pc = at} {awaiting = aw} a c) e x =
    let here : q ≡ at = omega arith in (aw, rw here a)
instruction_awaits (suc i) q (instr a c) e x = instruction_awaits i q c (omega arith) x
instruction_awaits zero q (block a c) e x = cc
instruction_awaits (suc i) q (block a c) e x = instruction_awaits i q c (omega arith) x
instruction_awaits zero q (bound a c) e x = cc
instruction_awaits (suc i) q (bound a c) e x = instruction_awaits i q c (omega arith) x
