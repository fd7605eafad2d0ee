-- ===== src/Chunk/Reads.antt =====
-- A decoder reads what a writer wrote: the relation, its composition, and the single values.
use lunar.Base.{
  ℕ, zero, suc, ◌+◌, ◌-◌, ◌/◌, ◌^◌, ◌≤◌, ◌<◌, ◌≡◌, refl, sym, ap, Bool, true, false, Option, none,
  some, Text, List, [], ◌∷◌, ◌++◌, length, get_or, map, ltb, ◌==◌, if◌then◌else◌, arith,
  le→ltb_false, All,
}
use mathlib.Core.List.{append_assoc}
use mathlib.Core.Bool.{false≢true}
use native.Mathlib.Nat.{pow-suc}
use lunar.Chunk.Function.{Host, WordSize, four_bytes, eight_bytes}
use lunar.Chunk.Written.{
  Refusal, Written, wrote, unwritten, ◌&◌, nothing, write_byte, little_bytes, in_order,
  write_uint32, write_uint64, write_size, write_int, write_string_text, write_string, write_each,
}
use lunar.Chunk.Written
use lunar.Chunk.Decoder
use lunar.Chunk.Reader.{read_vector}
use lunar.Chunk.Writer.{write_vector}
use lunar.Chunk.Decoder.{
  Fault, bad_string, Read, got, failed, Decoder, pure, fail, go_on, ◌>>=◌, read_byte, read_full,
  read_each, little_value, read_uint32, read_uint64, read_size, read_integer, max_int, text_of,
  read_string,
}

-- Where the writer writes, the decoder gives the value and leaves what follows.
pub record Reads {ℓ} {A : Type ℓ} (d : Decoder A) (w : Written) (a : A) : Type ℓ where
  pub reads : (bytes rest : List ℕ) → w ≡ wrote bytes → d (bytes ++ rest) ≡ got a rest

pub wrote-injective : {a b : List ℕ} → wrote a ≡ wrote b → a ≡ b
wrote-injective h = cc

pub &-wrote :
    (w v : Written) (bytes : List ℕ)
    → (w & v) ≡ wrote bytes
    → (x : List ℕ) × (y : List ℕ) × (w ≡ wrote x) × (v ≡ wrote y) × (bytes ≡ x ++ y)
&-wrote (unwritten r) v bytes h = cc
&-wrote (wrote x) (unwritten r) bytes h = cc
&-wrote (wrote x) (wrote y) bytes h = (x, y, refl, refl, sym (wrote-injective h))

pub bind-Reads {ℓ κ} :
    {A : Type ℓ} {B : Type κ} {d : Decoder A} {w v : Written} {a : A} {b : B} (f : A → Decoder B)
    → Reads d w a
    → Reads (f a) v b
    → Reads (d >>= f) (w & v) b
bind-Reads {d} {w} {v} f first next = record {
  reads = λ bytes rest h.
      let (x, y, ex, ey, e) = &-wrote w v bytes h in
      rw (e, append_assoc x y rest, first.reads x (y ++ rest) ex) (next.reads y rest ey);
}

-- The second part may rest on the first part having been written.
pub written-Reads {ℓ κ} :
    {A : Type ℓ} {B : Type κ} {d : Decoder A} {w v : Written} {a : A} {b : B} (f : A → Decoder B)
    → Reads d w a
    → ((bytes : List ℕ) → w ≡ wrote bytes → Reads (f a) v b)
    → Reads (d >>= f) (w & v) b
written-Reads {d} {w} {v} f first next = record {
  reads = λ bytes rest h.
      let (x, y, ex, ey, e) = &-wrote w v bytes h in
      rw (e, append_assoc x y rest, first.reads x (y ++ rest) ex) ((next x ex).reads y rest ey);
}

pub map-Reads {ℓ κ} :
    {A : Type ℓ} {B : Type κ} {d : Decoder A} {w : Written} {a : A} (g : A → B)
    → Reads d w a
    → Reads (d >>= λ x. pure (g x)) w (g a)
map-Reads g first = record { reads = λ bytes rest h. rw (first.reads bytes rest h) }

-- A value that is tested or changed after it was read.
pub after-Reads {ℓ κ} :
    {A : Type ℓ} {B : Type κ} {d : Decoder A} {w : Written} {a : A} {b : B} (f : A → Decoder B)
    → Reads d w a
    → ((rest : List ℕ) → f a rest ≡ got b rest)
    → Reads (d >>= f) w b
after-Reads f first next = record {
  reads = λ bytes rest h. rw (first.reads bytes rest h) (next rest);
}

pub written_unless :
    (bad : Bool) (r : Refusal) (w : Written) (bytes : List ℕ)
    → (if bad then unwritten r else w) ≡ wrote bytes
    → (bad ≡ false) × (w ≡ wrote bytes)
written_unless true r w bytes h = cc
written_unless false r w bytes h = (refl, h)

-- A value that is written after a test, and read after one.
pub refused-Reads {ℓ} :
    {A : Type ℓ} {d : Decoder A} {a : A} {w : Written} (bad : Bool) (r : Refusal)
    → (bad ≡ false → Reads d w a)
    → Reads d (if bad then unwritten r else w) a
refused-Reads true r reads = record { reads = λ bytes rest h. cc }
refused-Reads false r reads = reads refl

-- The other order of the branches.
pub only_if-Reads {ℓ} :
    {A : Type ℓ} {d : Decoder A} {a : A} {w : Written} (good : Bool) (r : Refusal)
    → Reads d w a
    → Reads d (if good then w else unwritten r) a
only_if-Reads true r reads = reads
only_if-Reads false r reads = record { reads = λ bytes rest h. cc }

pub passed-Reads {ℓ} :
    {A : Type ℓ} {d : Decoder A} {w : Written} {a : A} (bad : Bool) (fault : Fault)
    → bad ≡ false
    → Reads d w a
    → Reads (if bad then fail fault else d) w a
passed-Reads true fault h reads = absurd (false≢true (sym h))
passed-Reads false fault h reads = reads

pub else-Reads {ℓ} :
    {A : Type ℓ} {d : Decoder A} {w : Written} {a : A} (test : Bool) (other : Decoder A)
    → test ≡ false
    → Reads d w a
    → Reads (if test then other else d) w a
else-Reads true other h reads = absurd (false≢true (sym h))
else-Reads false other h reads = reads

pub nothing-Reads {ℓ} : {A : Type ℓ} (a : A) → Reads (pure a) nothing a
nothing-Reads a = record { reads = λ bytes rest h. rw (← wrote-injective h) }

pub read_byte-Reads : (value : ℕ) → Reads read_byte (write_byte value) value
read_byte-Reads value = record { reads = λ bytes rest h. rw (← wrote-injective h) }

read_full-append : (xs rest : List ℕ) → read_full (length xs) (xs ++ rest) ≡ got xs rest
read_full-append [] rest = refl
read_full-append (x ∷ xs) rest = rw (read_full-append xs rest)

pub read_full-Reads : (xs : List ℕ) → Reads (read_full (length xs)) (wrote xs) xs
read_full-Reads xs = record {
  reads = λ bytes rest h. rw (← wrote-injective h) (read_full-append xs rest);
}

-- The bytes of a number that fits are read back as the number.
little_value-little_bytes :
    (count value : ℕ) → value < 256 ^ count → little_value (little_bytes count value) ≡ value
little_value-little_bytes zero value h = omega arith
little_value-little_bytes (suc count) value h =
    let rest = little_value-little_bytes count (value / 256) (omega (arith, pow-suc 256 count)) in
    omega (arith, rest)

-- Both byte orders: the bytes of a number that fits, in order, are read back in order.
ordered_word :
    (big : Bool) (value : ℕ) (rest : List ℕ)
    → value < 2 ^ 32
    → read_uint32
        (record { big_endian = big; word_size = eight_bytes })
        (in_order (record { big_endian = big; word_size = eight_bytes }) (little_bytes 4 value)
          ++ rest)
      ≡ got value rest
ordered_word true value rest fits =
    ap (λ (v : ℕ). got v rest) (little_value-little_bytes 4 value fits)
ordered_word false value rest fits =
    ap (λ (v : ℕ). got v rest) (little_value-little_bytes 4 value fits)

ordered_long :
    (big : Bool) (value : ℕ) (rest : List ℕ)
    → value < 2 ^ 64
    → read_uint64
        (record { big_endian = big; word_size = eight_bytes })
        (in_order (record { big_endian = big; word_size = eight_bytes }) (little_bytes 8 value)
          ++ rest)
      ≡ got value rest
ordered_long true value rest fits =
    ap (λ (v : ℕ). got v rest) (little_value-little_bytes 8 value fits)
ordered_long false value rest fits =
    ap (λ (v : ℕ). got v rest) (little_value-little_bytes 8 value fits)

module _ (host : Host) where
  pub read_uint32-Reads :
      (value : ℕ) → value < 2 ^ 32 → Reads (read_uint32 host) (write_uint32 host value) value
  read_uint32-Reads value fits = record {
    reads = λ bytes rest h. rw (← wrote-injective h) (ordered_word host.big_endian value rest fits);
  }

  pub read_uint64-Reads :
      (value : ℕ) → value < 2 ^ 64 → Reads (read_uint64 host) (write_uint64 host value) value
  read_uint64-Reads value fits = record {
    reads = λ bytes rest h. rw (← wrote-injective h) (ordered_long host.big_endian value rest fits);
  }

  pub read_integer-Reads : (value : ℕ) → Reads (read_integer host) (write_int host value) value
  unfolding read_integer write_int
  read_integer-Reads value =
      refused-Reads (ltb 0x7fff_ffff value) _
        λ small. after-Reads _ (read_uint32-Reads value (ground (arith, small))) (λ rest. rw small)

  sized-Reads :
      (word : WordSize) (value : ℕ)
      → value ≤ max_int host word
      → Reads (Decoder.sized host word) (Written.sized host word value) value
  sized-Reads four_bytes value fits =
      refused-Reads (ltb 0xffff_ffff value) _ λ small. read_uint32-Reads value (omega arith)
  sized-Reads eight_bytes value fits = read_uint64-Reads value (omega arith)

-- The bytes of a text with the 0 behind it.
text_of-append : (host : Host) (text : Text) → text_of host (text ++ 0 ∷ []) ≡ text
text_of-append host [] = refl
text_of-append host (b ∷ []) = refl
text_of-append host (b ∷ c ∷ text) = ap (λ t. b ∷ t) (text_of-append host (c ∷ text))

last_byte : (text : Text) → get_or (text ++ 0 ∷ []) (length text) 0 ≡ 0
last_byte [] = refl
last_byte (b ∷ text) = last_byte text

length-terminated : (text : Text) → length (text ++ 0 ∷ []) ≡ suc (length text)
length-terminated [] = refl
length-terminated (b ∷ text) = ap suc (length-terminated text)

module _ (host : Host) where
  -- A text whose bytes, with the 0 behind them, a Go string of the host can hold.
  abbrev pub TextFits : Text → Type 0
  TextFits text = length text + 1 ≤ max_int host host.word_size

  abbrev pub NameFits : Option Text → Type 0
  NameFits none = Unit
  NameFits (some text) = TextFits text

  terminated-Reads :
      (text : Text) (size : ℕ)
      → size ≡ suc (length text)
      → Reads (read_full size) (wrote text & write_byte 0) (text ++ 0 ∷ [])
  terminated-Reads text size e = record {
    reads = λ bytes rest h.
        rw (← wrote-injective h, e, ← length-terminated text)
          (read_full-append (text ++ 0 ∷ []) rest);
  }

  pub read_string-Reads :
      (name : Option Text) → NameFits name → Reads (read_string host) (write_string host name) name
  unfolding read_string write_string_text
  read_string-Reads none fits =
      after-Reads _ (sized-Reads host host.word_size 0 (omega arith)) (λ rest. refl)
  read_string-Reads (some text) fits =
      bind-Reads _ (sized-Reads host host.word_size (length text + 1) fits) (
        else-Reads (length text + 1 == 0) _ (ground arith) (
          passed-Reads (ltb (max_int host host.word_size) (length text + 1)) _
            (le→ltb_false (max_int host host.word_size) (length text + 1) fits)
            (after-Reads _ (terminated-Reads text (length text + 1) (omega arith))
              λ rest. ends rest)))
    where
      ends :
          (rest : List ℕ)
          → (if get_or (text ++ 0 ∷ []) (length text + 1 - 1) 0 == 0
                then pure (some (text_of host (text ++ 0 ∷ [])))
                else fail bad_string)
              rest
            ≡ got (some text) rest
      ends rest =
          let index : length text + 1 - 1 ≡ length text = omega arith in
          rw (index, last_byte text, text_of-append host text)

  read_each-Reads {ℓ κ} :
      {A : Type ℓ} {B : Type κ} (read : Decoder B) (write : A → Written) (g : A → B) (xs : List A)
      → All (λ x. Reads read (write x) (g x)) xs
      → Reads (read_each (length xs) read) (write_each write xs) (map g xs)
  read_each-Reads read write g [] all = nothing-Reads []
  read_each-Reads read write g (x ∷ xs) (first, rest) =
      bind-Reads _ first (map-Reads (λ ys. g x ∷ ys) (read_each-Reads read write g xs rest))

  pub read_vector-Reads {ℓ κ} :
      {A : Type ℓ} {B : Type κ} (bad : ℕ → Bool) (read : Decoder B) (write : A → Written)
      (g : A → B) (xs : List A)
      → bad (length xs) ≡ false
      → All (λ x. Reads read (write x) (g x)) xs
      → Reads (read_vector host bad read) (write_vector host write xs) (map g xs)
  read_vector-Reads bad read write g xs good all =
      bind-Reads _ (read_integer-Reads host (length xs))
        (passed-Reads (bad (length xs)) _ good (read_each-Reads read write g xs all))
