-- ===== src/Tx/Codec.antt =====
-- What a reader and a byte form have to do with one another, and the readers of
-- layer1-core/tx/transaction.cpp under that law.
use drachma_block_chain.Common.{
  ℕ, ◌≡◌, refl, sym, ap, ◌∙◌, arith, List, ◌++◌, append_assoc, length, length-append, take, drop,
  take-append, drop-append, take-append-drop, length-take, All, All-append, All-take, All-drop, ltb,
  le→ltb, ltb→le, Bool, true, false, Result, Error, ok, throw_if, ◌>>=◌, ◌>>◌, >>=-eq-ok,
  ok_pair-injective,
}
use drachma_block_chain.Common.Bytes.{
  IsByte, IsU32, IsU64, read_uint32, read_uint64, le_bytes, le_bytes-IsByte, read_uint32-le_bytes,
  read_uint32-eq_ok, read_uint64-le_bytes, read_uint64-eq_ok,
}
use drachma_block_chain.Tx.{read_var_bytes}
use mathlib.Core.Path.{subst, subst₂}

-- A reader takes the byte form off the front of its input, and succeeds on nothing else.
pub record IsCodec {A : Type 0} (read : List ℕ → Result (A × List ℕ)) (bytes : A → List ℕ)
    (Valid : A → Type 0) : Type 0 where
  pub are_bytes : (a : A) → Valid a → All IsByte (bytes a)
  pub reads :
      (a : A) (rest : List ℕ) → Valid a → All IsByte rest → read (bytes a ++ rest) ≡ ok (a, rest)
  pub exact :
      (src : List ℕ) (a : A) (rest : List ℕ)
      → All IsByte src
      → read src ≡ ok (a, rest)
      → (src ≡ bytes a ++ rest) × Valid a × All IsByte rest

pub read_uint32-IsCodec : IsCodec read_uint32 (le_bytes 4) IsU32
read_uint32-IsCodec = record {
  are_bytes = λ v h. le_bytes-IsByte 4 v;
  reads = λ v rest h r. read_uint32-le_bytes v rest r h;
  exact = λ src v rest a e. let (s, r, h) = read_uint32-eq_ok src v rest a e in (s, h, r);
}

pub read_uint64-IsCodec : IsCodec read_uint64 (le_bytes 8) IsU64
read_uint64-IsCodec = record {
  are_bytes = λ v h. le_bytes-IsByte 8 v;
  reads = λ v rest h r. read_uint64-le_bytes v rest r h;
  exact = λ src v rest a e. let (s, r, h) = read_uint64-eq_ok src v rest a e in (s, h, r);
}

-- A reader before the rest of a chain, on its byte form and on any input that the chain accepts.
module _ {A B : Type 0} {read : List ℕ → Result (A × List ℕ)} {bytes : A → List ℕ}
    {Valid : A → Type 0} (c : IsCodec read bytes Valid) (f : A × List ℕ → Result B) where
  pub reads_first :
      (a : A) (rest : List ℕ)
      → Valid a
      → All IsByte rest
      → (read (bytes a ++ rest) >>= f) ≡ f (a, rest)
  reads_first a rest v r = ap (λ m. m >>= f) (c.reads a rest v r)

  pub exact_first {ℓ} :
      {C : Type ℓ} (src : List ℕ) {b : B}
      → All IsByte src
      → (read src >>= f) ≡ ok b
      → ((a : A) (rest : List ℕ)
          → src ≡ bytes a ++ rest
          → Valid a
          → All IsByte rest
          → f (a, rest) ≡ ok b
          → C)
      → C
  exact_first src h e k =
      let ((a, rest), e₁, e₂) = >>=-eq-ok (read src) f e in
      let (s, v, r) = c.exact src a rest h e₁ in k a rest s v r e₂

-- What holds of a value and a rest holds of those that a chain returns.
pub ok_pair-subst {ℓ} :
    {A B : Type 0} (P : A → B → Type ℓ) {a c : A} {b d : B}
    → ◌≡◌ {A = Result (A × B)} (ok (a, b)) (ok (c, d))
    → P a b
    → P c d
ok_pair-subst P e h = let (p, q) = ok_pair-injective e in subst₂ P p q h

-- A test before the rest of a chain that succeeds has not thrown.
pub throw_if-eq_ok :
    {B : Type 0} (t : Bool) (x : Error) (k : Result B) {b : B}
    → (throw_if t x >> k) ≡ ok b
    → (t ≡ false) × (k ≡ ok b)
throw_if-eq_ok true x k e = cc
throw_if-eq_ok false x k e = (refl, e)

abbrev pub var_bytes : List ℕ → List ℕ
var_bytes bs = le_bytes 4 (length bs) ++ bs

abbrev pub IsVarBytes : List ℕ → Type 0
IsVarBytes bs = IsU32 (length bs) × All IsByte bs

taken :
    (src bs rest : List ℕ) (n : ℕ) (more : List ℕ)
    → src ≡ le_bytes 4 n ++ more
    → IsU32 n
    → All IsByte more
    → (ltb (length more) n ≡ false)
      × ◌≡◌ {A = Result (List ℕ × List ℕ)} (ok (take n more, drop n more)) (ok (bs, rest))
    → (src ≡ var_bytes bs ++ rest) × IsVarBytes bs × All IsByte rest
taken src bs rest n more s v r (long, e) =
    let (p, q) = ok_pair-injective e in
    let size : length bs ≡ n =
      ap length (sym p) ∙ length-take n more ∙ omega (arith, ltb→le _ _ long) in
    (
      cc (s, size, p, q, take-append-drop n more, append_assoc (le_bytes 4 (length bs)) bs rest),
      (omega arith, subst (All IsByte) p (All-take IsByte n more r)),
      subst (All IsByte) q (All-drop IsByte n more r),
    )

pub read_var_bytes-IsCodec : IsCodec read_var_bytes var_bytes IsVarBytes
unfolding read_var_bytes
read_var_bytes-IsCodec = record {
  are_bytes = λ bs h. All-append IsByte (le_bytes 4 (length bs)) bs (le_bytes-IsByte 4 _) h.1;
  reads = reads;
  exact = exact;
}
  where
    reads :
        (bs rest : List ℕ)
        → IsVarBytes bs
        → All IsByte rest
        → read_var_bytes (var_bytes bs ++ rest) ≡ ok (bs, rest)
    reads bs rest v r = rw append_assoc (
        reads_first read_uint32-IsCodec _ (length bs) (bs ++ rest) v.0
          (All-append IsByte bs rest v.1 r)
        ∙ rw (
          le→ltb (length (bs ++ rest)) (length bs) (omega (arith, length-append bs rest)),
          take-append bs rest _ refl,
          drop-append bs rest _ refl,
        ))

    exact :
        (src bs rest : List ℕ)
        → All IsByte src
        → read_var_bytes src ≡ ok (bs, rest)
        → (src ≡ var_bytes bs ++ rest) × IsVarBytes bs × All IsByte rest
    exact src bs rest h e =
        exact_first read_uint32-IsCodec _ src h e
          (λ n more s v r e₁. taken src bs rest n more s v r (throw_if-eq_ok _ _ _ e₁))
