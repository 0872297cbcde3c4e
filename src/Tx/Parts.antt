-- ===== src/Tx/Parts.antt =====
-- The inputs, the outputs and the loops over them of layer1-core/tx/transaction.cpp: each reader is
-- the inverse of a byte form, and each writer appends that byte form.
use drachma_block_chain.Common.{
  ℕ, zero, suc, ◌≡◌, refl, sym, ap, ◌∙◌, arith, false, List, [], ◌∷◌, ◌++◌, append-nil,
  append_assoc, length, length-append, take, drop, take-append, drop-append, take-append-drop,
  length-take, All, All-append, All-take, All-drop, ltb, le→ltb, ltb→le, Result, ok, >>=-eq-ok,
}
use drachma_block_chain.Common.Bytes.{
  IsByte, IsU32, IsU64, le_bytes, le_bytes-IsByte, write_uint32_lem, write_uint64_lem,
}
use drachma_block_chain.Tx.{
  TxIn, TxOut, size32, write_var_bytes, write_input, write_output, write_each, read_input,
  read_output, read_each,
}
use drachma_block_chain.Tx.Codec.{
  IsCodec, read_uint32-IsCodec, read_uint64-IsCodec, read_var_bytes-IsCodec, var_bytes, IsVarBytes,
  reads_first, exact_first, throw_if-eq_ok, ok_pair-subst,
}
use native.Mathlib.Nat.{mod-eq_of_lt}

-- A `std::array<uint8_t, 32>`.
abbrev pub IsHash : List ℕ → Type 0
IsHash h = (length h ≡ 32) × All IsByte h

-- The values that the fields of a `TxIn` and a `TxOut` take in C++.
abbrev pub IsTxIn : TxIn → Type 0
IsTxIn i =
    IsHash i.prevout.hash × IsU32 i.prevout.index × IsVarBytes i.script_sig × IsU32 i.sequence

abbrev pub IsTxOut : TxOut → Type 0
IsTxOut o = IsU64 o.value × IsVarBytes o.script_pub_key

-- The byte forms.
abbrev pub input_bytes : TxIn → List ℕ
input_bytes i =
    i.prevout.hash
    ++ (le_bytes 4 i.prevout.index ++ (var_bytes i.script_sig ++ le_bytes 4 i.sequence))

abbrev pub output_bytes : TxOut → List ℕ
output_bytes o = le_bytes 8 o.value ++ var_bytes o.script_pub_key

abbrev pub each_bytes : {A : Type 0} → (A → List ℕ) → List A → List ℕ
each_bytes bytes [] = []
each_bytes bytes (x ∷ xs) = bytes x ++ each_bytes bytes xs

-- Writing.
pub size32_lem {ℓ} : {A : Type ℓ} (xs : List A) → IsU32 (length xs) → size32 xs ≡ length xs
size32_lem xs h = mod-eq_of_lt h

pub write_var_bytes_lem :
    (out bs : List ℕ) → IsU32 (length bs) → write_var_bytes out bs ≡ out ++ var_bytes bs
unfolding write_var_bytes
write_var_bytes_lem out bs h =
    rw (write_uint32_lem, size32_lem bs h) (append_assoc out (le_bytes 4 (length bs)) bs)

pub write_input_lem :
    (out : List ℕ) (i : TxIn) → IsTxIn i → write_input out i ≡ out ++ input_bytes i
unfolding write_input
write_input_lem out i v =
    simp (write_uint32_lem, write_var_bytes_lem _ i.script_sig v.2.0, append_assoc)

pub write_output_lem :
    (out : List ℕ) (o : TxOut) → IsTxOut o → write_output out o ≡ out ++ output_bytes o
unfolding write_output
write_output_lem out o v =
    simp (write_uint64_lem, write_var_bytes_lem _ o.script_pub_key v.1.0, append_assoc)

pub write_each_lem :
    {A : Type 0} {write : List ℕ → A → List ℕ} {bytes : A → List ℕ} {Valid : A → Type 0}
    → ((out : List ℕ) (x : A) → Valid x → write out x ≡ out ++ bytes x)
    → (out : List ℕ) (xs : List A) → All Valid xs
    → write_each write out xs ≡ out ++ each_bytes bytes xs
unfolding write_each
write_each_lem one out [] v = sym (append-nil out)
write_each_lem {bytes} one out (x ∷ xs) v =
    rw (one out x v.0) (
      write_each_lem one (out ++ bytes x) xs v.1 ∙ append_assoc out (bytes x) (each_bytes bytes xs))

-- Reading.
abbrev Taken : {A : Type 0} → (A → List ℕ) → (A → Type 0) → List ℕ → A → List ℕ → Type 0
Taken bytes Valid src a rest = (src ≡ bytes a ++ rest) × Valid a × All IsByte rest

input_parts :
    (src : List ℕ) (n : ℕ) (script : List ℕ) (q : ℕ) (src₁ src₂ rest : List ℕ)
    → drop 32 src ≡ le_bytes 4 n ++ src₁
    → src₁ ≡ var_bytes script ++ src₂
    → src₂ ≡ le_bytes 4 q ++ rest
    → src ≡ (take 32 src ++ (le_bytes 4 n ++ (var_bytes script ++ le_bytes 4 q))) ++ rest
input_parts src n script q src₁ src₂ rest s₁ s₂ s₃ =
    sym (take-append-drop 32 src) ∙ rw (s₁, s₂, s₃) (simp append_assoc)

input_exact :
    (src : List ℕ) (i : TxIn) (rest : List ℕ)
    → All IsByte src
    → read_input src ≡ ok (i, rest)
    → Taken input_bytes IsTxIn src i rest
unfolding read_input
input_exact src i rest h e =
    let (long, e₁) = throw_if-eq_ok _ _ _ e in
    exact_first read_uint32-IsCodec _ (drop 32 src) (All-drop IsByte 32 src h) e₁
      λ n src₁ s₁ v₁ h₁ e₂.
        exact_first read_var_bytes-IsCodec _ src₁ h₁ e₂ λ script src₂ s₂ v₂ h₂ e₃.
          exact_first read_uint32-IsCodec _ src₂ h₂ e₃ λ q src₃ s₃ v₃ h₃ e₄.
            ok_pair-subst (Taken input_bytes IsTxIn src) e₄ (
              input_parts src n script q src₁ src₂ src₃ s₁ s₂ s₃,
              ((hash_size long, All-take IsByte 32 src h), v₁, v₂, v₃),
              h₃,
            )
  where
    hash_size : ltb (length src) 32 ≡ false → length (take 32 src) ≡ 32
    hash_size long = length-take 32 src ∙ omega (arith, ltb→le (length src) 32 long)

input_split :
    (i : TxIn) (rest : List ℕ)
    → input_bytes i ++ rest
      ≡ i.prevout.hash
        ++ (le_bytes 4 i.prevout.index
            ++ (var_bytes i.script_sig ++ (le_bytes 4 i.sequence ++ rest)))
input_split i rest = simp append_assoc

input_reads :
    (i : TxIn) (rest : List ℕ)
    → IsTxIn i
    → All IsByte rest
    → read_input (input_bytes i ++ rest) ≡ ok (i, rest)
unfolding read_input
input_reads i rest v r =
    let last = le_bytes 4 i.sequence ++ rest in
    let mid = var_bytes i.script_sig ++ last in
    let tail = le_bytes 4 i.prevout.index ++ mid in
    let r₁ : All IsByte last =
      All-append IsByte (le_bytes 4 i.sequence) rest (le_bytes-IsByte 4 _) r in
    let r₂ : All IsByte mid =
      All-append IsByte (var_bytes i.script_sig) last (read_var_bytes-IsCodec.are_bytes _ v.2) r₁ in
    let size : ltb (length (i.prevout.hash ++ tail)) 32 ≡ false =
      le→ltb _ 32 (omega (arith, v.0.0, length-append i.prevout.hash tail)) in
    rw
      (
        input_split,
        size,
        take-append i.prevout.hash tail 32 (sym v.0.0),
        drop-append i.prevout.hash tail 32 (sym v.0.0),
      )
      (reads_first read_uint32-IsCodec _ i.prevout.index mid v.1 r₂
        ∙ reads_first read_var_bytes-IsCodec _ i.script_sig last v.2 r₁
        ∙ reads_first read_uint32-IsCodec _ i.sequence rest v.3 r)

input_are_bytes : (i : TxIn) → IsTxIn i → All IsByte (input_bytes i)
input_are_bytes i v = All-append IsByte i.prevout.hash _ v.0.1 (
    All-append IsByte (le_bytes 4 i.prevout.index) _ (le_bytes-IsByte 4 _) (
      All-append IsByte (var_bytes i.script_sig) _ (read_var_bytes-IsCodec.are_bytes _ v.2)
        (le_bytes-IsByte 4 i.sequence)))

pub read_input-IsCodec : IsCodec read_input input_bytes IsTxIn
read_input-IsCodec = record {
  are_bytes = input_are_bytes;
  reads = input_reads;
  exact = input_exact;
}

output_exact :
    (src : List ℕ) (o : TxOut) (rest : List ℕ)
    → All IsByte src
    → read_output src ≡ ok (o, rest)
    → Taken output_bytes IsTxOut src o rest
unfolding read_output
output_exact src o rest h e = exact_first read_uint64-IsCodec _ src h e λ n src₁ s₁ v₁ h₁ e₁.
    exact_first read_var_bytes-IsCodec _ src₁ h₁ e₁ λ script src₂ s₂ v₂ h₂ e₂.
      ok_pair-subst (Taken output_bytes IsTxOut src) e₂
        (s₁ ∙ rw s₂ (simp append_assoc), (v₁, v₂), h₂)

output_reads :
    (o : TxOut) (rest : List ℕ)
    → IsTxOut o
    → All IsByte rest
    → read_output (output_bytes o ++ rest) ≡ ok (o, rest)
unfolding read_output
output_reads o rest v r = rw (append_assoc (le_bytes 8 o.value) (var_bytes o.script_pub_key) rest) (
    reads_first read_uint64-IsCodec _ o.value (var_bytes o.script_pub_key ++ rest) v.0 (
      All-append IsByte (var_bytes o.script_pub_key) rest (read_var_bytes-IsCodec.are_bytes _ v.1)
        r)
    ∙ reads_first read_var_bytes-IsCodec _ o.script_pub_key rest v.1 r)

pub read_output-IsCodec : IsCodec read_output output_bytes IsTxOut
read_output-IsCodec = record {
  are_bytes = λ o v.
      All-append IsByte (le_bytes 8 o.value) _ (le_bytes-IsByte 8 _)
        (read_var_bytes-IsCodec.are_bytes _ v.1);
  reads = output_reads;
  exact = output_exact;
}

module _ {A : Type 0} {read : List ℕ → Result (A × List ℕ)} {bytes : A → List ℕ}
    {Valid : A → Type 0} (c : IsCodec read bytes Valid) where
  abbrev pub IsEach : ℕ → List A → Type 0
  IsEach n xs = (length xs ≡ n) × All Valid xs

  IsEach-exact :
      (n : ℕ) (src : List ℕ) (xs : List A) (rest : List ℕ)
      → All IsByte src
      → read_each read n src ≡ ok (xs, rest)
      → Taken (each_bytes bytes) (IsEach n) src xs rest
  unfolding read_each
  IsEach-exact zero src xs rest h e =
      ok_pair-subst (Taken (each_bytes bytes) (IsEach zero) src) e (refl, (refl, tt), h)
  IsEach-exact (suc n) src xs rest h e = exact_first c _ src h e λ x src₁ s₁ v₁ h₁ e₁.
      let ((ys, rest'), e₂, e₃) = >>=-eq-ok (read_each read n src₁) _ e₁ in
      let (s₂, v₂, h₂) = IsEach-exact n src₁ ys rest' h₁ e₂ in
      ok_pair-subst (Taken (each_bytes bytes) (IsEach (suc n)) src) e₃ (
        s₁ ∙ ap (λ t. bytes x ++ t) s₂ ∙ sym (append_assoc (bytes x) _ rest'),
        (ap suc v₂.0, (v₁, v₂.1)),
        h₂,
      )

  each_are_bytes : (xs : List A) → All Valid xs → All IsByte (each_bytes bytes xs)
  each_are_bytes [] v = tt
  each_are_bytes (x ∷ xs) v =
      All-append IsByte (bytes x) _ (c.are_bytes x v.0) (each_are_bytes xs v.1)

  each_reads :
      (n : ℕ) (xs : List A) (rest : List ℕ)
      → IsEach n xs
      → All IsByte rest
      → read_each read n (each_bytes bytes xs ++ rest) ≡ ok (xs, rest)
  unfolding read_each
  each_reads zero [] rest v r = refl
  each_reads zero (x ∷ xs) rest v r = absurd (omega (arith, v.0))
  each_reads (suc n) [] rest v r = absurd (omega (arith, v.0))
  each_reads (suc n) (x ∷ xs) rest v r = rw append_assoc (
      reads_first c _ x (each_bytes bytes xs ++ rest) v.1.0
        (All-append IsByte (each_bytes bytes xs) rest (each_are_bytes xs v.1.1) r)
      ∙ rw (each_reads n xs rest (omega (arith, v.0), v.1.1) r))

  pub read_each-IsCodec : (n : ℕ) → IsCodec (read_each read n) (each_bytes bytes) (IsEach n)
  read_each-IsCodec n = record {
    are_bytes = λ xs v. each_are_bytes xs v.1;
    reads = each_reads n;
    exact = IsEach-exact n;
  }
