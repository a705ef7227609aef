-- ===== src/Transaction/Hash/Total.antt =====
-- What is hashed for a transaction, and when there is a hash.
use holbertonschool_blockcha.Prelude.{
  ℕ, ◌+◌, ◌*◌, ◌<◌, ◌≡◌, ◌≢◌, refl, All, length-append, replicate, take, take-append_length, none,
  some, List, [], ◌∷◌, ◌++◌, length, append_assoc, append-nil, Option-cases, inl, inr, ne→==_false,
  if◌then◌else◌, ◌==◌, arith, ◌∙◌,
}
use holbertonschool_blockcha.Llist.{Llist, run_each}
use holbertonschool_blockcha.Crypto.{Openssl, sha256}
use holbertonschool_blockcha.Transaction.Types.{TxOut, TxIn, Transaction}
use holbertonschool_blockcha.Transaction.Hash.{hash_inputs, hash_outputs, transaction_hash}

-- The bytes that stand for the inputs and the outputs.
unfoldable pub references : List TxIn → List ℕ
references [] = []
references (i ∷ is) = i.block_hash ++ (i.tx_id ++ (i.tx_out_hash ++ references is))

unfoldable pub output_hashes : List TxOut → List ℕ
output_hashes [] = []
output_hashes (o ∷ os) = o.hash ++ output_hashes os

each_inputs :
    (is : List TxIn) (buffer : List ℕ)
    → run_each hash_inputs is buffer ≡ (0, is, buffer ++ references is)
unfolding run_each hash_inputs references
each_inputs [] buffer = rw append-nil
each_inputs (i ∷ is) buffer = simp (each_inputs is, append_assoc)

each_outputs :
    (os : List TxOut) (buffer : List ℕ)
    → run_each hash_outputs os buffer ≡ (0, os, buffer ++ output_hashes os)
unfolding run_each hash_outputs output_hashes
each_outputs [] buffer = rw append-nil
each_outputs (o ∷ os) buffer = simp (each_outputs os, append_assoc)

-- The buffer when everything was copied.
unfoldable pub message : List TxIn → List TxOut → List ℕ
message is os =
    let buffer_size = 96 * length is + 32 * length os in
    take buffer_size ((references is ++ output_hashes os) ++ replicate buffer_size 0)

-- The hashes that an input names have 32 bytes.
pub record HasReference (i : TxIn) : Type 0 where
  pub block_hash : length i.block_hash ≡ 32
  pub tx_id : length i.tx_id ≡ 32
  pub tx_out_hash : length i.tx_out_hash ≡ 32

length-references : (is : List TxIn) → All HasReference is → length (references is) ≡ 96 * length is
unfolding references
length-references [] h = refl
length-references (i ∷ is) (h, hs) = omega (
  arith,
  length-append i.block_hash (i.tx_id ++ (i.tx_out_hash ++ references is)),
  length-append i.tx_id (i.tx_out_hash ++ references is),
  length-append i.tx_out_hash (references is),
  h.block_hash,
  h.tx_id,
  h.tx_out_hash,
  length-references is hs,
)

length-output_hashes :
    (os : List TxOut)
    → All (λ o. length o.hash ≡ 32) os
    → length (output_hashes os) ≡ 32 * length os
unfolding output_hashes
length-output_hashes [] h = refl
length-output_hashes (o ∷ os) (h, hs) =
    omega (arith, length-append o.hash (output_hashes os), h, length-output_hashes os hs)

-- The copies fill the buffer exactly.
message_lem :
    (is : List TxIn) (os : List TxOut)
    → All HasReference is
    → All (λ o. length o.hash ≡ 32) os
    → message is os ≡ references is ++ output_hashes os
unfolding message
message_lem is os hi ho =
    take-append_length (96 * length is + 32 * length os) (references is ++ output_hashes os) _ (
      omega (
        arith,
        length-append (references is) (output_hashes os),
        length-references is hi,
        length-output_hashes os ho,
      ))

-- Equal references of as many inputs make equal messages.
pub message_cong :
    (is is' : List TxIn) (os : List TxOut)
    → references is' ≡ references is
    → length is' ≡ length is
    → message is' os ≡ message is os
unfolding message
message_cong is is' os refs same = rw (refs, same) refl

no_parts : (n m : ℕ) → (96 * n + 32 * m == 0) ≡ (n + m == 0)
no_parts n m = ground arith

module _ ⦃ll : Llist⦄ ⦃ssl : Openssl⦄ where
  -- What is hashed, whatever the lengths of the arrays.
  pub transaction_hash-message :
      (t : Transaction)
      → transaction_hash t ≡ (
          if 96 * length t.inputs + 32 * length t.outputs == 0
          then none
          else sha256 (message t.inputs t.outputs))
  unfolding transaction_hash message
  transaction_hash-message t = simp (ll.size_eq, ll.for_each_eq, each_inputs, each_outputs)

  -- If the hashes in its inputs and outputs have 32 bytes, the hash of a transaction is the digest
  -- of exactly the references of its inputs, then of the hashes of its outputs, with none left out
  -- and nothing behind them; a transaction with neither inputs nor outputs has none.
  pub transaction_hash_lem :
      (t : Transaction)
      → All HasReference t.inputs
      → All (λ o. length o.hash ≡ 32) t.outputs
      → transaction_hash t ≡ (
          if length t.inputs + length t.outputs == 0
          then none
          else sha256 (references t.inputs ++ output_hashes t.outputs))
  transaction_hash_lem t hi ho =
      transaction_hash-message t
      ∙ rw (message_lem t.inputs t.outputs hi ho, no_parts (length t.inputs) (length t.outputs))
          refl

  pub transaction_hash-some :
      (t : Transaction)
      → ((s : List ℕ) → sha256 s ≢ none)
      → 0 < length t.inputs + length t.outputs
      → (d : List ℕ) × (transaction_hash t ≡ some d)
  transaction_hash-some t digests h = elim (Option-cases (sha256 (message t.inputs t.outputs))) [
    | inl failed ↦ absurd (digests _ failed)
    | inr (d, e) ↦ (
      d,
      transaction_hash-message t
          ∙ rw (ne→==_false (96 * length t.inputs + 32 * length t.outputs) 0 (omega arith)) e,
    )
  ]
