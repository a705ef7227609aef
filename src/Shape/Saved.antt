-- ===== src/Shape/Saved.antt =====
-- Chains that the client made are saved and loaded again (cli/handle_save.c, cli/handle_load.c).
use holbertonschool_blockcha.Prelude.{
  ℕ, ◌^◌, ◌<◌, ◌≡◌, true, Option, none, some, List, [], ◌∷◌, All, length, ret, ◌>>=◌, >>=-eq-ret,
  Option-cases, inl, inr,
}
use holbertonschool_blockcha.Prelude.Host.{Host}
use holbertonschool_blockcha.Llist.{Llist}
use holbertonschool_blockcha.Crypto.{Openssl}
use holbertonschool_blockcha.Transaction.Types.{TxIn, Transaction}
use holbertonschool_blockcha.Block.Types.{Block, Blockchain}
use holbertonschool_blockcha.Chain.WellFormed.{
  IsTxIn, IsTransaction, IsTransactions, IsBlock, IsBlockchain,
}
use holbertonschool_blockcha.Chain.Serialize.{blockchain_serialize}
use holbertonschool_blockcha.Chain.Deserialize.{blockchain_deserialize}
use holbertonschool_blockcha.Chain.RoundTrip.{deserialize-serialize}
use holbertonschool_blockcha.Cli.State.{done, State, World}
use holbertonschool_blockcha.Cli.Command.{handle_save, handle_load}
use holbertonschool_blockcha.Shape.{HasInShape, HasTxShape, HaveShape, HasBlockShape}
use holbertonschool_blockcha.Shape.Commands.{SortsUnspent}
use holbertonschool_blockcha.Shape.Reached.{Reached, Reached-HasStateShape}

abbrev pub CountedTx : Transaction → Type 0
CountedTx t = (length t.inputs < 2 ^ 31) × (length t.outputs < 2 ^ 31)

abbrev pub CountedTransactions : Option (List Transaction) → Type 0
CountedTransactions none = Unit
CountedTransactions (some l) = (length l < 2 ^ 31) × All CountedTx l

-- The counts that a file has room for: its header holds unsigned ints, and a loop over
-- transactions, inputs or outputs is over an int.
abbrev pub Counted : Blockchain → Type 0
Counted c =
    (length c.chain < 2 ^ 32)
    × (length c.unspent < 2 ^ 32)
    × All (λ b. CountedTransactions b.transactions) c.chain

arrays_of : (is : List TxIn) → All HasInShape is → All IsTxIn is
arrays_of [] h = tt
arrays_of (i ∷ is) (h, hs) = (h.arrays, arrays_of is hs)

counted_transaction : (t : Transaction) → CountedTx t → HasTxShape t → IsTransaction t
counted_transaction t (ins, outs) h = record {
  id = h.id;
  inputs_fit = ins;
  outputs_fit = outs;
  inputs = arrays_of t.inputs h.inputs;
  outputs = h.outputs;
}

counted_list : (ts : List Transaction) → All CountedTx ts → All HasTxShape ts → All IsTransaction ts
counted_list [] c h = tt
counted_list (t ∷ ts) (c, cs) (h, hs) = (counted_transaction t c h, counted_list ts cs hs)

counted_transactions :
    (index : ℕ) (o : Option (List Transaction))
    → CountedTransactions o
    → HaveShape index o
    → IsTransactions index o
counted_transactions index none c h = tt
counted_transactions index (some ts) (n, cs) (nonzero, hs) = (nonzero, n, counted_list ts cs hs)

counted_blocks :
    (l : List Block)
    → All (λ b. CountedTransactions b.transactions) l
    → All HasBlockShape l
    → All IsBlock l
counted_blocks [] c h = tt
counted_blocks (b ∷ l) (c, cs) (h, hs) = (
  record {
    info = h.info;
    contents = h.contents;
    transactions = counted_transactions b.info.index b.transactions c h.transactions;
    hash = h.hash;
  },
  counted_blocks l cs hs,
)

module _ ⦃host : Host⦄ ⦃ll : Llist⦄ ⦃ssl : Openssl⦄ where
  Reached-IsBlockchain :
      {s : State} → SortsUnspent → Reached s → Counted s.blockchain → IsBlockchain s.blockchain
  Reached-IsBlockchain {s} sorts r (chain_fits, unspent_fits, cs) =
      let h = Reached-HasStateShape sorts r in
      record {
        chain_fits = chain_fits;
        unspent_fits = unspent_fits;
        chain = counted_blocks s.blockchain.chain cs h.chain;
        unspent = h.unspent;
      }

  -- In every state that the commands but `load` reach from the first one and whose lists can be
  -- counted, `save` to a file that can be written and then `load` of it, in any state, succeed
  -- with the chain and the unspent outputs that were saved, if sorting makes no outputs up.
  pub handle_load-handle_save :
      {s : State} (w w' : World) (other : State) (path : List ℕ)
      → SortsUnspent
      → Reached s
      → Counted s.blockchain
      → w.can_write path ≡ true
      → (handle_save w s path >>= λ saved.
          handle_load (record w' { file_at = λ _. saved.1 }) other path)
        ≡ ret (done, record other { blockchain = s.blockchain })
  unfolding handle_save handle_load
  handle_load-handle_save {s} w w' other path sorts r c can =
      let (written, saved, loaded) =
        >>=-eq-ret (blockchain_serialize true (some s.blockchain)) blockchain_deserialize
          (deserialize-serialize s.blockchain (Reached-IsBlockchain sorts r c)) in
      elim (Option-cases written) [
        | inl e ↦ rw (handle_save, can, saved, e, handle_load, rw e at loaded)
        | inr (bytes, e) ↦ rw (handle_save, can, saved, e, handle_load, rw e at loaded)
      ]
