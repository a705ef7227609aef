-- ===== src/Transaction/Print.antt =====
-- blockchain/v0.3/provided/_transaction_print.c and _transaction_print_brief.c. `out` is what was
-- printed before; no node of a list is NULL.
use holbertonschool_blockcha.Prelude.{
  ℕ, ◌==◌, if◌then◌else◌, Option, none, some, List, [], ◌∷◌, Run, ret, ub, ◌>>=◌,
}
use holbertonschool_blockcha.Prelude.Text.{
  codes, Piece, chars, unsigned, say, print_hex_buffer, put,
}
use holbertonschool_blockcha.Llist.{Llist}
use holbertonschool_blockcha.Crypto.{Sign, ec_pub_len}
use holbertonschool_blockcha.Transaction.Types.{TxOut, TxIn, Transaction}

-- A length that goes beyond the array reads past its end.
unfoldable pub sig_text : Sign → Run (List ℕ)
sig_text sig = if sig.len == 0 then ret (codes "null") else print_hex_buffer sig.len sig.sig

unfoldable pub tx_in_print : List ℕ → TxIn → Run (List ℕ) → ℕ × TxIn × Run (List ℕ)
tx_in_print indent tx_in out = (
  0,
  tx_in,
  put out (
      print_hex_buffer 32 tx_in.block_hash >>= λ block_hash.
      print_hex_buffer 32 tx_in.tx_id >>= λ tx_id.
      print_hex_buffer 32 tx_in.tx_out_hash >>= λ tx_out_hash. sig_text tx_in.sig >>= λ sig. ret (
        chars indent
        ∷ say "\t\t{\n"
        ∷ chars indent
        ∷ say "\t\t\tblock_hash: "
        ∷ chars block_hash
        ∷ say ",\n"
        ∷ chars indent
        ∷ say "\t\t\ttx_id: "
        ∷ chars tx_id
        ∷ say ",\n"
        ∷ chars indent
        ∷ say "\t\t\ttx_out_hash: "
        ∷ chars tx_out_hash
        ∷ say ",\n"
        ∷ chars indent
        ∷ say "\t\t\tsig: "
        ∷ chars sig
        ∷ say "\n"
        ∷ chars indent
        ∷ say "\t\t}\n"
        ∷ [])),
)

unfoldable pub tx_out_print : List ℕ → TxOut → Run (List ℕ) → ℕ × TxOut × Run (List ℕ)
tx_out_print indent tx_out out = (
  0,
  tx_out,
  put out (
      print_hex_buffer ec_pub_len tx_out.pubkey >>= λ pubkey.
      print_hex_buffer 32 tx_out.hash >>= λ hash. ret (
        chars indent
        ∷ say "\t\t{\n"
        ∷ chars indent
        ∷ say "\t\t\tamount: "
        ∷ unsigned tx_out.amount
        ∷ say ",\n"
        ∷ chars indent
        ∷ say "\t\t\tpub: "
        ∷ chars pubkey
        ∷ say ",\n"
        ∷ chars indent
        ∷ say "\t\t\thash: "
        ∷ chars hash
        ∷ say "\n"
        ∷ chars indent
        ∷ say "\t\t}\n"
        ∷ [])),
)

module _ ⦃ll : Llist⦄ where
  -- The indent of the transaction and the one of its parts.
  print_parts : List ℕ → List ℕ → Transaction → Run (List ℕ) → Run (List ℕ)
  print_parts indent inner transaction out =
      let opened = put out (
        ret (
          chars indent
          ∷ say "Transaction: {\n"
          ∷ chars indent
          ∷ say "\tinputs ["
          ∷ unsigned (ll.size transaction.inputs)
          ∷ say "]: [\n"
          ∷ [])) in
      let inputs = (ll.for_each (tx_in_print inner) transaction.inputs opened).2 in
      let between = put inputs (
        ret (
          chars indent
          ∷ say "\t],\n"
          ∷ chars indent
          ∷ say "\toutputs ["
          ∷ unsigned (ll.size transaction.outputs)
          ∷ say "]: [\n"
          ∷ [])) in
      let outputs = (ll.for_each (tx_out_print inner) transaction.outputs between).2 in
      put outputs (
        print_hex_buffer 32 transaction.id >>= λ id. ret (
          chars indent
          ∷ say "\t],\n"
          ∷ chars indent
          ∷ say "\tid: "
          ∷ chars id
          ∷ say "\n"
          ∷ chars indent
          ∷ say "}\n"
          ∷ []))

  unfoldable pub transaction_print_loop :
      List ℕ → Transaction → Run (List ℕ) → ℕ × Transaction × Run (List ℕ)
  unfolding print_parts
  transaction_print_loop indent transaction out =
      (0, transaction, print_parts indent indent transaction out)

  unfoldable pub transaction_print : Option Transaction → Run (List ℕ) → Run (List ℕ)
  unfolding print_parts
  transaction_print none out = out
  transaction_print (some transaction) out = print_parts [] (codes "\t") transaction out

  -- The amount and the key are those of the first output; without outputs they are read through NULL.
  brief_lines : List ℕ → Transaction → Run (List Piece)
  brief_lines indent transaction = elim (ll.get_head transaction.outputs) [
    | none ↦ ub
    | some out ↦
        (print_hex_buffer ec_pub_len out.pubkey >>= λ receiver.
        print_hex_buffer 32 transaction.id >>= λ id. ret (
          chars indent
          ∷ say "Transaction: {\n"
          ∷ chars indent
          ∷ say "\tamount: "
          ∷ unsigned out.amount
          ∷ say " from "
          ∷ unsigned (ll.size transaction.inputs)
          ∷ say " inputs,\n"
          ∷ chars indent
          ∷ say "\treceiver: "
          ∷ chars receiver
          ∷ say "\n"
          ∷ chars indent
          ∷ say "\tid: "
          ∷ chars id
          ∷ say "\n"
          ∷ chars indent
          ∷ say "}\n"
          ∷ []))
  ]

  unfoldable pub transaction_print_brief_loop :
      List ℕ → Transaction → Run (List ℕ) → ℕ × Transaction × Run (List ℕ)
  unfolding brief_lines
  transaction_print_brief_loop indent transaction out =
      (0, transaction, put out (brief_lines indent transaction))

  unfoldable pub transaction_print_brief : Option Transaction → Run (List ℕ) → Run (List ℕ)
  unfolding brief_lines
  transaction_print_brief none out = out
  transaction_print_brief (some transaction) out = put out (brief_lines [] transaction)
