-- ===== src/Transaction/Outputs.antt =====
-- tx_out_create.c, unspent_tx_out_create.c and tx_in_create.c of blockchain/v0.3/transaction/.
use holbertonschool_blockcha.Prelude.{
  ℕ, ◌==◌, if◌then◌else◌, Option, none, some, List, ◌++◌, replicate,
}
use holbertonschool_blockcha.Prelude.Host.{Host, bytes_of}
use holbertonschool_blockcha.Prelude.Maybe.{◌>>=◌}
use holbertonschool_blockcha.Crypto.{Openssl, Sign, sha256, sig_max_len}
use holbertonschool_blockcha.Transaction.Types.{TxOut, TxIn, UnspentTxOut}

module _ ⦃host : Host⦄ ⦃ssl : Openssl⦄ where
  unfoldable pub tx_out_create : ℕ → List ℕ → Option TxOut
  tx_out_create amount pubkey = if amount == 0 then none else do
    hash ← sha256 (bytes_of 4 amount ++ pubkey)
    some (record { amount = amount; pubkey = pubkey; hash = hash })

unfoldable pub unspent_tx_out_create : List ℕ → List ℕ → TxOut → UnspentTxOut
unspent_tx_out_create block_hash tx_id out = record {
  block_hash = block_hash;
  tx_id = tx_id;
  out = out;
}

abbrev pub no_sign : Sign
no_sign = record { sig = replicate sig_max_len 0; len = 0 }

unfoldable pub tx_in_create : UnspentTxOut → TxIn
tx_in_create unspent = record {
  block_hash = unspent.block_hash;
  tx_id = unspent.tx_id;
  tx_out_hash = unspent.out.hash;
  sig = no_sign;
}
