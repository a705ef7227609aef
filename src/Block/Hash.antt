-- ===== src/Block/Hash.antt =====
-- blockchain/v0.3/block_hash.c.
use holbertonschool_blockcha.Prelude.{
  ℕ, ltb, if◌then◌else◌, Option, none, some, List, ◌++◌, take, Run, ret, ub,
}
use holbertonschool_blockcha.Prelude.Host.{Host}
use holbertonschool_blockcha.Llist.{Llist}
use holbertonschool_blockcha.Crypto.{Openssl, sha256}
use holbertonschool_blockcha.Transaction.Types.{Transaction}
use holbertonschool_blockcha.Block.Types.{Block, info_bytes, blockchain_data_max}

unfoldable pub hash_transaction_ids : Transaction → List ℕ → ℕ × Transaction × List ℕ
hash_transaction_ids transaction buffer = (0, transaction, buffer ++ transaction.id)

module _ ⦃ll : Llist⦄ where
  -- `llist_for_each` over a NULL list does nothing.
  unfoldable pub append_ids : Option (List Transaction) → List ℕ → List ℕ
  append_ids none buffer = buffer
  append_ids (some transactions) buffer =
      let (_, _, filled) = ll.for_each hash_transaction_ids transactions buffer in filled

module _ ⦃host : Host⦄ ⦃ll : Llist⦄ ⦃ssl : Openssl⦄ where
  -- One copy takes the info and the data that follows it: past the data's buffer it reads other
  -- members and padding. The result of `sha256` is not looked at: on failure `hash_buf` stays.
  unfoldable pub block_hash : Block → List ℕ → Run (List ℕ)
  block_hash block hash_buf =
      if ltb blockchain_data_max block.contents.len
      then ub
      else (let buffer = info_bytes block.info ++ take block.contents.len block.contents.buffer in
          elim (sha256 (append_ids block.transactions buffer)) [
            | none ↦ ret hash_buf
            | some digest ↦ ret digest
          ])
