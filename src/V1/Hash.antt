-- ===== src/V1/Hash.antt =====
-- blockchain/v0.1/block_hash.c, which version 0.2 shares.
use holbertonschool_blockcha.Prelude.{
  ℕ, ◌+◌, ltb, if◌then◌else◌, Option, none, some, List, ◌++◌, take, Run, ret, ub,
}
use holbertonschool_blockcha.Prelude.Host.{Host, bytes_of}
use holbertonschool_blockcha.Crypto.{Openssl, sha256}
use holbertonschool_blockcha.Block.Types.{info_bytes}
use holbertonschool_blockcha.V1.Types.{Block}

module _ ⦃host : Host⦄ where
  -- A `block_t` as an array of char: its 1116 bytes before the padding at its end.
  unfoldable pub struct_bytes : Block → List ℕ
  struct_bytes block =
      info_bytes block.info
      ++ (block.contents.buffer ++ (bytes_of 4 block.contents.len ++ block.hash))

module _ ⦃host : Host⦄ ⦃ssl : Openssl⦄ where
  -- `none` is NULL. A length past the data's buffer hashes the members that follow it, and one past
  -- those reads padding or memory outside the block.
  unfoldable pub block_hash : Option Block → Run (Option (List ℕ))
  block_hash none = ret none
  block_hash (some block) =
      let len = 56 + block.contents.len in
      if ltb 1116 len then ub else ret (sha256 (take len (struct_bytes block)))
