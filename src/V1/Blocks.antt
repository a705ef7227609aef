-- ===== src/V1/Blocks.antt =====
-- What `blocks` of blockchain/v0.1/blockchain_deserialize.c reads from the blocks that
-- `blockchain_serialize` wrote, on a machine of the same byte order or of the other one.
use holbertonschool_blockcha.Prelude.{
  ℕ, ◌≤◌, ◌≡◌, true, false, Bool, le→ltb, some, List, ◌++◌, append_assoc, ◌∙◌, length, take,
  length-take, ret, arith, if◌then◌else◌,
}
use holbertonschool_blockcha.Prelude.Host.{Host, bytes_of, value_of, length-bytes_of}
use holbertonschool_blockcha.Block.Types.{BlockInfo, info_bytes}
use holbertonschool_blockcha.Chain.WellFormed.{IsInfo, IsContents}
use holbertonschool_blockcha.V1.Types.{Block}
use holbertonschool_blockcha.V1.Reader.{
  Reader, ◌>>=◌, pure, read, read_into, bind-ret, bind-read, read-append,
}
use holbertonschool_blockcha.V1.Deserialize.{
  swapendian32, swap_info, read_value, read_info, read_block,
}
use holbertonschool_blockcha.V1.Order.{differs, seen, swapped, swapped_4, swapped_8, kept}

pub record IsBlock (b : Block) : Type 0 where
  pub info : IsInfo b.info
  pub contents : IsContents b.contents
  pub hash : length b.hash ≡ 32

-- What becomes of a block: `d` says that the byte orders differ.
unfoldable pub loaded : Bool → Block → Block
loaded d b = record b {
  info = record b.info { timestamp = kept d b.info.timestamp; nonce = kept d b.info.nonce };
}

swap_info_lem :
    (d : Bool) (i : BlockInfo) (index difficulty timestamp nonce : ℕ)
    → (if d then swapendian32 i.index else i.index) ≡ index
    → (if d then swapendian32 i.difficulty else i.difficulty) ≡ difficulty
    → (if d then swapendian32 i.timestamp else i.timestamp) ≡ timestamp
    → (if d then swapendian32 i.nonce else i.nonce) ≡ nonce
    → swap_info d i
      ≡ record i { index = index; difficulty = difficulty; timestamp = timestamp; nonce = nonce }
unfolding swap_info
swap_info_lem true i a b c d ha hb hc hd = rw (ha, hb, hc, hd)
swap_info_lem false i a b c d ha hb hc hd = rw (← ha, ← hb, ← hc, ← hd)

read_into_lem : (n : ℕ) → n ≤ 1024 → (file : List ℕ) → read_into 1024 n file ≡ read n file
unfolding read_into
read_into_lem n h file = rw (le→ltb 1024 n h)

-- What a block of legal length leaves in the file.
abbrev pub block_record : Host → Block → List ℕ
block_record from b =
    info_bytes ⦃host = from⦄ b.info
    ++ (bytes_of ⦃host = from⦄ 4 b.contents.len
        ++ (take b.contents.len b.contents.buffer ++ b.hash))

module _ (from to : Host) where
  pub bind-read_value :
      {B : Type 0} (w n : ℕ) (f : ℕ → Reader B) (rest : List ℕ)
      → (read_value ⦃host = to⦄ w >>= f) (bytes_of ⦃host = from⦄ w n ++ rest)
        ≡ f (seen from to w n) rest
  unfolding read_value
  bind-read_value w n f rest =
      bind-ret (read_value ⦃host = to⦄ w) f (bytes_of ⦃host = from⦄ w n ++ rest)
        (bind-read (length-bytes_of ⦃host = from⦄ w n) (λ bs. pure (value_of ⦃host = to⦄ bs)) rest)

  abbrev seen_info : BlockInfo → BlockInfo
  seen_info i = record {
    index = seen from to 4 i.index;
    difficulty = seen from to 4 i.difficulty;
    timestamp = seen from to 8 i.timestamp;
    nonce = seen from to 8 i.nonce;
    prev_hash = i.prev_hash;
  }

  info-read :
      (i : BlockInfo)
      → IsInfo i
      → (rest : List ℕ)
      → read_info ⦃host = to⦄ (info_bytes ⦃host = from⦄ i ++ rest) ≡ ret (some (seen_info i, rest))
  unfolding read_info info_bytes
  info-read i h rest = simp (append_assoc, bind-read_value, bind-read h.prev_hash)

  bind-info :
      (i : BlockInfo)
      → IsInfo i
      → {B : Type 0} (f : BlockInfo → Reader B) (rest : List ℕ)
      → (read_info ⦃host = to⦄ >>= f) (info_bytes ⦃host = from⦄ i ++ rest) ≡ f (seen_info i) rest
  bind-info i h f rest =
      bind-ret (read_info ⦃host = to⦄) f (info_bytes ⦃host = from⦄ i ++ rest) (info-read i h rest)

  bind-buffer :
      {n : ℕ} {bs : List ℕ}
      → n ≤ 1024
      → length bs ≡ n
      → {B : Type 0} (f : List ℕ → Reader B) (rest : List ℕ)
      → (read_into 1024 n >>= f) (bs ++ rest) ≡ f bs rest
  bind-buffer {n} {bs} h k f rest =
      bind-ret (read_into 1024 n) f (bs ++ rest)
        (read_into_lem n h (bs ++ rest) ∙ read-append k rest)

  swap_seen :
      (i : BlockInfo)
      → IsInfo i
      → swap_info (differs from to) (seen_info i) ≡ record i {
        timestamp = kept (differs from to) i.timestamp;
        nonce = kept (differs from to) i.nonce;
      }
  swap_seen i h =
      swap_info_lem (differs from to) (seen_info i) i.index i.difficulty _ _
        (swapped_4 from to i.index h.index) (swapped_4 from to i.difficulty h.difficulty)
        (swapped_8 from to i.timestamp h.timestamp) (swapped_8 from to i.nonce h.nonce)

  -- Of either byte order, each block is read with the fields that `loaded` leaves it.
  pub block-read :
      (b : Block)
      → IsBlock b
      → (rest : List ℕ)
      → read_block ⦃host = to⦄ (differs from to) (block_record from b ++ rest)
        ≡ ret (some (loaded (differs from to) b, rest))
  unfolding read_block loaded
  block-read b h rest =
      let len : swapped from to 4 b.contents.len ≡ b.contents.len =
        swapped_4 from to b.contents.len (omega (arith, h.contents.len)) in
      let copied : length (take b.contents.len b.contents.buffer) ≡ b.contents.len =
        omega (
          arith,
          length-take b.contents.len b.contents.buffer,
          h.contents.len,
          h.contents.length,
        ) in
      simp (
        append_assoc,
        bind-info b.info h.info,
        bind-read_value,
        len,
        bind-buffer h.contents.len copied,
        bind-read h.hash,
        h.contents.padded,
        swap_seen b.info h.info,
      )
