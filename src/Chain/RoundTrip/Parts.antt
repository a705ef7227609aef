-- ===== src/Chain/RoundTrip/Parts.antt =====
-- Each structure is read back from its bytes, whatever follows them in the file.
use holbertonschool_blockcha.Prelude.{
  ℕ, ◌^◌, ◌<◌, ◌≡◌, refl, List, [], ◌∷◌, ◌++◌, append_assoc, append-nil, ap, ◌∙◌, All, length, ret,
}
use holbertonschool_blockcha.Prelude.Host.{
  Host, bytes_of, value_of, length-bytes_of, value_of-bytes_of,
}
use holbertonschool_blockcha.Transaction.Types.{TxOut, TxIn, UnspentTxOut}
use holbertonschool_blockcha.Block.Types.{BlockInfo, info_bytes}
use holbertonschool_blockcha.Llist.{Llist}
use holbertonschool_blockcha.Chain.Serialize.{tx_in_bytes, tx_out_bytes, unspent_bytes, write_all}
use holbertonschool_blockcha.Chain.Reader.{
  Reader, ◌>>=◌, pure, fread, fread_loop, fread-append, bind-ret, bind-fread,
}
use holbertonschool_blockcha.Chain.Deserialize.{
  fread_value, read_tx_in, read_tx_out, read_unspent, read_info,
}
use holbertonschool_blockcha.Chain.WellFormed.{IsTxIn, IsTxOut, IsUnspent, IsInfo}

-- `read` takes the bytes `bs` for `x`, and leaves what follows them.
abbrev pub Reads : {A : Type 0} → Reader A → List ℕ → A → Type 0
Reads read bs x = (rest : List ℕ) → read (bs ++ rest) ≡ ret (x, rest)

pub tx_in-Reads : (t : TxIn) → IsTxIn t → Reads read_tx_in (tx_in_bytes t) t
unfolding read_tx_in tx_in_bytes
tx_in-Reads t h rest = simp (
  append_assoc,
  bind-fread h.block_hash,
  bind-fread h.tx_id,
  bind-fread h.tx_out_hash,
  bind-fread h.sig,
  bind-fread {bs = t.sig.len ∷ []} refl,
)

pub bind-Reads :
    {A B : Type 0} (read : Reader A) (bs : List ℕ) {x : A}
    → Reads read bs x
    → (f : A → Reader B) (rest : List ℕ) → (read >>= f) (bs ++ rest) ≡ f x rest
bind-Reads read bs h f rest = bind-ret read f (bs ++ rest) (h rest)

-- The same at the end of the file.
pub bind-Reads_end :
    {A B : Type 0} (read : Reader A) (bs : List ℕ) {x : A}
    → Reads read bs x
    → (f : A → Reader B) → (read >>= f) bs ≡ f x []
bind-Reads_end read bs h f = bind-ret read f bs (rw append-nil at (h []))

module _ ⦃host : Host⦄ where
  pub value-Reads : (w n : ℕ) → n < 256 ^ w → Reads (fread_value w) (bytes_of w n) n
  unfolding fread_value
  value-Reads w n h rest =
      bind-ret (fread w) (λ bs. pure (value_of bs)) (bytes_of w n ++ rest)
        (fread-append (length-bytes_of w n) rest)
      ∙ ap (λ v. ret (v, rest)) (value_of-bytes_of w n h)

  pub bind-fread_value :
      {B : Type 0} (w n : ℕ)
      → n < 256 ^ w
      → (f : ℕ → Reader B) (rest : List ℕ) → (fread_value w >>= f) (bytes_of w n ++ rest) ≡ f n rest
  bind-fread_value w n h = bind-Reads (fread_value w) (bytes_of w n) (value-Reads w n h)

  pub tx_out-Reads : (t : TxOut) → IsTxOut t → Reads read_tx_out (tx_out_bytes t) t
  unfolding read_tx_out tx_out_bytes
  tx_out-Reads t h rest =
      simp
        (append_assoc, bind-fread_value 4 t.amount h.amount, bind-fread h.pubkey, bind-fread h.hash)

  pub unspent-Reads : (u : UnspentTxOut) → IsUnspent u → Reads read_unspent (unspent_bytes u) u
  unfolding read_unspent unspent_bytes
  unspent-Reads u h rest = simp (
    append_assoc,
    bind-fread h.block_hash,
    bind-fread h.tx_id,
    bind-Reads read_tx_out (tx_out_bytes u.out) (tx_out-Reads u.out h.out),
  )

  pub info-Reads : (i : BlockInfo) → IsInfo i → Reads read_info (info_bytes i) i
  unfolding read_info info_bytes
  info-Reads i h rest = simp (
    append_assoc,
    bind-fread_value 4 i.index h.index,
    bind-fread_value 4 i.difficulty h.difficulty,
    bind-fread_value 8 i.timestamp h.timestamp,
    bind-fread_value 8 i.nonce h.nonce,
    bind-fread h.prev_hash,
  )

-- A loop that adds to the rear reads back what a loop of writes has written.
module _ ⦃ll : Llist⦄ {A : Type 0} (read : Reader A) (write : A → List ℕ) (P : A → Type 0) where
  pub loop-Reads :
      ((x : A) → P x → Reads read (write x) x)
      → (xs done : List A) → All P xs
      → Reads (fread_loop read ll.add_rear (length xs) done) (write_all write xs) (done ++ xs)
  unfolding fread_loop write_all
  loop-Reads each [] done h rest = rw append-nil
  loop-Reads each (x ∷ xs) done (hx, hs) rest =
      rw (append_assoc (write x) (write_all write xs) rest, fread_loop, each x hx, ll.add_rear_eq)
        (loop-Reads each xs (done ++ x ∷ []) hs rest
          ∙ ap (λ l. ret (l, rest)) (append_assoc done (x ∷ []) xs))
