-- ===== src/Transaction/Create/Accepted.antt =====
-- What `transaction_create` makes is what `transaction_is_valid` accepts.
use holbertonschool_blockcha.Prelude.{
  Bool, true, not, ℕ, ◌+◌, ◌-◌, ◌*◌, ◌%◌, ◌^◌, ◌≤◌, ◌<◌, ◌≡◌, ◌≢◌, refl, ◌∙◌, ◌==◌, ==_iff,
  ne→==_false, le→ltb, Option, none, some, List, [], ◌∷◌, ◌++◌, All, length, replicate, ret, ◌>>=◌,
  Bool-cases, Option-cases, inl, inr, arith,
}
use holbertonschool_blockcha.Prelude.Bytes.{mem_eq_refl}
use holbertonschool_blockcha.Prelude.Host.{Host, bytes_of}
use holbertonschool_blockcha.Llist.{Llist}
use holbertonschool_blockcha.Llist.Walk.{nodes_at_lem}
use holbertonschool_blockcha.Crypto.{Openssl, sha256, ec_to_pub}
use holbertonschool_blockcha.Transaction.Types.{TxOut, TxIn, UnspentTxOut, Transaction}
use holbertonschool_blockcha.Transaction.Outputs.{tx_out_create}
use holbertonschool_blockcha.Transaction.Listed.{Elem, here, there}
use holbertonschool_blockcha.Transaction.Hash.{transaction_hash}
use holbertonschool_blockcha.Transaction.Hash.Total.{
  message, message_cong, transaction_hash-message,
}
use holbertonschool_blockcha.Transaction.Select.{select_loop}
use holbertonschool_blockcha.Transaction.Select.Chosen.{Picked, nothing, select_loop-IsChoice}
use holbertonschool_blockcha.Transaction.Sign.Signed.{IsPayer, sign_all}
use holbertonschool_blockcha.Transaction.Valid.{transaction_is_valid}
use holbertonschool_blockcha.Transaction.Valid.Meaning.{
  total_out, IsAccepted, transaction_is_valid_iff,
}
use holbertonschool_blockcha.Transaction.Create.{
  pub_buffer, send_change, send_amount, seal, transaction_create,
}

All-listed :
    {A : Type 0} (l us : List A) → ((x : A) → Elem x l → Elem x us) → All (λ x. Elem x us) l
All-listed [] us h = tt
All-listed (x ∷ l) us h = (h x (here refl), All-listed l us (λ y m. h y (there m)))

module _ ⦃host : Host⦄ ⦃ll : Llist⦄ ⦃ssl : Openssl⦄ (digests : (s : List ℕ) → sha256 s ≢ none) where
  made :
      (amount : ℕ) (pubkey : List ℕ)
      → amount ≢ 0
      → (o : TxOut) × (tx_out_create amount pubkey ≡ some o) × (o.amount ≡ amount)
  unfolding tx_out_create
  made amount pubkey h = elim (Option-cases (sha256 (bytes_of 4 amount ++ pubkey))) [
    | inl failed ↦ absurd (digests _ failed)
    | inr (hash, e) ↦ (
      record { amount = amount; pubkey = pubkey; hash = hash },
      rw (ne→==_false amount 0 h, e),
      refl,
    )
  ]

  known_buffer :
      (key : Option ssl.EcKey) (pubkey : List ℕ) (read : Bool)
      → ec_to_pub key ≡ some pubkey
      → pub_buffer key read ≡ ret pubkey
  unfolding pub_buffer
  known_buffer key pubkey read known = rw (pub_buffer, known)

  -- The change makes up what the first output leaves.
  send_change-total :
      (sender : Option ssl.EcKey) (pubkey : List ℕ) (remaining : ℕ) (o : TxOut)
      → ec_to_pub sender ≡ some pubkey
      → (outs : List TxOut) × (send_change sender remaining (o ∷ []) ≡ ret (some outs))
        × (total_out outs ≡ o.amount + remaining)
        × (0 < length outs)
  unfolding send_change total_out
  send_change-total sender pubkey remaining o known = elim (Bool-cases (remaining == 0)) [
    | inl zero_left ↦
        let nothing_left : remaining ≡ 0 = (==_iff remaining 0).0 zero_left in
        (o ∷ [], rw zero_left, omega arith, omega arith)
    | inr some_left ↦
        let (o', e, amount) =
          made remaining pubkey (λ z. cc (some_left, (==_iff remaining 0).1 z)) in
        (
          o ∷ o' ∷ [],
          rw (some_left, known_buffer sender pubkey true known, ◌>>=◌, e, ll.add_rear_eq),
          omega (arith, amount),
          omega arith,
        )
  ]

  send_amount-total :
      (sender receiver : Option ssl.EcKey) (pubkey to_pub : List ℕ) (amount total : ℕ)
      → ec_to_pub sender ≡ some pubkey
      → ec_to_pub receiver ≡ some to_pub
      → amount ≢ 0
      → amount ≤ total
      → total < 2 ^ 32
      → (outs : List TxOut) × (send_amount sender receiver amount total ≡ ret (some outs))
        × (total_out outs ≡ total)
        × (0 < length outs)
  unfolding send_amount
  send_amount-total sender receiver pubkey to_pub amount total known to_known some_amount enough
        small =
      let (o, e, at) = made amount to_pub some_amount in
      let left : (total + 2 ^ 32 - amount) % 2 ^ 32 ≡ total - amount = omega arith in
      let (outs, run, sum, nonempty) = send_change-total sender pubkey (total - amount) o known in
      (
        outs,
        rw (
          send_amount,
          known_buffer receiver to_pub (not (amount == 0)) to_known,
          ◌>>=◌,
          e,
          ll.add_rear_eq,
          left,
          run,
        ),
        omega (arith, sum, at),
        nonempty,
      )

  -- With an output there is a hash, of the message.
  hash_of :
      (t : Transaction)
      → 0 < length t.outputs
      → transaction_hash t ≡ sha256 (message t.inputs t.outputs)
  hash_of t h =
      transaction_hash-message t
      ∙ rw (ne→==_false (96 * length t.inputs + 32 * length t.outputs) 0 (omega arith))

  seal-IsAccepted :
      (key : ssl.EcKey) (pubkey : List ℕ) (us : List UnspentTxOut) (is : List TxIn)
      (outs : List TxOut) (total : ℕ)
      → IsPayer key pubkey us
      → Picked us pubkey is total
      → 0 < length outs
      → total_out outs ≡ total % 2 ^ 32
      → (t : Transaction) × (seal
            (some key)
            us
            (record { id = replicate 32 0; inputs = is; outputs = outs })
          ≡ ret (some t))
        × IsAccepted us t
  unfolding seal
  seal-IsAccepted key pubkey us is outs total p picked nonempty sum =
      elim (Option-cases (sha256 (message is outs))) [
        | inl failed ↦ absurd (digests _ failed)
        | inr (id, e) ↦
            let (is', run, spent, refs, same) = sign_all key pubkey us p id picked in
            let hashed =
              hash_of (record { id = replicate 32 0; inputs = is; outputs = outs }) nonempty ∙ e in
            (
              record { id = id; inputs = is'; outputs = outs },
              simp (seal, hashed, ll.for_each_eq, run),
              record {
                digest = id;
                total = total;
                hashed =
                    hash_of (record { id = id; inputs = is'; outputs = outs }) nonempty
                    ∙ rw (message_cong is is' outs refs same) e;
                same_id = mem_eq_refl 32 id;
                spent = spent;
                balanced = omega (arith, sum);
              },
            )
      ]

  -- A payment of more than nothing, from a key whose signatures are verified and a list without
  -- two outputs of one hash, to a receiver with a public key, is made and accepted by the
  -- validation, if the chosen outputs are worth the amount and the digest does not fail.
  pub transaction_create-IsValid :
      (key to : ssl.EcKey) (pubkey to_pub : List ℕ) (amount : ℕ) (us : List UnspentTxOut)
      (pool : Option (List Transaction))
      → IsPayer key pubkey us
      → ec_to_pub (some to) ≡ some to_pub
      → amount ≢ 0
      → amount ≤ (select_loop pubkey pool amount us ([], 0)).1
      → (t : Transaction) × (transaction_create (some key) (some to) amount (some us) pool
          ≡ ret (some t))
        × (transaction_is_valid (some t) (some us) ≡ ret true)
  unfolding transaction_create
  transaction_create-IsValid key to pubkey to_pub amount us pool p to_known some_amount enough =
      let chosen = select_loop pubkey pool amount us ([], 0) in
      let choice =
        select_loop-IsChoice us pubkey pool amount us ([], 0) (All-listed us us (λ x m. m))
          (record { total = 0; picked = nothing refl; sum = omega arith }) in
      let (outs, sent, sum, nonempty) =
        send_amount-total (some key) (some to) pubkey to_pub amount chosen.1 p.known to_known
          some_amount enough (omega (arith, choice.sum)) in
      let (t, sealed, accepted) =
        seal-IsAccepted key pubkey us chosen.0 outs choice.total p choice.picked nonempty
          (sum ∙ choice.sum) in
      (
        t,
        rw (
          transaction_create,
          known_buffer (some key) pubkey (not (ll.size us == 0)) p.known,
          ◌>>=◌,
          nodes_at_lem us,
          le→ltb chosen.1 amount enough,
          sent,
          nodes_at_lem us,
          sealed,
        ),
        (transaction_is_valid_iff us t).1 accepted,
      )
