-- ===== src/Transaction/Select/Chosen.antt =====
-- What the choice of inputs gives: references to unspent outputs of the sender, and their sum.
use holbertonschool_blockcha.Prelude.{
  ℕ, ◌+◌, ◌%◌, ◌^◌, ◌≡◌, refl, leb, ◌&&◌, not, Bool, true, false, Option, List, [], ◌∷◌, ◌++◌, All,
  Bool-cases, inl, inr, arith,
}
use holbertonschool_blockcha.Prelude.Bytes.{mem_eq}
use holbertonschool_blockcha.Llist.{Llist}
use holbertonschool_blockcha.Transaction.Types.{TxIn, UnspentTxOut, Transaction}
use holbertonschool_blockcha.Transaction.Outputs.{tx_in_create}
use holbertonschool_blockcha.Transaction.Listed.{Elem}
use holbertonschool_blockcha.Transaction.Select.{used_in_pool, select_unspent_in, select_loop}

-- The inputs refer to listed outputs of the owner, which are worth the total together.
pub data Picked (us : List UnspentTxOut) (pubkey : List ℕ) : List TxIn → ℕ → Type 0 where
  nothing : {total : ℕ} → total ≡ 0 → Picked us pubkey [] total
  pick :
      {is : List TxIn} {total : ℕ} (u : UnspentTxOut) (more : ℕ)
      → Elem u us
      → mem_eq 65 u.out.pubkey pubkey ≡ true
      → Picked us pubkey is more
      → total ≡ u.out.amount + more
      → Picked us pubkey (tx_in_create u ∷ is) total

Picked-add :
    (us : List UnspentTxOut) (pubkey : List ℕ) (u : UnspentTxOut) {is : List TxIn} {total : ℕ}
    → Elem u us
    → mem_eq 65 u.out.pubkey pubkey ≡ true
    → Picked us pubkey is total
    → Picked us pubkey (is ++ tx_in_create u ∷ []) (total + u.out.amount)
Picked-add us pubkey u m own (nothing e) = pick u 0 m own (nothing refl) (omega arith)
Picked-add us pubkey u m own (pick v more mv ownv rest e) =
    pick v (more + u.out.amount) mv ownv (Picked-add us pubkey u m own rest) (omega arith)

both : (a b : Bool) → (a && b) ≡ true → a ≡ true
both true b h = refl
both false b h = cc

module _ ⦃ll : Llist⦄ (us : List UnspentTxOut) (pubkey : List ℕ) where
  -- A choice: what it refers to, and its sum as a uint32_t.
  pub record IsChoice (chosen : List TxIn × ℕ) : Type 0 where
    pub total : ℕ
    pub picked : Picked us pubkey chosen.0 total
    pub sum : chosen.1 ≡ total % 2 ^ 32

  select_unspent_in-IsChoice :
      (pool : Option (List Transaction)) (u : UnspentTxOut) (chosen : List TxIn × ℕ)
      → Elem u us
      → IsChoice chosen
      → IsChoice (select_unspent_in pubkey pool u chosen)
  unfolding select_unspent_in
  select_unspent_in-IsChoice pool u chosen m c =
      elim (Bool-cases (mem_eq 65 u.out.pubkey pubkey && not (used_in_pool pool u))) [
        | inl own ↦
            simp (select_unspent_in, own, ll.add_rear_eq)
              (record {
                total = c.total + u.out.amount;
                picked = Picked-add us pubkey u m (both _ _ own) c.picked;
                sum = omega (arith, c.sum);
              })
        | inr other ↦
            simp (select_unspent_in, other)
              (record { total = c.total; picked = c.picked; sum = c.sum })
      ]

  pub select_loop-IsChoice :
      (pool : Option (List Transaction)) (amount : ℕ) (rest : List UnspentTxOut)
      (chosen : List TxIn × ℕ)
      → All (λ u. Elem u us) rest
      → IsChoice chosen
      → IsChoice (select_loop pubkey pool amount rest chosen)
  unfolding select_loop
  select_loop-IsChoice pool amount [] chosen h c = c
  select_loop-IsChoice pool amount (u ∷ rest) chosen (hu, hs) c =
      let c' = select_unspent_in-IsChoice pool u chosen hu c in
      elim (Bool-cases (leb amount (select_unspent_in pubkey pool u chosen).1)) [
        | inl enough ↦ rw enough c'
        | inr short ↦
            rw short
              (select_loop-IsChoice pool amount rest (select_unspent_in pubkey pool u chosen) hs c')
      ]
