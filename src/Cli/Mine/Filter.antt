-- ===== src/Cli/Mine/Filter.antt =====
-- The loop of `mine` in cli/mine.c that drops the invalid transactions.
use holbertonschool_blockcha.Prelude.{
  ℕ, zero, suc, ◌≤◌, ◌≡◌, refl, ap, not, Bool, true, false, some, List, [], ◌∷◌, All, length,
  filter, remove_first, ret, Bool-cases, inl, inr, arith,
}
use holbertonschool_blockcha.Llist.{Llist}
use holbertonschool_blockcha.Prelude.Host.{Host}
use holbertonschool_blockcha.Crypto.{Openssl}
use holbertonschool_blockcha.Transaction.Types.{UnspentTxOut, Transaction}
use holbertonschool_blockcha.Transaction.Valid.{transaction_is_valid}
use holbertonschool_blockcha.Transaction.Listed.{remove_first-All}
use holbertonschool_blockcha.Cli.Mine.{invalid_tx, test_all, drop_invalid}

-- Without its first element that passes, the list has as many that fail.
filter-remove_first :
    {A : Type 0} (p : A → Bool) (l : List A)
    → filter (λ x. not (p x)) (remove_first p l) ≡ filter (λ x. not (p x)) l
filter-remove_first p [] = refl
filter-remove_first p (x ∷ l) = elim (Bool-cases (p x)) [
  | inl hit ↦ rw hit
  | inr miss ↦ rw (miss, miss) (ap (λ t. x ∷ t) (filter-remove_first p l))
]

-- If as many elements fail as there are, removing one changes nothing, else it leaves one less that
-- passes.
passing-remove_first :
    {A : Type 0} (p : A → Bool) (n : ℕ) (l : List A)
    → length (filter p l) ≤ suc n
    → length (filter p (remove_first p l)) ≤ n
passing-remove_first p n [] h = omega arith
passing-remove_first p n (x ∷ l) h = elim (Bool-cases (p x)) [
  | inl hit ↦ rw hit (omega (arith, rw hit at h))
  | inr miss ↦ rw (miss, miss) (passing-remove_first p n l (rw miss at h))
]

none_pass :
    {A : Type 0} (p : A → Bool) (l : List A)
    → length (filter p l) ≤ 0
    → filter (λ x. not (p x)) l ≡ l
none_pass p [] h = refl
none_pass p (x ∷ l) h = elim (Bool-cases (p x)) [
  | inl hit ↦ absurd (omega (arith, rw hit at h))
  | inr miss ↦ rw miss (ap (λ t. x ∷ t) (none_pass p l (rw miss at h)))
]

length-filter-le : {A : Type 0} (p : A → Bool) (l : List A) → length (filter p l) ≤ length l
length-filter-le p [] = omega arith
length-filter-le p (x ∷ l) = elim (Bool-cases (p x)) [
  | inl hit ↦ rw hit (omega (arith, length-filter-le p l))
  | inr miss ↦ rw miss (omega (arith, length-filter-le p l))
]

module _ ⦃host : Host⦄ ⦃ll : Llist⦄ ⦃ssl : Openssl⦄ where
  -- The check of each transaction ends without undefined behaviour.
  abbrev pub AllChecked : List UnspentTxOut → List Transaction → Type 0
  AllChecked unspent pool =
      All (λ t. (b : Bool) × (transaction_is_valid (some t) (some unspent) ≡ ret b)) pool

  -- The transactions of a pool that are valid, in their order.
  abbrev pub valid_ones : List UnspentTxOut → List Transaction → List Transaction
  valid_ones unspent pool = filter (λ t. not (invalid_tx unspent t)) pool

  test_all-returns :
      (unspent : List UnspentTxOut) (pool : List Transaction)
      → AllChecked unspent pool
      → (b : Bool) × (test_all unspent pool ≡ ret b)
  unfolding test_all
  test_all-returns unspent [] h = (true, refl)
  test_all-returns unspent (t ∷ pool) ((false, e), hs) = (false, rw e)
  test_all-returns unspent (t ∷ pool) ((true, e), hs) =
      let (b, e') = test_all-returns unspent pool hs in (b, rw e e')

  drop_enough :
      (n : ℕ) (unspent : List UnspentTxOut) (pool : List Transaction)
      → AllChecked unspent pool
      → length (filter (invalid_tx unspent) pool) ≤ n
      → drop_invalid n unspent pool ≡ ret (valid_ones unspent pool)
  unfolding drop_invalid
  drop_enough zero unspent pool h few = ap ret (rw (none_pass (invalid_tx unspent) pool few))
  drop_enough (suc n) unspent pool h few =
      let (b, tested) = test_all-returns unspent pool h in
      rw (
        tested,
        ll.remove_node_eq,
        drop_enough n unspent (remove_first (invalid_tx unspent) pool)
            (remove_first-All _ (invalid_tx unspent) pool h)
            (passing-remove_first (invalid_tx unspent) n pool few),
        filter-remove_first (invalid_tx unspent) pool,
      )

  -- If the check of each transaction of a pool ends, the loop that removes one invalid transaction
  -- a round, in as many rounds as there are transactions, leaves exactly the valid ones, in their
  -- order.
  pub drop_invalid-filter :
      (unspent : List UnspentTxOut) (pool : List Transaction)
      → AllChecked unspent pool
      → drop_invalid (ll.size pool) unspent pool ≡ ret (valid_ones unspent pool)
  drop_invalid-filter unspent pool h =
      rw ll.size_eq
        (drop_enough (length pool) unspent pool h (length-filter-le (invalid_tx unspent) pool))

  abbrev pub AllValid : List UnspentTxOut → List Transaction → Type 0
  AllValid unspent pool = All (λ t. transaction_is_valid (some t) (some unspent) ≡ ret true) pool

  invalid_tx-not :
      (unspent : List UnspentTxOut) (t : Transaction) (b : Bool)
      → transaction_is_valid (some t) (some unspent) ≡ ret b
      → invalid_tx unspent t ≡ not b
  unfolding invalid_tx
  invalid_tx-not unspent t b e = rw (invalid_tx, e)

  pub valid_ones-AllValid :
      (unspent : List UnspentTxOut) (pool : List Transaction)
      → AllChecked unspent pool
      → AllValid unspent (valid_ones unspent pool)
  valid_ones-AllValid unspent [] h = tt
  valid_ones-AllValid unspent (t ∷ pool) ((false, e), hs) =
      rw (invalid_tx-not unspent t false e) (valid_ones-AllValid unspent pool hs)
  valid_ones-AllValid unspent (t ∷ pool) ((true, e), hs) =
      rw (invalid_tx-not unspent t true e) (e, valid_ones-AllValid unspent pool hs)
