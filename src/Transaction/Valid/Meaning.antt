-- ===== src/Transaction/Valid/Meaning.antt =====
-- What `transaction_is_valid` accepts, stated without its loops.
use native.Mathlib.Nat.{zero-add}
use holbertonschool_blockcha.Prelude.{
  ℕ, ◌+◌, ◌%◌, ◌^◌, ◌<◌, ◌≡◌, refl, sym, ap, ◌∙◌, ◌↔◌, ◌⊎◌, Bool, Option, Run, ◌>>=◌, true, false,
  not, ◌==◌, ==_iff, if◌then◌else◌, none, some, List, [], ◌∷◌, find?, ret, ub, Bool-cases,
  Option-cases, inl, inr, arith,
}
use holbertonschool_blockcha.Prelude.Bytes.{mem_eq}
use holbertonschool_blockcha.Llist.{Llist}
use holbertonschool_blockcha.Llist.Walk.{nodes_at_lem}
use holbertonschool_blockcha.Crypto.{Openssl, ec_from_pub, ec_verify}
use holbertonschool_blockcha.Transaction.Types.{TxOut, TxIn, UnspentTxOut, Transaction}
use holbertonschool_blockcha.Transaction.Hash.{transaction_hash}
use holbertonschool_blockcha.Transaction.Valid.{
  in_out_match, sum_outputs, check_tx_inputs, transaction_is_valid,
}

-- The sum of the amounts, without a width.
unfoldable pub total_out : List TxOut → ℕ
total_out [] = 0
total_out (o ∷ os) = o.amount + total_out os

-- The loop computes the sum modulo 2 ^ 32.
pub sum_outputs_lem :
    (acc : ℕ) (os : List TxOut) → acc < 2 ^ 32 → sum_outputs acc os ≡ (acc + total_out os) % 2 ^ 32
unfolding sum_outputs total_out
sum_outputs_lem acc [] h = omega arith
sum_outputs_lem acc (o ∷ os) h =
    omega (arith, sum_outputs_lem ((acc + o.amount) % 2 ^ 32) os (omega arith))

-- A loop that goes on past a check only if it was passed.
only_signed :
    (m : Run Bool) (next : Run (Option ℕ)) {r : ℕ}
    → (m >>= λ signed. if not signed then ret none else next) ≡ ret (some r)
    → (m ≡ ret true) × (next ≡ ret (some r))
only_signed (ret true) next h = (refl, h)
only_signed (ret false) next h = cc h
only_signed ub next h = cc h

outcome : (m : Run (Option ℕ)) → (m ≡ ub) ⊎ ((m ≡ ret none) ⊎ ((a : ℕ) × (m ≡ ret (some a))))
outcome ub = inl refl
outcome (ret none) = inr (inl refl)
outcome (ret (some a)) = inr (inr (a, refl))

module _ ⦃ssl : Openssl⦄ (utxos : List UnspentTxOut) (id : List ℕ) where
  -- The output that an input spends is the first that it refers to, and its owner has signed.
  pub record Spends (i : TxIn) (u : UnspentTxOut) : Type 0 where
    pub found : find? (in_out_match i) utxos ≡ some u
    pub signed : ec_verify (ec_from_pub u.out.pubkey) id i.sig ≡ ret true

  -- Each input spends an output, and these are worth `total` together.
  pub data SpendAll : List TxIn → ℕ → Type 0 where
    done : {total : ℕ} → total ≡ 0 → SpendAll [] total
    spend :
        {i : TxIn} {is : List TxIn} {total : ℕ} (u : UnspentTxOut) (more : ℕ)
        → Spends i u
        → SpendAll is more
        → total ≡ u.out.amount + more
        → SpendAll (i ∷ is) total

module _ ⦃ll : Llist⦄ ⦃ssl : Openssl⦄ (utxos : List UnspentTxOut) where
  step_lost :
      (id : List ℕ) (acc : ℕ) (i : TxIn) (is : List TxIn)
      → find? (in_out_match i) utxos ≡ none
      → check_tx_inputs utxos id acc (i ∷ is) ≡ ret none
  unfolding check_tx_inputs
  step_lost id acc i is nothing = rw (nodes_at_lem, check_tx_inputs, nothing)

  step_found :
      (id : List ℕ) (acc : ℕ) (i : TxIn) (is : List TxIn) (u : UnspentTxOut)
      → find? (in_out_match i) utxos ≡ some u
      → check_tx_inputs utxos id acc (i ∷ is) ≡ (
          ec_verify (ec_from_pub u.out.pubkey) id i.sig >>= λ signed.
          if not signed
          then ret none
          else check_tx_inputs utxos id ((acc + u.out.amount) % 2 ^ 32) is)
  unfolding check_tx_inputs
  step_found id acc i is u found = rw (nodes_at_lem, check_tx_inputs, found)

  -- The loop over the inputs succeeds exactly on inputs that all spend, with their sum.
  check_tx_inputs_sound :
      (id : List ℕ) (is : List TxIn) (acc r : ℕ)
      → acc < 2 ^ 32
      → check_tx_inputs utxos id acc is ≡ ret (some r)
      → (total : ℕ) × SpendAll utxos id is total × (r ≡ (acc + total) % 2 ^ 32)
  check_tx_inputs_sound id [] acc r small h = (0, done refl, unfold check_tx_inputs in ground arith)
  check_tx_inputs_sound id (i ∷ is) acc r small h =
      elim (Option-cases (find? (in_out_match i) utxos)) [
        | inl nothing ↦ cc (h, step_lost id acc i is nothing)
        | inr (u, found) ↦
            let sum' : ℕ = (acc + u.out.amount) % 2 ^ 32 in
            let (signed, rest) =
              only_signed (ec_verify (ec_from_pub u.out.pubkey) id i.sig)
                (check_tx_inputs utxos id sum' is) (sym (step_found id acc i is u found) ∙ h) in
            let (more, spent, e) = check_tx_inputs_sound id is sum' r (omega arith) rest in
            (
              u.out.amount + more,
              spend u more (record { found = found; signed = signed }) spent refl,
              omega arith,
            )
      ]

  check_tx_inputs_complete :
      (id : List ℕ) (is : List TxIn) (acc total : ℕ)
      → acc < 2 ^ 32
      → SpendAll utxos id is total
      → check_tx_inputs utxos id acc is ≡ ret (some ((acc + total) % 2 ^ 32))
  check_tx_inputs_complete id is acc total small (done e) = unfold check_tx_inputs in ground arith
  check_tx_inputs_complete id is acc total small (spend {i = i} {is = rest} u more s spent e) =
      let sum' : ℕ = (acc + u.out.amount) % 2 ^ 32 in
      let same : (sum' + more) % 2 ^ 32 ≡ (acc + total) % 2 ^ 32 = omega arith in
      rw (
        step_found id acc i rest u s.found,
        s.signed,
        check_tx_inputs_complete id rest sum' more (omega arith) spent,
        same,
      )

  -- What an accepted transaction `t` is.
  pub record IsAccepted (t : Transaction) : Type 0 where
    pub digest : List ℕ
    pub total : ℕ
    pub hashed : transaction_hash t ≡ some digest
    pub same_id : mem_eq 32 t.id digest ≡ true
    pub spent : SpendAll utxos t.id t.inputs total
    pub balanced : total % 2 ^ 32 ≡ total_out t.outputs % 2 ^ 32

  -- After the two tests that can fail, the answer is the comparison of the sums.
  compares :
      (t : Transaction) {d : List ℕ} {a : ℕ}
      → transaction_hash t ≡ some d
      → mem_eq 32 t.id d ≡ true
      → check_tx_inputs utxos t.id 0 t.inputs ≡ ret (some a)
      → transaction_is_valid (some t) (some utxos) ≡ ret (a == total_out t.outputs % 2 ^ 32)
  unfolding transaction_is_valid
  compares t hashed same sum = simp (
    transaction_is_valid,
    hashed,
    same,
    nodes_at_lem,
    sum,
    sum_outputs_lem 0 t.outputs (omega arith),
    zero-add,
  )

  refused_id :
      (t : Transaction) {d : List ℕ}
      → transaction_hash t ≡ some d
      → mem_eq 32 t.id d ≡ false
      → transaction_is_valid (some t) (some utxos) ≡ ret false
  unfolding transaction_is_valid
  refused_id t hashed other = rw (transaction_is_valid, hashed, other)

  refused_input :
      (t : Transaction) {d : List ℕ}
      → transaction_hash t ≡ some d
      → mem_eq 32 t.id d ≡ true
      → check_tx_inputs utxos t.id 0 t.inputs ≡ ret none
      → transaction_is_valid (some t) (some utxos) ≡ ret false
  unfolding transaction_is_valid
  refused_input t hashed same failed =
      simp (transaction_is_valid, hashed, same, nodes_at_lem, failed)

  read_past :
      (t : Transaction) {d : List ℕ}
      → transaction_hash t ≡ some d
      → mem_eq 32 t.id d ≡ true
      → check_tx_inputs utxos t.id 0 t.inputs ≡ ub
      → transaction_is_valid (some t) (some utxos) ≡ ub
  unfolding transaction_is_valid
  read_past t hashed same failed = simp (transaction_is_valid, hashed, same, nodes_at_lem, failed)

  unhashed :
      (t : Transaction)
      → transaction_hash t ≡ none
      → transaction_is_valid (some t) (some utxos) ≡ ub
  unfolding transaction_is_valid
  unhashed t failed = rw (transaction_is_valid, failed)

  accepted :
      (t : Transaction) → transaction_is_valid (some t) (some utxos) ≡ ret true → IsAccepted t
  accepted t h = elim (Option-cases (transaction_hash t)) [
    | inl failed ↦ cc (h, unhashed t failed)
    | inr (d, hashed) ↦ elim (Bool-cases (mem_eq 32 t.id d)) [
      | inr other ↦ cc (h, refused_id t hashed other)
      | inl same ↦ elim (outcome (check_tx_inputs utxos t.id 0 t.inputs)) [
        | inl unread ↦ cc (h, read_past t hashed same unread)
        | inr (inl lost) ↦ cc (h, refused_input t hashed same lost)
        | inr (inr (a, sum)) ↦
            let (total, spent, e) = check_tx_inputs_sound t.id t.inputs 0 a (omega arith) sum in
            let equal : (a == total_out t.outputs % 2 ^ 32) ≡ true =
              cc (h, compares t hashed same sum) in
            record {
              digest = d;
              total = total;
              hashed = hashed;
              same_id = same;
              spent = spent;
              balanced = omega (arith, (==_iff a _).0 equal);
            }
      ]
    ]
  ]

  -- A transaction is accepted exactly if its id is its hash, each input refers to an unspent
  -- output whose owner signed the id, and the sums agree modulo 2 ^ 32.
  pub transaction_is_valid_iff :
      (t : Transaction) → (transaction_is_valid (some t) (some utxos) ≡ ret true) ↔ IsAccepted t
  transaction_is_valid_iff t = (
    accepted t,
    λ a.
        compares t a.hashed a.same_id
          (check_tx_inputs_complete t.id t.inputs 0 a.total (omega arith) a.spent)
        ∙ ap ret ((==_iff _ (total_out t.outputs % 2 ^ 32)).1 (omega (arith, a.balanced))),
  )
