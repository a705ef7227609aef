-- ===== src/Cli/List/Legible.antt =====
-- What the command `list` prints tells all about the unspent outputs.
use holbertonschool_blockcha.Prelude.{
  ℕ, ◌≡◌, ◌≢◌, ◌∙◌, refl, sym, ap, List, [], ◌∷◌, ◌++◌, append_assoc, append-nil, All, Option-cases,
  inl, inr, arith,
}
use holbertonschool_blockcha.Prelude.Bytes.{IsArray, IsU32}
use holbertonschool_blockcha.Prelude.Text.{say, chars, unsigned, Piece, decimal, printed}
use holbertonschool_blockcha.Prelude.Text.Legible.{decimal_end}
use holbertonschool_blockcha.Llist.{Llist, run_each}
use holbertonschool_blockcha.Crypto.{Openssl}
use holbertonschool_blockcha.Transaction.Types.{UnspentTxOut}
use holbertonschool_blockcha.Cli.State.{done, failed, State}
use holbertonschool_blockcha.Cli.Tools.{bytes_to_hex}
use holbertonschool_blockcha.Cli.Tools.Hex.{hex_end}
use holbertonschool_blockcha.Cli.List.{
  compares_unspent_tx_out, unspent_lines, print_unspent_tx_out_info, generate_sorted_unspent_list,
  print_sorted_unspent_list,
}

append-cancel : (s xs ys : List ℕ) → s ++ xs ≡ s ++ ys → xs ≡ ys
append-cancel [] xs ys h = h
append-cancel (c ∷ s) xs ys h = append-cancel s xs ys (cc h)

-- Lines that print alike, with what is printed behind them.
record Alike (p q : List Piece) (r r' : List ℕ) : Type 0 where
  same : printed p ++ r ≡ printed q ++ r'

-- What comes behind a label, a hash, or a number at the end of its line.
module _ {p q : List Piece} {r r' : List ℕ} where
  skip : {label : List ℕ} → Alike (chars label ∷ p) (chars label ∷ q) r r' → Alike p q r r'
  unfolding printed
  skip {label} h = record {
    same =
        append-cancel label _ _
          (sym (append_assoc label (printed p) r) ∙ h.same ∙ append_assoc label (printed q) r');
  }

  skip_hex :
      {n : ℕ} {xs ys : List ℕ}
      → IsArray n xs
      → IsArray n ys
      → Alike (chars (bytes_to_hex xs) ∷ p) (chars (bytes_to_hex ys) ∷ q) r r'
      → (xs ≡ ys) × Alike p q r r'
  unfolding printed
  skip_hex {n} {xs} {ys} hx hy h =
      let (here, rest) = hex_end n xs ys _ _ hx hy (
        sym (append_assoc (bytes_to_hex xs) (printed p) r)
        ∙ h.same
        ∙ append_assoc (bytes_to_hex ys) (printed q) r') in
      (here, record { same = rest })

  skip_number :
      {n m : ℕ}
      → IsU32 n
      → IsU32 m
      → Alike (unsigned n ∷ say "\n" ∷ p) (unsigned m ∷ say "\n" ∷ q) r r'
      → (n ≡ m) × Alike p q r r'
  unfolding printed
  skip_number {n} {m} hn hm h =
      let (here, rest) =
        decimal_end 10 n m _ _ (λ (low, _). omega (arith, low)) (omega (arith, hn))
          (omega (arith, hm))
          (sym (append_assoc (decimal n) (10 ∷ printed p) r)
            ∙ h.same
            ∙ append_assoc (decimal m) (10 ∷ printed q) r') in
      (here, record { same = rest })

-- The arrays have their declared lengths and hold bytes, the amount has 32 bits.
pub record IsListed (u : UnspentTxOut) : Type 0 where
  pub block_hash : IsArray 32 u.block_hash
  pub tx_id : IsArray 32 u.tx_id
  pub amount : IsU32 u.out.amount
  pub pubkey : IsArray 65 u.out.pubkey
  pub hash : IsArray 32 u.out.hash

same_parts :
    (u v : UnspentTxOut)
    → u.block_hash ≡ v.block_hash
    → u.tx_id ≡ v.tx_id
    → u.out.amount ≡ v.out.amount
    → u.out.pubkey ≡ v.out.pubkey
    → u.out.hash ≡ v.out.hash
    → u ≡ v
same_parts u v h1 h2 h3 h4 h5 = λ i. record {
  block_hash = h1 i;
  tx_id = h2 i;
  out = record { amount = h3 i; pubkey = h4 i; hash = h5 i };
}

lines_end :
    {u v : UnspentTxOut} {r r' : List ℕ}
    → IsListed u
    → IsListed v
    → Alike (unspent_lines u) (unspent_lines v) r r'
    → (u ≡ v) × (r ≡ r')
unfolding unspent_lines printed
lines_end {u} {v} hu hv h =
    let (block_hash, h1) = skip_hex hu.block_hash hv.block_hash (skip h) in
    let (tx_id, h2) = skip_hex hu.tx_id hv.tx_id (skip (skip h1)) in
    let (amount, h3) = skip_number hu.amount hv.amount (skip (skip (skip h2))) in
    let (pubkey, h4) = skip_hex hu.pubkey hv.pubkey (skip h3) in
    let (hash, h5) = skip_hex hu.hash hv.hash (skip (skip h4)) in
    (same_parts u v block_hash tx_id amount pubkey hash, (skip h5).same)

-- The whole text.
listing : List UnspentTxOut → List ℕ
listing [] = []
listing (u ∷ l) = printed (unspent_lines u) ++ listing l

each-print :
    (l : List UnspentTxOut) (out : List ℕ)
    → run_each print_unspent_tx_out_info l out ≡ (0, l, out ++ listing l)
unfolding run_each print_unspent_tx_out_info listing
each-print [] out = rw append-nil refl
each-print (u ∷ l) out = simp (each-print l (out ++ printed (unspent_lines u)), append_assoc)

not_empty : (u : UnspentTxOut) (r : List ℕ) → printed (unspent_lines u) ++ r ≢ []
unfolding unspent_lines printed
not_empty u r h = cc h

listing_injective :
    (l l' : List UnspentTxOut) → All IsListed l → All IsListed l' → listing l ≡ listing l' → l ≡ l'
unfolding listing
listing_injective [] [] h h' same = refl
listing_injective [] (v ∷ l') h h' same = absurd (not_empty v (listing l') (sym same))
listing_injective (u ∷ l) [] h h' same = absurd (not_empty u (listing l) same)
listing_injective (u ∷ l) (v ∷ l') (hu, hl) (hv, hl') same =
    let (head, rest) = lines_end hu hv (record { same = same }) in
    cc (head, listing_injective l l' hl hl' rest)

module _ ⦃ll : Llist⦄ ⦃ssl : Openssl⦄ where
  what_is_printed :
      (s a : State)
      → generate_sorted_unspent_list s ≡ (done, a)
      → print_sorted_unspent_list s ≡ listing a.blockchain.unspent
  unfolding generate_sorted_unspent_list print_sorted_unspent_list
  what_is_printed s a h =
      elim (Option-cases (ll.sort s.blockchain.unspent compares_unspent_tx_out)) [
        | inl e ↦
            let no : (failed, s) ≡ (done, a) = rw (generate_sorted_unspent_list, e) at h in cc no
        | inr (sorted, e) ↦
            let state = rw (generate_sorted_unspent_list, e) at h in
            let left : sorted ≡ a.blockchain.unspent = ap (λ r. r.1.blockchain.unspent) state in
            rw (print_sorted_unspent_list, e, ll.for_each_eq, each-print sorted [], left) refl
      ]

  -- If `list` succeeds in two states and prints the same, the lists of unspent outputs that it
  -- leaves are equal, provided that their arrays have the declared lengths and hold bytes, and
  -- their amounts have 32 bits.
  pub print_sorted_unspent_list-tells :
      (s s' a a' : State)
      → generate_sorted_unspent_list s ≡ (done, a)
      → generate_sorted_unspent_list s' ≡ (done, a')
      → All IsListed a.blockchain.unspent
      → All IsListed a'.blockchain.unspent
      → print_sorted_unspent_list s ≡ print_sorted_unspent_list s'
      → a.blockchain.unspent ≡ a'.blockchain.unspent
  print_sorted_unspent_list-tells s s' a a' e e' h h' same =
      listing_injective _ _ h h' (sym (what_is_printed s a e) ∙ same ∙ what_is_printed s' a' e')
