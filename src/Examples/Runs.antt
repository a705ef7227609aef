-- ===== src/Examples/Runs.antt =====
-- A run of the client from its first state. The digest of the first block is its stored hash, and all
-- others are checksums.
use mathlib.Core.Option.{some-injective}
use mathlib.Core.Path.{subst, sym}
use mathlib.Core.Bool.{true}
use holbertonschool_blockcha.Prelude.{
  ℕ, ◌≡◌, refl, if◌then◌else◌, Option, none, some, List, [], ◌∷◌, ◌++◌, replicate, take, Run, ret,
  ub, ◌>>=◌, Bool-cases, inl, inr, arith,
}
use holbertonschool_blockcha.Prelude.Bytes.{IsArray, mem_eq, le_bytes, of_le_bytes}
use holbertonschool_blockcha.Prelude.Host.{bytes_of}
use holbertonschool_blockcha.Llist.{run_each, Comparison, less, equal, greater}
use holbertonschool_blockcha.Llist.Walk.{nodes_at, nodes_from}
use holbertonschool_blockcha.Crypto.{Openssl, sha256, ec_create, ec_to_pub}
use holbertonschool_blockcha.Transaction.Outputs.{tx_out_create, unspent_tx_out_create}
use holbertonschool_blockcha.Transaction.Hash.{hash_inputs, hash_outputs, transaction_hash}
use holbertonschool_blockcha.Transaction.Listed.{Elem, here, there}
use holbertonschool_blockcha.Transaction.Coinbase.{
  is_empty, coinbase_input, coinbase_create_continue, coinbase_create, coinbase_parts,
  coinbase_is_valid,
}
use holbertonschool_blockcha.Transaction.Update.{
  find_unspent, remove_spent, add_outputs, update_loop, update_unspent,
}
use holbertonschool_blockcha.Block.Types.{info_bytes}
use holbertonschool_blockcha.Block.Genesis.{
  genesis_hash, genesis_data, genesis_block, blockchain_create,
}
use holbertonschool_blockcha.Block.Create.{block_create}
use holbertonschool_blockcha.Block.Hash.{hash_transaction_ids, append_ids, block_hash}
use holbertonschool_blockcha.Block.Difficulty.{
  full_bytes_zero, bits_zero, hash_matches_difficulty, blockchain_difficulty,
}
use holbertonschool_blockcha.Block.Mine.{mine_loop, block_mine}
use holbertonschool_blockcha.Block.Valid.{
  validate_loop, validate_transactions, check_block, check_link, block_is_valid,
}
use holbertonschool_blockcha.Cli.State.{Answer, done, State, World}
use holbertonschool_blockcha.Cli.Main.{start}
use holbertonschool_blockcha.Cli.List.{compares_unspent_tx_out}
use holbertonschool_blockcha.Cli.Mine.{
  test_all, drop_invalid, add_transaction, fill_block, append_block, mine, handle_mine,
}
use holbertonschool_blockcha.Cli.Command.{
  find_command, wallet_create, mine_block, handle_wallet_create, handle_save, handle_load,
}
use holbertonschool_blockcha.Shape.{HasStateShape}
use holbertonschool_blockcha.Shape.Commands.{SortsUnspent}
use holbertonschool_blockcha.Shape.Reached.{Reached, started, ran, Reached-HasStateShape}
use holbertonschool_blockcha.Shape.Saved.{Counted, handle_load-handle_save}
use holbertonschool_blockcha.Examples.Platform
use holbertonschool_blockcha.Examples.Platform.{
  empty_disk, plain_lists, little_host, insert, sorted, checksum, checksum-IsArray,
}

abbrev pub first_bytes : List ℕ
first_bytes = info_bytes genesis_block.info ++ take 16 genesis_block.contents.buffer

abbrev pub digest_of : List ℕ → List ℕ
digest_of c = if mem_eq 1024 c first_bytes then genesis_hash else checksum c

pub digest_of-IsArray : (c d : List ℕ) → some (digest_of c) ≡ some d → IsArray 32 d
unfolding genesis_hash
digest_of-IsArray c d h = elim (Bool-cases (mem_eq 1024 c first_bytes)) [
  | inl first ↦
      subst (λ t. IsArray 32 t) (some-injective genesis_hash d (rw (digest_of, first) at h))
        (omega arith, refl)
  | inr later ↦ checksum-IsArray c d (rw (digest_of, later) at h)
]

instance abbrev pub genesis_ssl : Openssl
genesis_ssl = record Platform.toy_ssl {
  sha256_final = λ c. some (digest_of c);
  sha256_final_array = digest_of-IsArray;
}

abbrev pub world : World
world = record {
  now = 1700000000;
  entropy = 5;
  file_at = λ path. none;
  can_write = λ path. true;
  disk = empty_disk;
  unset = replicate 32 170;
  rounds = 1;
  address_room = 131;
}

abbrev pub state_after : Run (Option (Answer × State)) → State
state_after ub = start
state_after (ret none) = start
state_after (ret (some (a, s))) = s

abbrev pub with_wallet : State
with_wallet = record start { wallet = some 5 }

wallet_made :
    find_command world wallet_create none none (λ t. 0) start ≡ ret (some (done, with_wallet))
unfolding find_command handle_wallet_create ec_create
wallet_made = refl

abbrev pub after_mining : State
after_mining = state_after (handle_mine world with_wallet)

mined :
    (find_command world mine_block none none (λ t. 0) with_wallet ≡ ret (some (done, after_mining)))
    × Counted after_mining.blockchain
unfolding find_command start blockchain_create genesis_hash genesis_data genesis_block handle_mine
    mine block_create coinbase_create coinbase_create_continue coinbase_input coinbase_is_valid
    coinbase_parts is_empty drop_invalid test_all fill_block append_block add_transaction
    blockchain_difficulty block_mine mine_loop block_hash append_ids hash_transaction_ids info_bytes
    hash_matches_difficulty full_bytes_zero bits_zero block_is_valid check_link check_block
    validate_transactions validate_loop update_unspent update_loop remove_spent add_outputs
    find_unspent unspent_tx_out_create ec_to_pub tx_out_create transaction_hash hash_inputs
    hash_outputs run_each nodes_at nodes_from mem_eq bytes_of le_bytes of_le_bytes checksum sha256
mined = (refl, omega arith)

Elem-insert :
    {A : Type 0} (cmp : A → A → Comparison) (y : A) (l : List A) {x : A}
    → Elem x (insert cmp y l)
    → Elem x (y ∷ l)
Elem-insert cmp y [] m = m
Elem-insert {A} cmp y (z ∷ l) {x} m = go (cmp y z) (Elem-insert cmp y l) m
  where
    go :
        (c : Comparison)
        → (Elem x (insert cmp y l) → Elem x (y ∷ l))
        → Elem x (elim c as (λ _. List A) [ greater ↦ z ∷ insert cmp y l | _ ↦ y ∷ z ∷ l ])
        → Elem x (y ∷ z ∷ l)
    go less inner k = k
    go equal inner k = k
    go greater inner (here e) = there (here e)
    go greater inner (there k) = elim (inner k) [ here e ↦ here e | there k' ↦ there (there k') ]

Elem-sorted :
    {A : Type 0} (cmp : A → A → Comparison) (l : List A) {x : A} → Elem x (sorted cmp l) → Elem x l
Elem-sorted cmp [] m = m
Elem-sorted cmp (y ∷ l) m = elim (Elem-insert cmp y (sorted cmp l) m) [
  | here e ↦ here e
  | there k ↦ there (Elem-sorted cmp l k)
]

sorts : SortsUnspent
sorts l l' e u m =
    Elem-sorted compares_unspent_tx_out l
      (subst (λ t. Elem u t) (sym (some-injective (sorted compares_unspent_tx_out l) l' e)) m)

reached : Reached after_mining
reached =
    ran world mine_block none none (λ t. 0) done
      (ran world wallet_create none none (λ t. 0) done started refl (λ t. omega arith) (λ e. cc)
        wallet_made)
      refl (λ t. omega arith) (λ e. cc) mined.0

Reached-HasStateShape_example : HasStateShape after_mining
Reached-HasStateShape_example = Reached-HasStateShape sorts reached

handle_load-handle_save_example :
    (handle_save world after_mining [] >>= λ saved.
    handle_load (record world { file_at = λ _. saved.1 }) start [])
    ≡ ret (done, record start { blockchain = after_mining.blockchain })
handle_load-handle_save_example =
    handle_load-handle_save world world start [] sorts reached mined.1 refl
