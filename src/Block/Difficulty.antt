-- ===== src/Block/Difficulty.antt =====
-- hash_matches_difficulty.c and blockchain_difficulty.c of blockchain/v0.3/.
pub mod Matches
pub mod Steps
use holbertonschool_blockcha.Prelude.{
  ℕ, zero, suc, ◌+◌, ◌-◌, ◌*◌, ◌/◌, ◌%◌, ◌^◌, ltb, ◌==◌, if◌then◌else◌, ◌||◌, not, Bool, true,
  false, Option, none, some, List, get_elem?, Run, ret, ub, ◌>>=◌,
}
use holbertonschool_blockcha.Llist.{Llist}
use holbertonschool_blockcha.Block.Types.{Blockchain}

-- The loop over the full bytes, with the rounds that are left. An index past the array is a read
-- outside it.
unfoldable pub full_bytes_zero : ℕ → ℕ → List ℕ → Run Bool
full_bytes_zero zero i hash = ret true
full_bytes_zero (suc n) i hash =
    let rest = full_bytes_zero n (suc i) hash in
    elim (get_elem? hash i) [ none ↦ ub | some byte ↦ if not (byte == 0) then ret false else rest ]

-- The test on the bits that are left, of the byte at `full_bytes`.
unfoldable pub bits_zero : ℕ → ℕ → List ℕ → Run Bool
bits_zero full_bytes remaining_bits hash =
    if remaining_bits == 0 then ret true else elim (get_elem? hash full_bytes) [
      | none ↦ ub
      | some byte ↦ ret (byte / 2 ^ (8 - remaining_bits) == 0)
    ]

unfoldable pub hash_matches_difficulty : List ℕ → ℕ → Run Bool
hash_matches_difficulty hash difficulty = do
  zeros ← full_bytes_zero (difficulty / 8) 0 hash
  if not zeros then ret false else bits_zero (difficulty / 8) (difficulty % 8) hash

abbrev pub block_generation_interval : ℕ
block_generation_interval = 1

abbrev pub difficulty_adjustment_interval : ℕ
difficulty_adjustment_interval = 5

-- The adjustment, from the time that the last blocks took.
unfoldable pub adjust : ℕ → ℕ → ℕ
adjust difficulty actual_time =
    let expected_time = difficulty_adjustment_interval * block_generation_interval in
    if ltb actual_time (expected_time / 2)
    then (difficulty + 1) % 2 ^ 32
    else if ltb (expected_time * 2) actual_time
    then (if ltb 0 difficulty then difficulty - 1 else 0)
    else difficulty

module _ ⦃ll : Llist⦄ where
  -- An int below 0 is an unsigned index past every list.
  unfoldable pub blockchain_difficulty : Option Blockchain → ℕ
  blockchain_difficulty none = 0
  blockchain_difficulty (some blockchain) = elim (ll.get_tail blockchain.chain) [
    | none ↦ 0
    | some last_block ↦
        if last_block.info.index == 0
          || not (last_block.info.index % difficulty_adjustment_interval == 0)
        then last_block.info.difficulty
        else elim (ll.get_node_at blockchain.chain
            ((ll.size blockchain.chain + 2 ^ 32 - difficulty_adjustment_interval) % 2 ^ 32)) [
              | none ↦ 0
              | some adjusted_block ↦
                  adjust last_block.info.difficulty
                    ((last_block.info.timestamp + 2 ^ 64 - adjusted_block.info.timestamp) % 2 ^ 64)
            ]
  ]
