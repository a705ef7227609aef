-- ===== src/Block/Difficulty/Steps.antt =====
-- How far `blockchain_difficulty` is from the difficulty of the last block.
use holbertonschool_blockcha.Prelude.{
  ℕ, ◌+◌, ◌-◌, ◌%◌, ◌^◌, ◌≤◌, ◌<◌, ◌≡◌, ◌==◌, ◌||◌, not, some, List, length, get_elem?, get_last?,
  drop_cases, inl, inr, Bool-cases, arith,
}
use holbertonschool_blockcha.Llist.{Llist}
use holbertonschool_blockcha.Block.Types.{Block, Blockchain}
use holbertonschool_blockcha.Block.Difficulty.{adjust, blockchain_difficulty}

-- One step up or down at most.
abbrev pub Near : ℕ → ℕ → Type 0
Near a b = (a ≤ b + 1) × (b ≤ a + 1)

adjust-Near :
    (difficulty time : ℕ) → difficulty + 1 < 2 ^ 32 → Near (adjust difficulty time) difficulty
unfolding adjust
adjust-Near difficulty time h = ground arith

in_range : (l : List Block) (i : ℕ) → i < length l → (x : Block) × (get_elem? l i ≡ some x)
in_range l i h = elim (drop_cases i l) [
  | inl (_, _, past) ↦ absurd (omega arith)
  | inr (x, at, _) ↦ (x, at)
]

module _ ⦃ll : Llist⦄ where
  -- In a chain of at least five blocks, fewer than 2 ^ 31, whose last difficulty has room for one
  -- more, the next difficulty is at most one above or below it.
  pub blockchain_difficulty-Near :
      (c : Blockchain) (last : Block)
      → get_last? c.chain ≡ some last
      → 5 ≤ length c.chain
      → length c.chain < 2 ^ 31
      → last.info.difficulty + 1 < 2 ^ 32
      → Near (blockchain_difficulty (some c)) last.info.difficulty
  unfolding blockchain_difficulty
  blockchain_difficulty-Near c last tail five short room =
      elim (Bool-cases (last.info.index == 0 || not (last.info.index % 5 == 0))) [
        | inl same ↦
            simp (blockchain_difficulty, ll.get_tail_eq, tail, same) (omega arith, omega arith)
        | inr due ↦
            let (adjusted, at) = in_range c.chain (length c.chain - 5) (omega arith) in
            let place : (length c.chain + 2 ^ 32 - 5) % 2 ^ 32 ≡ length c.chain - 5 = omega arith in
            simp
              (
                blockchain_difficulty, ll.get_tail_eq, tail, due, ll.size_eq, ll.get_node_at_eq,
                place, at,
              )
              (adjust-Near last.info.difficulty _ room)
      ]
