-- ===== src/Shape/Fresh.antt =====
-- The sizes of the block that the command `mine` makes before it is mined.
use holbertonschool_blockcha.Prelude.{
  ℕ, ◌+◌, ◌-◌, ◌%◌, ◌^◌, ◌<◌, ◌≡◌, ◌==◌, ◌||◌, not, refl, some, List, [], ◌∷◌, All, length,
  replicate, get_elem?, get_last?, Ensures, Bool-cases, Option-cases, inl, inr, arith,
}
use holbertonschool_blockcha.Prelude.Bytes.{IsU32}
use holbertonschool_blockcha.Prelude.Maybe.{Always}
use holbertonschool_blockcha.Llist.{Llist}
use holbertonschool_blockcha.Block.Types.{Block, Blockchain}
use holbertonschool_blockcha.Block.Difficulty.{adjust, blockchain_difficulty}
use holbertonschool_blockcha.Block.Create.{block_create}
use holbertonschool_blockcha.Chain.WellFormed.{IsInfo, IsContents}
use mathlib.Core.Path.{subst}
use holbertonschool_blockcha.Shape.{HasBlockShape}

All-get_last? :
    {A : Type 0} (P : A → Type 0) (l : List A) {x : A} → All P l → get_last? l ≡ some x → P x
All-get_last? P [] h e = cc
All-get_last? P (y ∷ []) (hy, _) e = let same : y ≡ _ = cc e in subst P same hy
All-get_last? P (y ∷ z ∷ l) (hy, hl) e = All-get_last? P (z ∷ l) hl e

adjust_small : (d time : ℕ) → d < 2 ^ 32 → adjust d time < 2 ^ 32
unfolding adjust
adjust_small d time h = ground arith

-- An empty block as it is created, with its list of transactions.
pub record IsFresh (b : Block) : Type 0 where
  pub info : IsInfo b.info
  pub contents : IsContents b.contents
  pub empty : b.transactions ≡ some []

module _ ⦃ll : Llist⦄ where
  pub difficulty_small :
      (c : Blockchain) → All HasBlockShape c.chain → IsU32 (blockchain_difficulty (some c))
  unfolding blockchain_difficulty
  difficulty_small c h = elim (Option-cases (get_last? c.chain)) [
    | inl e ↦ simp (blockchain_difficulty, ll.get_tail_eq, e) (omega arith)
    | inr (last, e) ↦
        let small : last.info.difficulty < 2 ^ 32 =
          (All-get_last? HasBlockShape c.chain h e).info.difficulty in
        elim (Bool-cases (last.info.index == 0 || not (last.info.index % 5 == 0))) [
          | inl same ↦ simp (blockchain_difficulty, ll.get_tail_eq, e, same) small
          | inr due ↦
              elim (Option-cases (get_elem? c.chain ((length c.chain + 2 ^ 32 - 5) % 2 ^ 32))) [
                | inl past ↦
                    simp
                      (
                        blockchain_difficulty, ll.get_tail_eq, e, due, ll.size_eq,
                        ll.get_node_at_eq, past,
                      )
                      (omega arith)
                | inr (adjusted, at) ↦
                    simp
                      (
                        blockchain_difficulty, ll.get_tail_eq, e, due, ll.size_eq,
                        ll.get_node_at_eq, at,
                      )
                      (adjust_small last.info.difficulty _ small)
              ]
        ]
  ]

  pub block_create-IsFresh :
      (chain : List Block) (now : ℕ)
      → All HasBlockShape chain
      → Ensures
          (Always IsFresh)
          (block_create (ll.get_tail chain) (some (replicate 1024 0)) 1024 now)
  unfolding block_create
  block_create-IsFresh chain now h = elim (Option-cases (get_last? chain)) [
    | inl e ↦ rw (ll.get_tail_eq, e) tt
    | inr (prev, e) ↦
        rw (ll.get_tail_eq, e)
          (record {
            info = record {
              index = omega arith;
              difficulty = omega arith;
              timestamp = omega arith;
              nonce = omega arith;
              prev_hash = (All-get_last? HasBlockShape chain h e).hash;
            };
            contents = record { len = omega arith; length = refl; padded = refl };
            empty = refl;
          })
  ]
