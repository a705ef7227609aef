-- ===== src/Shape/Reached.antt =====
-- The states that the client reaches from the one that `main` of cli/cli.c makes.
use holbertonschool_blockcha.Prelude.{
  ℕ, ◌^◌, ◌<◌, ◌≡◌, ◌≢◌, refl, Option, some, List, length, ret, Ensures-ret, arith,
}
use holbertonschool_blockcha.Prelude.Host.{Host}
use holbertonschool_blockcha.Llist.{Llist}
use holbertonschool_blockcha.Crypto.{Openssl}
use holbertonschool_blockcha.Block.Genesis.{genesis_hash, genesis_data, blockchain_create}
use holbertonschool_blockcha.Cli.State.{Answer, State, World}
use holbertonschool_blockcha.Cli.Main.{start}
use holbertonschool_blockcha.Cli.Command.{Command, load, find_command}
use holbertonschool_blockcha.Shape.{HasStateShape}
use holbertonschool_blockcha.Shape.Extended.{Kept}
use holbertonschool_blockcha.Shape.Commands.{SortsUnspent, find_command-Kept}

module _ ⦃host : Host⦄ ⦃ll : Llist⦄ ⦃ssl : Openssl⦄ where
  -- Any commands but `load`, each in a world of its own. An array that was not written to has its 32
  -- bytes all the same, and `atoi` gives an int.
  pub data Reached : State → Type 0 where
    started : Reached start
    ran :
        {s s' : State} (w : World) (c : Command) (arg1 arg2 : Option (List ℕ)) (atoi : List ℕ → ℕ)
        (a : Answer)
        → Reached s
        → length w.unset ≡ 32
        → ((arg : List ℕ) → atoi arg < 2 ^ 32)
        → c ≢ load
        → find_command w c arg1 arg2 atoi s ≡ ret (some (a, s'))
        → Reached s'

  start-HasStateShape : HasStateShape start
  unfolding start blockchain_create genesis_hash genesis_data
  start-HasStateShape = record {
    chain = rw ll.add_front_eq (
      record {
        info = omega arith;
        contents = record { len = omega arith; length = refl; padded = refl };
        transactions = refl;
        hash = refl;
      },
      tt,
    );
    unspent = tt;
    pool = tt;
  }

  -- In every state that the commands but `load` reach from the first one, each array has its
  -- declared length, each number of a block, an output or an unspent output has the width of its
  -- type, each signature is at most as long as its array, and a block has a list of transactions
  -- exactly if its index is not 0, if sorting makes no outputs up.
  pub Reached-HasStateShape : {s : State} → SortsUnspent → Reached s → HasStateShape s
  Reached-HasStateShape sorts started = start-HasStateShape
  Reached-HasStateShape sorts (ran {s} w c arg1 arg2 atoi a before array small not_load runs) =
      Ensures-ret Kept
        (find_command-Kept w c arg1 arg2 atoi s sorts array small not_load
          (Reached-HasStateShape sorts before))
        runs
