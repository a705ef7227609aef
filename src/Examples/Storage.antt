-- ===== src/Examples/Storage.antt =====
-- Saving and loading.
use holbertonschool_blockcha.Prelude.{
  ℕ, ◌≡◌, ◌≤◌, ◌↔◌, length, refl, true, none, some, List, [], ◌∷◌, replicate, ret, ◌>>=◌, arith,
}
use holbertonschool_blockcha.Block.Types.{Blockchain}
use holbertonschool_blockcha.Transaction.Types.{TxOut, Transaction}
use holbertonschool_blockcha.Chain.Serialize.{blockchain_serialize}
use holbertonschool_blockcha.Chain.Deserialize.{blockchain_deserialize}
use holbertonschool_blockcha.Chain.WellFormed.{IsBlockchain}
use holbertonschool_blockcha.Chain.Refused.{IsSigned, deserialize-refuses}
use holbertonschool_blockcha.Chain.RoundTrip.{deserialize-serialize}
use holbertonschool_blockcha.Examples.Platform.{plain_lists, little_host}

abbrev zeros32 : List ℕ
zeros32 = replicate 32 0

abbrev coin : TxOut
coin = record { amount = 50; pubkey = replicate 65 4; hash = replicate 32 7 }

abbrev reward : Transaction
reward = record {
  id = replicate 32 9;
  inputs =
      record {
        block_hash = zeros32;
        tx_id = zeros32;
        tx_out_hash = zeros32;
        sig = record { sig = replicate 72 0; len = 0 };
      }
      ∷ [];
  outputs = coin ∷ [];
}

-- A first block without transactions and a second with one; neither holds data.
abbrev saved_chain : Blockchain
saved_chain = record {
  chain =
      record {
        info = record { index = 0; difficulty = 0; timestamp = 7; nonce = 0; prev_hash = zeros32 };
        contents = record { buffer = replicate 1024 0; len = 0 };
        transactions = none;
        hash = replicate 32 1;
      }
      ∷ record {
        info = record {
          index = 1;
          difficulty = 2;
          timestamp = 300;
          nonce = 70000;
          prev_hash = replicate 32 1;
        };
        contents = record { buffer = replicate 1024 0; len = 0 };
        transactions = some (reward ∷ []);
        hash = replicate 32 2;
      }
      ∷ [];
  unspent = record { block_hash = replicate 32 2; tx_id = replicate 32 9; out = coin } ∷ [];
}

saved_chain-IsBlockchain : IsBlockchain saved_chain
saved_chain-IsBlockchain = record {
  chain_fits = omega arith;
  unspent_fits = omega arith;
  chain = (
    record {
      info = omega arith;
      contents = record { len = omega arith; length = refl; padded = refl };
      transactions = tt;
      hash = refl;
    },
    (
      record {
        info = omega arith;
        contents = record { len = omega arith; length = refl; padded = refl };
        transactions = omega arith;
        hash = refl;
      },
      tt,
    ),
  );
  unspent = omega arith;
}

deserialize-serialize_example :
    (blockchain_serialize true (some saved_chain) >>= blockchain_deserialize)
    ≡ ret (some saved_chain)
deserialize-serialize_example = deserialize-serialize saved_chain saved_chain-IsBlockchain

abbrev older_file : List ℕ
older_file = b'H' ∷ b'B' ∷ b'L' ∷ b'K' ∷ b'0' ∷ b'.' ∷ b'2' ∷ replicate 9 1

deserialize-refuses_example :
    (blockchain_deserialize (some older_file) ≡ ret none)
    ↔ ((16 ≤ length older_file) × (¬ IsSigned older_file))
deserialize-refuses_example = deserialize-refuses older_file
