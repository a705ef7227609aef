-- ===== src/Examples/Memories.antt =====
-- The memory of a small client: a key, two blocks, of which one has a list of transactions, and a
-- transaction in the pool.
use holbertonschool_blockcha.Prelude.{
  ℕ, ◌≡◌, refl, ltb, ◌==◌, ◌&&◌, true, All, Bool-cases, inl, inr, if◌then◌else◌, Bool, false, none,
  some, List, [], ◌∷◌, ret,
}
use holbertonschool_blockcha.Memory.{Live, TransactionAt, StateAt, cleanup}
use holbertonschool_blockcha.Memory.Freed.{listed, AreApart, AreLive, concat_of}
use holbertonschool_blockcha.Memory.Cleanup.{
  transaction_owned, block_owned, blockchain_owned, key_owned, state_owned, cleanup-without,
}
use holbertonschool_blockcha.Examples.Platform.{plain_memory}

abbrev mined_at : TransactionAt
mined_at = record {
  address = 1;
  inputs = record { address = 2; nodes = 3 ∷ [] };
  outputs = record { address = 4; nodes = 5 ∷ 6 ∷ [] };
}

abbrev pending_at : TransactionAt
pending_at = record {
  address = 7;
  inputs = record { address = 8; nodes = 9 ∷ [] };
  outputs = record { address = 10; nodes = 11 ∷ [] };
}

abbrev client_at : StateAt
client_at = record {
  address = 12;
  wallet = some 13;
  blockchain = some (record {
    address = 14;
    chain = record {
      address = 15;
      nodes =
          record { address = 16; transactions = none }
          ∷ record {
            address = 17;
            transactions = some (record { address = 18; nodes = mined_at ∷ [] });
          }
          ∷ [];
    };
    unspent = record { address = 19; nodes = 20 ∷ 21 ∷ [] };
  });
  tx_pool = some (record { address = 22; nodes = pending_at ∷ [] });
}

abbrev below_40 : Live
below_40 a = ltb a 40

differs : ℕ → List ℕ → Bool
differs p [] = true
differs p (q ∷ qs) = if q == p then false else differs p qs

all_differ : List ℕ → Bool
unfolding differs
all_differ [] = true
all_differ (p ∷ ps) = differs p ps && all_differ ps

differs_sound : (p : ℕ) (qs : List ℕ) → differs p qs ≡ true → All (λ q. (q == p) ≡ false) qs
unfolding differs
differs_sound p [] h = tt
differs_sound p (q ∷ qs) h = elim (Bool-cases (q == p)) [
  | inl same ↦ cc (rw same at h)
  | inr other ↦ (other, differs_sound p qs (rw other at h))
]

all_differ_sound : (ps : List ℕ) → all_differ ps ≡ true → AreApart ps
unfolding all_differ
all_differ_sound [] h = tt
all_differ_sound (p ∷ ps) h = elim (Bool-cases (differs p ps)) [
  | inl apart ↦ (differs_sound p ps apart, all_differ_sound ps (rw apart at h))
  | inr clash ↦ cc (rw clash at h)
]

client_apart : AreApart (state_owned client_at)
unfolding state_owned key_owned blockchain_owned block_owned transaction_owned concat_of all_differ
client_apart = all_differ_sound (state_owned client_at) refl

are_live : List ℕ → Live → Bool
are_live [] live = true
are_live (p ∷ ps) live = live p && are_live ps live

are_live_sound : (ps : List ℕ) (live : Live) → are_live ps live ≡ true → AreLive ps live
unfolding are_live
are_live_sound [] live h = tt
are_live_sound (p ∷ ps) live h = elim (Bool-cases (live p)) [
  | inl there ↦ (there, are_live_sound ps live (rw there at h))
  | inr gone ↦ cc (rw gone at h)
]

client_live : AreLive (state_owned client_at) below_40
unfolding state_owned key_owned blockchain_owned block_owned transaction_owned concat_of are_live
client_live = are_live_sound (state_owned client_at) below_40 refl

cleanup-without_example :
    (live' : Live) × (cleanup (some client_at) below_40 ≡ ret live')
    × ((a : ℕ) → live' a ≡ (if listed a (state_owned client_at) then false else below_40 a))
cleanup-without_example = cleanup-without client_at below_40 client_apart client_live
