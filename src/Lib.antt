-- ===== src/Lib.antt =====
-- Verification of the blockchain of this repository: version 0.3, with its cryptography and its
-- command line client, and the versions 0.1 and 0.2 before it.
--
-- The parts and the files that model them:
--
--   llist/                            Llist, Llist.Walk
--   crypto/                           Crypto, with Files for ec_save.c and ec_load.c
--   blockchain/v0.3/transaction/      Transaction: Types (transaction.h), Outputs (the three
--                                     constructors), Hash, Sign (tx_in_sign.c, tool.c), Select and
--                                     Create (transaction_create.c), Valid, Coinbase, Update
--   blockchain/v0.3/block*.c          Block: Types (blockchain.h), Genesis (blockchain_create.c),
--                                     Create, Hash, Difficulty, Mine, Valid
--   blockchain/v0.3/provided/         Transaction.Print, Block.Print, V1.Print for version 0.1;
--                                     _print_hex_buffer.c is in Prelude.Text, and
--                                     _endianness.c in Prelude.Host
--   blockchain/v0.3/blockchain_serialize.c, blockchain_deserialize.c
--                                     Chain: Serialize, Reader, Deserialize
--   the sizes of all that they keep   Shape
--   the destructors, cli/cleanup.c    Memory
--   blockchain/v0.1/                  V1: Types, Create, Hash, Valid, Serialize, Reader and
--                                     Deserialize (blockchain_deserialize.c)
--   blockchain/v0.2/                  V2: Files, Difficulty, Mine, Valid; its other files are those
--                                     of version 0.1, or, as hash_matches_difficulty.c, of 0.3
--   cli/                              Cli: Tools, State, Mine, Send, List (unspent_list.c), Info
--                                     (what info, info_block and help print), Command, Main
--                                     (the loop of `main` in cli.c)
--
-- A module of a part holds the functions under their names in C; its child modules prove things
-- about them. Prelude has the numbers, lists, bytes and runs that all of them use. Examples has
-- concrete parameters, and each theorem at a concrete input.
--
-- How the parts interact: the client keeps a wallet, a chain with its unspent outputs, and a pool of
-- transactions. `send` makes a transaction from the unspent outputs, signs it through crypto/, and
-- puts it in the pool once it is valid. `mine` takes the pool and a coinbase transaction into a
-- block, mines it at the chain's difficulty, checks it, and updates the unspent outputs. `save` and
-- `load` move the chain to and from a file.
--
-- Conventions:
--
--   * An array of bytes is the list of its bytes, a pointer that may be NULL an Option, and an
--     `llist_t` the list of what its nodes point to. A machine integer is a natural number, with its
--     wrap-around written out. -1, 0 and 1 are told apart where a caller tells them apart.
--   * `Run.ub` is undefined behaviour: a read outside an object, of memory never written, or a write
--     past an array. A theorem that a run returns says that none was met.
--   * llist/ is a binary with a manual, and OpenSSL is not part of the repository: both are
--     parameters, the records `Llist` and `Openssl`, with what their manuals say as fields. The byte
--     order of the machine is the parameter `Host`. Examples.Platform meets all three.
--   * Memory can always be allocated, `write` writes all it is given, and the padding of a structure
--     is zero. A file that ends early leaves members unset, which counts as undefined behaviour.
--   * The loop of `block_mine` has no bound, so `mine_loop` runs on fuel, one unit a nonce. Any
--     amount above the first nonce that wins is enough.
--   * Output is the bytes that `printf` writes, put behind what was written before. Numbers of at
--     most 64 bits have at most the 20 digits that `decimal` allows. The sizes of structures that
--     `info_block` prints are those of a host whose pointers have 8 bytes.
--   * The client's inputs from outside, such as the clock and the files, are the record `World`.
--
-- Not modelled: the messages of the commands that are not there to print, and the logo; freeing in
-- the midst of a command, where a value is just not used any more.
pub mod Prelude
pub mod Llist
pub mod Crypto
pub mod Transaction
pub mod Block
pub mod Chain
pub mod Shape
pub mod Memory
pub mod V1
pub mod V2
pub mod Cli
mod Examples
