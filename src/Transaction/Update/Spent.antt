-- ===== src/Transaction/Update/Spent.antt =====
-- Two unspent outputs with one hash: `update_unspent` looks at the hash only.
use holbertonschool_blockcha.Llist.{Llist}
