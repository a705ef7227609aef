-- ===== src/Cli/Tools.antt =====
-- cli/tools.c, and `bytes_to_hex` of cli/handle_info.c. A string is the list of its characters'
-- codes, without the NUL.
pub mod Hex
use holbertonschool_blockcha.Prelude.{
  ℕ, zero, suc, ◌+◌, ◌-◌, ◌*◌, ◌/◌, ◌%◌, ◌^◌, leb, ltb, ◌&&◌, if◌then◌else◌, Option, none, some,
  List, [], ◌∷◌, length,
}
use holbertonschool_blockcha.Crypto.{ec_pub_len}
use holbertonschool_blockcha.Transaction.Types.{UnspentTxOut}
use holbertonschool_blockcha.Llist.{Llist}

unfoldable pub sum_unspent : UnspentTxOut → ℕ → ℕ × UnspentTxOut × ℕ
sum_unspent unspent_tx_out total = (0, unspent_tx_out, (total + unspent_tx_out.out.amount) % 2 ^ 32)

-- The string with its capital digits made small, if every character is a hex digit.
unfoldable pub check_string : List ℕ → Option (List ℕ)
check_string [] = some []
check_string (c ∷ address) = elim (check_string address) [
  | none ↦ none
  | some rest ↦
      if leb b'0' c && leb c b'9'
      then some (c ∷ rest)
      else if leb b'a' c && leb c b'f'
      then some (c ∷ rest)
      else if leb b'A' c && leb c b'F'
      then some ((c + 32) ∷ rest)
      else none
]

-- The value of a digit that `%02x` reads.
unfoldable pub digit_value : ℕ → ℕ
digit_value c = if leb c b'9' then c - b'0' else c - 87

-- The loop of `string_to_pub`: one byte from each two digits.
unfoldable pub scan_pub : ℕ → List ℕ → List ℕ
scan_pub zero address = []
scan_pub (suc n) [] = []
scan_pub (suc n) (c ∷ []) = digit_value c ∷ []
scan_pub (suc n) (c ∷ d ∷ address) = (digit_value c * 16 + digit_value d) ∷ scan_pub n address

unfoldable pub string_to_pub : Option (List ℕ) → Option (List ℕ)
string_to_pub none = none
string_to_pub (some address) =
    if ltb (length address) (ec_pub_len * 2) then none else elim (check_string address) [
      | none ↦ none
      | some lowered ↦ some (scan_pub ec_pub_len lowered)
    ]

-- An entry of "0123456789abcdef".
unfoldable pub hex_char : ℕ → ℕ
hex_char n = if ltb n 10 then b'0' + n else 87 + n

unfoldable pub bytes_to_hex : List ℕ → List ℕ
bytes_to_hex [] = []
bytes_to_hex (b ∷ bytes) = hex_char (b / 16 % 16) ∷ hex_char (b % 16) ∷ bytes_to_hex bytes
