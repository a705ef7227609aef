-- ===== src/V1/Order.antt =====
-- SWAPENDIAN32 of blockchain/v0.1/blockchain.h on integers that were written in the other byte order.
use mathlib.Core.List.{reverse}
use holbertonschool_blockcha.Prelude.{ℕ, ◌/◌, ◌^◌, ◌<◌, ◌≡◌, ◌==◌, if◌then◌else◌, not, Bool, arith}
use holbertonschool_blockcha.Prelude.Bytes.{le_bytes, of_le_bytes}
use holbertonschool_blockcha.Prelude.Host.{
  Host, Endian, little, big, bytes_of, value_of, get_endianness, value_of-bytes_of,
}
use holbertonschool_blockcha.V1.Deserialize.{swapendian32}

swapendian32-reverse_4 :
    (n : ℕ) → n < 2 ^ 32 → swapendian32 (of_le_bytes (reverse (le_bytes 4 n))) ≡ n
unfolding swapendian32 of_le_bytes le_bytes
swapendian32-reverse_4 n h = omega arith

reverse_4-swapendian32 : (n : ℕ) → of_le_bytes (reverse (le_bytes 4 n)) ≡ swapendian32 n
unfolding swapendian32 of_le_bytes le_bytes
reverse_4-swapendian32 n = omega arith

swapendian32-reverse_8 :
    (n : ℕ) → n < 2 ^ 64 → swapendian32 (of_le_bytes (reverse (le_bytes 8 n))) ≡ n / 2 ^ 32
unfolding swapendian32 of_le_bytes le_bytes
swapendian32-reverse_8 n h = omega arith

-- Whether a file that was written on the first host is swapped on the second.
abbrev pub differs : Host → Host → Bool
differs from to = not (get_endianness ⦃host = from⦄ == get_endianness ⦃host = to⦄)

-- What the second host sees in an integer that the first host wrote, before and after the swap.
abbrev pub seen : Host → Host → ℕ → ℕ → ℕ
seen from to w n = value_of ⦃host = to⦄ (bytes_of ⦃host = from⦄ w n)

abbrev pub swapped : Host → Host → ℕ → ℕ → ℕ
swapped from to w n = if differs from to then swapendian32 (seen from to w n) else seen from to w n

abbrev on : Endian → Host
on e = record { endian = e }

pub swapped_4 : (from to : Host) (n : ℕ) → n < 2 ^ 32 → swapped from to 4 n ≡ n
unfolding get_endianness bytes_of value_of le_bytes of_le_bytes
swapped_4 from to n h = go from.endian to.endian
  where
    go : (e f : Endian) → swapped (on e) (on f) 4 n ≡ n
    go little little = value_of-bytes_of ⦃host = on little⦄ 4 n h
    go big big = value_of-bytes_of ⦃host = on big⦄ 4 n h
    go little big = swapendian32-reverse_4 n h
    go big little = swapendian32-reverse_4 n h

-- A wider integer loses its low half when it is swapped.
abbrev pub kept : Bool → ℕ → ℕ
kept d n = if d then n / 2 ^ 32 else n

pub swapped_8 :
    (from to : Host) (n : ℕ) → n < 2 ^ 64 → swapped from to 8 n ≡ kept (differs from to) n
unfolding get_endianness bytes_of value_of le_bytes of_le_bytes
swapped_8 from to n h = go from.endian to.endian
  where
    go : (e f : Endian) → swapped (on e) (on f) 8 n ≡ kept (differs (on e) (on f)) n
    go little little = value_of-bytes_of ⦃host = on little⦄ 8 n h
    go big big = value_of-bytes_of ⦃host = on big⦄ 8 n h
    go little big = swapendian32-reverse_8 n h
    go big little = swapendian32-reverse_8 n h

-- The number of blocks is not swapped.
pub seen_4 :
    (from to : Host) (n : ℕ)
    → n < 2 ^ 32
    → seen from to 4 n ≡ (if differs from to then swapendian32 n else n)
unfolding get_endianness bytes_of value_of le_bytes of_le_bytes
seen_4 from to n h = go from.endian to.endian
  where
    go :
        (e f : Endian)
        → seen (on e) (on f) 4 n ≡ (if differs (on e) (on f) then swapendian32 n else n)
    go little little = value_of-bytes_of ⦃host = on little⦄ 4 n h
    go big big = value_of-bytes_of ⦃host = on big⦄ 4 n h
    go little big = reverse_4-swapendian32 n
    go big little = reverse_4-swapendian32 n

-- A small number that is swapped becomes a large one.
pub swapendian32_large : (n : ℕ) → 0 < n → n < 2 ^ 16 → n < swapendian32 n
unfolding swapendian32
swapendian32_large n h k = omega arith
