-- ===== src/Prelude/Host.antt =====
-- The host's byte order (blockchain/v0.3/provided/_endianness.c and endianness.h).
pub mod Swap
use mathlib.Core.List.{List, [], ◌∷◌, reverse, reverse-reverse, reverse-append}
use mathlib.Core.Path.{◌≡◌, refl}
use Prim.Native.Nat.{ℕ, ◌^◌, ◌<◌}
use native.Mathlib.Omega.{arith}
use holbertonschool_blockcha.Prelude.Tests.{◌==◌, if◌then◌else◌}
use holbertonschool_blockcha.Prelude.Lists.{length, get_or, length-append}
use holbertonschool_blockcha.Prelude.Bytes.{
  le_bytes, of_le_bytes, length-le_bytes, of_le_bytes-le_bytes,
}

pub data Endian : Type 0 where
  little big : Endian

-- The platform that the program is compiled for.
pub record Host : Type 0 where
  pub endian : Endian

ordered : Endian → List ℕ → List ℕ
ordered little bs = bs
ordered big bs = reverse bs

-- An unsigned integer of `w` bytes in memory, and what such bytes stand for.
unfoldable pub bytes_of : ⦃host : Host⦄ → ℕ → ℕ → List ℕ
unfolding ordered
bytes_of ⦃host⦄ w n = ordered host.endian (le_bytes w n)

unfoldable pub value_of : ⦃host : Host⦄ → List ℕ → ℕ
unfolding ordered
value_of ⦃host⦄ bs = of_le_bytes (ordered host.endian bs)

-- `_endian_t order = { 1 }`, and the tests on its first byte.
unfoldable pub get_endianness : ⦃host : Host⦄ → ℕ
unfolding bytes_of
get_endianness =
    let first = get_or (bytes_of 4 1) 0 0 in if first == 1 then 1 else if first == 0 then 2 else 0

length-reverse : (bs : List ℕ) → length (reverse bs) ≡ length bs
length-reverse [] = refl
length-reverse (b ∷ bs) =
    rw (reverse-append (b ∷ []) bs, length-append (reverse bs) (b ∷ []), length-reverse bs)
      (omega arith)

module _ ⦃host : Host⦄ where
  pub length-bytes_of : (w n : ℕ) → length (bytes_of w n) ≡ w
  unfolding bytes_of
  length-bytes_of w n = go host.endian
    where
      go : (e : Endian) → length (ordered e (le_bytes w n)) ≡ w
      go little = length-le_bytes w n
      go big = rw length-reverse (length-le_bytes w n)

  -- An integer that fits its bytes is read back from them, on either byte order.
  pub value_of-bytes_of : (w n : ℕ) → n < 256 ^ w → value_of (bytes_of w n) ≡ n
  unfolding bytes_of value_of
  value_of-bytes_of w n h = go host.endian
    where
      go : (e : Endian) → of_le_bytes (ordered e (ordered e (le_bytes w n))) ≡ n
      go little = of_le_bytes-le_bytes w n h
      go big = rw reverse-reverse (of_le_bytes-le_bytes w n h)
