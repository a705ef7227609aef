-- ===== src/Examples/Platform.antt =====
-- Parameters that meet their hypotheses: lists by their specification, and a toy OpenSSL whose digest
-- is a checksum and whose private key is its public point.
use mathlib.Core.Option.{some-injective}
use mathlib.Core.Path.{subst}
use holbertonschool_blockcha.Prelude.{
  ℕ, ◌+◌, ◌*◌, ◌≤◌, ◌≡◌, refl, ret, ◌>>=◌, Bool, true, false, none, some, ap, List, [], ◌∷◌, ◌++◌,
  length, get_elem?, get_last?, take, drop, remove_first, length-append, length-take, arith,
}
use holbertonschool_blockcha.Prelude.Bytes.{
  IsArray, mem_eq, le_bytes, of_le_bytes, length-le_bytes, le_bytes-IsByte,
}
use holbertonschool_blockcha.Prelude.Host.{Host, little, big}
use holbertonschool_blockcha.Llist.{Llist, run_each, Comparison, greater}
use holbertonschool_blockcha.Memory.{LlistMemory, free, destroy_each}
use holbertonschool_blockcha.Crypto.{Openssl}
use holbertonschool_blockcha.Crypto.Files.{Disk}

abbrev pub insert : {A : Type 0} → (A → A → Comparison) → A → List A → List A
insert cmp x [] = x ∷ []
insert cmp x (y ∷ l) = elim (cmp x y) [ greater ↦ y ∷ insert cmp x l | _ ↦ x ∷ y ∷ l ]

abbrev pub sorted : {A : Type 0} → (A → A → Comparison) → List A → List A
sorted cmp [] = []
sorted cmp (x ∷ l) = insert cmp x (sorted cmp l)

instance abbrev pub plain_lists : Llist
plain_lists = record {
  size = length;
  get_node_at = get_elem?;
  get_head = λ l. get_elem? l 0;
  get_tail = get_last?;
  add_front = λ l x. x ∷ l;
  add_rear = λ l x. l ++ x ∷ [];
  remove_node = λ l p. remove_first p l;
  for_each = run_each;
  sort = λ l cmp. some (sorted cmp l);
  size_eq = λ l. refl;
  get_node_at_eq = λ l i. refl;
  get_head_eq = λ l. refl;
  get_tail_eq = λ l. refl;
  add_front_eq = λ l x. refl;
  add_rear_eq = λ l x. refl;
  remove_node_eq = λ l p. refl;
  for_each_eq = λ f l s. refl;
}

instance abbrev pub little_host : Host
little_host = record { endian = little }

abbrev pub big_host : Host
big_host = record { endian = big }

unfoldable pub checksum : List ℕ → List ℕ
unfolding le_bytes of_le_bytes
checksum s = le_bytes 32 (of_le_bytes s * 257 + length s)

pub checksum-IsArray : (c d : List ℕ) → some (checksum c) ≡ some d → IsArray 32 d
unfolding checksum
checksum-IsArray c d h =
    let n = of_le_bytes c * 257 + length c in
    subst (λ t. IsArray 32 t) (some-injective (checksum c) d h)
      (le_bytes-IsByte 32 n, length-le_bytes 32 n)

unfoldable pub toy_sign : ℕ → List ℕ → List ℕ
unfolding le_bytes
toy_sign key msg = le_bytes 8 key ++ take 8 msg

pub length-point : (p : ℕ) → length (4 ∷ le_bytes 64 p) ≤ 65
length-point p = omega (arith, length-le_bytes 64 p)

pub toy_sign_max : (k : ℕ) (m s : List ℕ) → some (toy_sign k m) ≡ some s → length s ≤ 72
unfolding toy_sign
toy_sign_max k m s h =
    subst (λ t. length t ≤ 72) (some-injective (toy_sign k m) s h)
      (omega (arith, length-append (le_bytes 8 k) (take 8 m), length-le_bytes 8 k, length-take 8 m))

pub toy_written :
    (k : ℕ) (t : List ℕ) → ◌≡◌ {A = Bool × List ℕ} (true, k ∷ []) (true, t) → get_elem? t 0 ≡ some k
toy_written k t h = rw (← ap (λ p. p.1) h)

abbrev pub empty_disk : Disk
empty_disk = record {
  exists = λ path. false;
  file_at = λ path. none;
  can_make = λ path. true;
  can_open = λ path. true;
}

instance abbrev pub toy_ssl : Openssl
toy_ssl = record {
  EcKey = ℕ;
  Group = Unit {0};
  Point = ℕ;
  Sha256Ctx = List ℕ;
  sha256_init = some [];
  sha256_update = λ c s. some (c ++ s);
  sha256_final = λ c. some (checksum c);
  group_new = some tt;
  key_new = some 0;
  key_new_by_curve = some 0;
  key_set_group = λ k g. some k;
  key_generate = λ entropy k. some entropy;
  key_check = λ k. true;
  key_group = λ k. some tt;
  key_public = λ k. some k;
  key_set_public = λ k p. some p;
  point_new = λ g. some 0;
  point_to_oct = λ g p. 4 ∷ le_bytes 64 p;
  point_of_oct = λ g p octets. some (of_le_bytes (drop 1 octets));
  ecdsa_sign = λ k m. some (toy_sign k m);
  ecdsa_verify = λ k m s. mem_eq 16 s (toy_sign k m);
  pem_write_private = λ k. (true, k ∷ []);
  pem_write_public = λ k. (true, k ∷ []);
  pem_read_public = λ o t. get_elem? t 0;
  pem_read_private = λ o t. get_elem? t 0;
  pem_read_public_written = λ k t h. (k, toy_written k t h);
  pem_read_private_written = λ k o t h. toy_written k t h;
  sha256_final_array = checksum-IsArray;
  point_to_oct_max = λ g p. length-point p;
  ecdsa_sign_max = toy_sign_max;
}

instance abbrev pub plain_memory : LlistMemory
plain_memory = record {
  destroy = λ l d live. elim l [
    | none ↦ ret live
    | some l' ↦ (destroy_each d l'.nodes live >>= free l'.address)
  ];
  destroy_null = λ d live. refl;
  destroy_some = λ l d live. refl;
}
