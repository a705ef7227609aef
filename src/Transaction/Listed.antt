-- ===== src/Transaction/Listed.antt =====
-- Membership, and what a search finds.
use holbertonschool_blockcha.Prelude.{
  ◌≡◌, refl, sym, Bool, true, false, All, remove_first, some, List, [], ◌∷◌, find?, Bool-cases, inl,
  inr,
}

pub data Elem {A : Type 0} (x : A) : List A → Type 0 where
  here : {y : A} {l : List A} → x ≡ y → Elem x (y ∷ l)
  there : {y : A} {l : List A} → Elem x l → Elem x (y ∷ l)

-- A search that some element passes finds one that does.
pub find?-Elem :
    {A : Type 0} (p : A → Bool) (x : A) (l : List A)
    → Elem x l
    → p x ≡ true
    → (v : A) × (find? p l ≡ some v) × Elem v l × (p v ≡ true)
find?-Elem p x [] m h = elim m [ ]
find?-Elem p x (y ∷ l) (here e) h = let hit : p y ≡ true = cc (h, e) in (y, rw hit, here refl, hit)
find?-Elem p x (y ∷ l) (there m) h = elim (Bool-cases (p y)) [
  | inl hit ↦ (y, rw hit, here refl, hit)
  | inr miss ↦ let (v, found, at, good) = find?-Elem p x l m h in (v, rw miss found, there at, good)
]

pub remove_first-All :
    {A : Type 0} (P : A → Type 0) (p : A → Bool) (l : List A) → All P l → All P (remove_first p l)
remove_first-All P p [] h = tt
remove_first-All P p (x ∷ l) (hx, hl) = elim (Bool-cases (p x)) [
  | inl hit ↦ rw (remove_first, hit) hl
  | inr miss ↦ rw (remove_first, miss) (hx, remove_first-All P p l hl)
]

pub Elem-remove_first :
    {A : Type 0} (p : A → Bool) (x : A) {l : List A}
    → p x ≡ false
    → Elem x l
    → Elem x (remove_first p l)
Elem-remove_first p x h (here {y} e) = elim (Bool-cases (p y)) [
  | inl hit ↦ let clash : p y ≡ false = cc (h, e) in cc (hit, clash)
  | inr miss ↦ rw miss (here e)
]
Elem-remove_first p x h (there {y} m) = elim (Bool-cases (p y)) [
  | inl hit ↦ rw hit m
  | inr miss ↦ rw miss (there (Elem-remove_first p x h m))
]

pub All-Elem : {A : Type 0} (P : A → Type 0) (l : List A) {x : A} → All P l → Elem x l → P x
All-Elem P [] h m = elim m [ ]
All-Elem P (y ∷ l) (hy, hl) (here e) = rw e hy
All-Elem P (y ∷ l) (hy, hl) (there m) = All-Elem P l hl m

pub All-listed : {A : Type 0} (P : A → Type 0) (l : List A) → ((x : A) → Elem x l → P x) → All P l
All-listed P [] h = tt
All-listed P (x ∷ l) h = (h x (here refl), All-listed P l (λ y m. h y (there m)))

-- What a search finds is listed, and passes.
pub found-Elem :
    {A : Type 0} (p : A → Bool) (l : List A) {v : A} → find? p l ≡ some v → Elem v l × (p v ≡ true)
found-Elem p [] h = cc
found-Elem p (y ∷ l) {v} h = elim (Bool-cases (p y)) [
  | inl hit ↦ let same : y ≡ v = cc (rw (find?, hit) at h) in (here (sym same), rw same at hit)
  | inr miss ↦ let (m, good) = found-Elem p l (rw (find?, miss) at h) in (there m, good)
]
