-- ===== src/Memory/Freed.antt =====
-- Chains of `free` give each address back once.
use holbertonschool_blockcha.Prelude.{
  ℕ, ◌≡◌, ◌∙◌, refl, ◌==◌, if◌then◌else◌, Bool, true, false, Option, none, some, List, [], ◌∷◌,
  ◌++◌, All, All-append, Bool-cases, inl, inr, if_same, Run, ret, ◌>>=◌,
}
use holbertonschool_blockcha.Memory.{Live, forget, free, ListAt, destroy_each, LlistMemory}

abbrev pub listed : ℕ → List ℕ → Bool
listed a [] = false
listed a (p ∷ ps) = if a == p then true else listed a ps

-- What is left when the addresses are given back.
unfoldable pub without : List ℕ → Live → Live
without [] live = live
without (p ∷ ps) live = without ps (forget p live)

abbrev pub AreLive : List ℕ → Live → Type 0
AreLive ps live = All (λ p. live p ≡ true) ps

-- No address stands twice.
abbrev pub AreApart : List ℕ → Type 0
AreApart [] = Unit
AreApart (p ∷ ps) = All (λ q. (q == p) ≡ false) ps × AreApart ps

-- The command gives back exactly these addresses, if they are allocated and differ.
abbrev pub Frees : (Live → Run Live) → List ℕ → Type 0
Frees m ps = (live : Live) → AreApart ps → AreLive ps live → m live ≡ ret (without ps live)

forget-AreLive :
    (p : ℕ) (ps : List ℕ) (live : Live)
    → All (λ q. (q == p) ≡ false) ps
    → AreLive ps live
    → AreLive ps (forget p live)
forget-AreLive p [] live d h = tt
forget-AreLive p (q ∷ ps) live (dq, ds) (hq, hs) = (rw dq hq, forget-AreLive p ps live ds hs)

pub Frees-free : (p : ℕ) → Frees (free p) (p ∷ [])
unfolding free without
Frees-free p live d (h, _) = rw h

pub Frees-none : (m : Live → Run Live) → ((live : Live) → m live ≡ ret live) → Frees m []
unfolding without
Frees-none m h live d a = h live

AreApart-append :
    (ps qs : List ℕ)
    → AreApart (ps ++ qs)
    → AreApart ps × AreApart qs × All (λ p. All (λ q. (q == p) ≡ false) qs) ps
AreApart-append [] qs h = (tt, h, tt)
AreApart-append (p ∷ ps) qs (hp, hs) =
    let (a, b, c) = AreApart-append ps qs hs in
    let (own, others) = All-append (λ q. (q == p) ≡ false) ps qs hp in ((own, a), b, (others, c))

-- Addresses that differ from those given back stay allocated.
without-AreLive :
    (ps qs : List ℕ) (live : Live)
    → All (λ p. All (λ q. (q == p) ≡ false) qs) ps
    → AreLive qs live
    → AreLive qs (without ps live)
unfolding without
without-AreLive [] qs live d h = h
without-AreLive (p ∷ ps) qs live (dp, ds) h =
    without-AreLive ps qs (forget p live) ds (forget-AreLive p qs live dp h)

without-append :
    (ps qs : List ℕ) (live : Live) → without (ps ++ qs) live ≡ without qs (without ps live)
unfolding without
without-append [] qs live = refl
without-append (p ∷ ps) qs live = without-append ps qs (forget p live)

-- One after the other they give both lists back.
pub Frees-bind :
    (m k : Live → Run Live) (ps qs : List ℕ)
    → Frees m ps
    → Frees k qs
    → Frees (λ live. m live >>= k) (ps ++ qs)
Frees-bind m k ps qs hm hk live d h =
    let (own, others, across) = AreApart-append ps qs d in
    let (live_own, live_others) = All-append (λ p. live p ≡ true) ps qs h in
    rw (
      hm live own live_own,
      hk (without ps live) others (without-AreLive ps qs live across live_others),
      without-append ps qs live,
    )

unfoldable pub concat_of : {A : Type 0} → (A → List ℕ) → List A → List ℕ
concat_of owned [] = []
concat_of owned (x ∷ xs) = owned x ++ concat_of owned xs

Frees-destroy_each :
    {A : Type 0} (d : A → Live → Run Live) (owned : A → List ℕ) (xs : List A)
    → ((x : A) → Frees (d x) (owned x))
    → Frees (destroy_each d xs) (concat_of owned xs)
unfolding destroy_each concat_of without
Frees-destroy_each d owned [] h = Frees-none (destroy_each d []) (λ live. refl)
Frees-destroy_each d owned (x ∷ xs) h =
    Frees-bind (d x) (destroy_each d xs) (owned x) (concat_of owned xs) (h x)
      (Frees-destroy_each d owned xs h)

-- A list, with what its destructor gives back for each node.
abbrev pub list_owned : {A : Type 0} → (A → List ℕ) → Option (ListAt A) → List ℕ
list_owned owned none = []
list_owned owned (some l) = concat_of owned l.nodes ++ l.address ∷ []

module _ ⦃lm : LlistMemory⦄ where
  pub Frees-destroy :
      {A : Type 0} (d : A → Live → Run Live) (owned : A → List ℕ) (l : Option (ListAt A))
      → ((x : A) → Frees (d x) (owned x))
      → Frees (lm.destroy l d) (list_owned owned l)
  unfolding without
  Frees-destroy d owned none h live _ _ = lm.destroy_null d live
  Frees-destroy d owned (some l) h live apart allocated =
      lm.destroy_some l d live
      ∙ Frees-bind (destroy_each d l.nodes) (free l.address) (concat_of owned l.nodes)
          (l.address ∷ []) (Frees-destroy_each d owned l.nodes h) (Frees-free l.address) live apart
          allocated

-- An address is allocated afterwards if it was and was not given back.
pub without_lem :
    (ps : List ℕ) (live : Live) (a : ℕ)
    → without ps live a ≡ (if listed a ps then false else live a)
unfolding without
without_lem [] live a = refl
without_lem (p ∷ ps) live a = elim (Bool-cases (a == p)) [
  | inl same ↦ rw (without_lem ps (forget p live) a, same, if_same)
  | inr other ↦ rw (without_lem ps (forget p live) a, other)
]
