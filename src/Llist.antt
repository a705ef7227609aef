-- ===== src/Llist.antt =====
-- The linked lists of llist/, which the program only calls (llist/llist.h and its man pages; the
-- code is a binary). An `llist_t` stands for the sequence of its nodes, and each function is a
-- parameter with what its man page says of it.
pub mod Walk
use holbertonschool_blockcha.Prelude.{
  ℕ, zero, suc, ◌≡◌, ◌==◌, if◌then◌else◌, Bool, Option, none, some, List, [], ◌∷◌, ◌++◌, length,
  get_elem?, get_last?, remove_first,
}

-- What llist_for_each promises: `action` returns an int, the node as it left it and the state
-- behind `arg`; the loop stops at the first non-zero int.
unfoldable pub run_each : {A S : Type 0} → (A → S → ℕ × A × S) → List A → S → ℕ × List A × S
run_each action [] s = (0, [], s)
run_each action (x ∷ xs) s =
    let (r, x', s') = action x s in
    let rest = run_each action xs s' in
    if r == 0 then (rest.0, x' ∷ rest.1, rest.2) else (r, x' ∷ xs, s')

-- The sign of the int that a comparison returns.
pub data Comparison : Type 0 where
  less : Comparison
  equal : Comparison
  greater : Comparison

pub record Llist : Type 1 where
  pub size : {A : Type 0} → List A → ℕ
  pub get_node_at : {A : Type 0} → List A → ℕ → Option A
  pub get_head : {A : Type 0} → List A → Option A
  pub get_tail : {A : Type 0} → List A → Option A
  -- `llist_add_node` with ADD_NODE_FRONT and with ADD_NODE_REAR
  pub add_front : {A : Type 0} → List A → A → List A
  pub add_rear : {A : Type 0} → List A → A → List A
  pub remove_node : {A : Type 0} → List A → (A → Bool) → List A
  pub for_each : {A S : Type 0} → (A → S → ℕ × A × S) → List A → S → ℕ × List A × S
  -- `llist_sort` with the flags 0, of which its manual says nothing; none on failure
  pub sort : {A : Type 0} → List A → (A → A → Comparison) → Option (List A)
  pub size_eq : {A : Type 0} (l : List A) → size l ≡ length l
  pub get_node_at_eq : {A : Type 0} (l : List A) (i : ℕ) → get_node_at l i ≡ get_elem? l i
  pub get_head_eq : {A : Type 0} (l : List A) → get_head l ≡ get_elem? l 0
  pub get_tail_eq : {A : Type 0} (l : List A) → get_tail l ≡ get_last? l
  pub add_front_eq : {A : Type 0} (l : List A) (x : A) → add_front l x ≡ x ∷ l
  pub add_rear_eq : {A : Type 0} (l : List A) (x : A) → add_rear l x ≡ l ++ x ∷ []
  pub remove_node_eq : {A : Type 0} (l : List A) (p : A → Bool) → remove_node l p ≡ remove_first p l
  pub for_each_eq :
      {A S : Type 0} (f : A → S → ℕ × A × S) (l : List A) (s : S) → for_each f l s ≡ run_each f l s
