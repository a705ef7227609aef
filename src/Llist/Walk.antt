-- ===== src/Llist/Walk.antt =====
-- Loops `for (i = 0; i < llist_size(l); i++) { x = llist_get_node_at(l, i); ... }`: the nodes that
-- such a loop sees.
use holbertonschool_blockcha.Prelude.{
  ℕ, zero, suc, ◌+◌, ◌≤◌, ◌≡◌, none, some, List, [], ◌∷◌, length, get_elem?, drop, arith,
  drop_cases, inl, inr, ◌≢◌,
}
use holbertonschool_blockcha.Llist.{Llist}

get_elem?-out_of_range :
    {A : Type 0} (i : ℕ) (l : List A) {x : A} → length l ≤ i → get_elem? l i ≢ some x
get_elem?-out_of_range i [] h e = cc
get_elem?-out_of_range zero (y ∷ l) h e = elim h [ ]
get_elem?-out_of_range (suc i) (y ∷ l) h e = get_elem?-out_of_range i l (omega arith) e

module _ ⦃ll : Llist⦄ where
  -- The `n` rounds from `i` on. A NULL node, which a round in range never meets, is passed over.
  unfoldable pub nodes_from : {A : Type 0} → ℕ → ℕ → List A → List A
  nodes_from zero i l = []
  nodes_from (suc n) i l =
      let rest = nodes_from n (suc i) l in
      elim (ll.get_node_at l i) [ none ↦ rest | some x ↦ x ∷ rest ]

  unfoldable pub nodes_at : {A : Type 0} → List A → List A
  nodes_at l = nodes_from (ll.size l) 0 l

  nodes_from-drop :
      {A : Type 0} (n i : ℕ) (l : List A) → n + i ≡ length l → nodes_from n i l ≡ drop i l
  unfolding nodes_from
  nodes_from-drop zero i l h = elim (drop_cases i l) [
    | inl (_, nothing, _) ↦ rw nothing
    | inr (x, at, _) ↦ absurd (get_elem?-out_of_range i l (omega arith) at)
  ]
  nodes_from-drop (suc n) i l h = elim (drop_cases i l) [
    | inl (_, _, past) ↦ absurd (omega arith)
    | inr (x, at, split) ↦
        rw (ll.get_node_at_eq, nodes_from, at, split, nodes_from-drop n (suc i) l (omega arith))
  ]

  -- The loop sees the nodes of the list, each once and in order.
  pub nodes_at_lem : {A : Type 0} (l : List A) → nodes_at l ≡ l
  unfolding nodes_at
  nodes_at_lem l = rw ll.size_eq (nodes_from-drop (length l) 0 l (omega arith))
