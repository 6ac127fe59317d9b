-- ===== src/Huffman/Tree.antt =====
-- src/huffman.c: the tree that huffman_encode makes of a text. It is always made, and each byte of
-- the text has a leaf in it.
use microdc.Prelude.{
  ℕ, zero, suc, ◌+◌, ◌%◌, ◌^◌, ◌==◌, ltb, max, ◌<◌, ◌≤◌, ◌≡◌, refl, ◌∙◌, arith, Bool, true, false,
  ◌||◌, some, List, [], ◌∷◌, length, ==_iff, Bool-cases, inl, inr, if◌then◌else◌,
}
use microdc.Prelude.Text.{Bytes}
use microdc.PtrV.Order.{insert}
use microdc.Huffman.Encode.{
  EncodeNode, leaf, branch, node_count, before, count, range, add_leaves, join_nodes, first,
  huffman_tree,
}

-- Is there a leaf for the byte?
unfoldable pub member : ℕ → EncodeNode → Bool
member c (leaf n value) = value == c
member c (branch n left right) = member c left || member c right

-- The longest code.
unfoldable pub depth : EncodeNode → ℕ
depth (leaf n value) = 0
depth (branch n left right) = suc (max (depth left) (depth right))

in_forest : ℕ → List EncodeNode → Bool
in_forest c [] = false
in_forest c (a ∷ tree) = member c a || in_forest c tree

in_forest-insert :
    (c : ℕ) (e : EncodeNode) (tree : List EncodeNode)
    → in_forest c (insert before e tree) ≡ (member c e || in_forest c tree)
unfolding in_forest insert
in_forest-insert c e [] = refl
in_forest-insert c e (a ∷ tree) = ground (arith, in_forest-insert c e tree)

length-insert :
    (e : EncodeNode) (tree : List EncodeNode) → length (insert before e tree) ≡ suc (length tree)
unfolding insert
length-insert e [] = refl
length-insert e (a ∷ tree) = ground (arith, length-insert e tree)

-- Joining two nodes keeps the leaves, and in the end one node is left.
join_nodes_lem :
    (fuel : ℕ) (tree : List EncodeNode)
    → 0 < length tree
    → length tree ≤ fuel
    → (root : EncodeNode) × (first (join_nodes fuel tree) ≡ some root)
      × ((c : ℕ) → in_forest c tree ≡ true → member c root ≡ true)
unfolding join_nodes in_forest
join_nodes_lem fuel [] h g = absurd (omega arith)
join_nodes_lem zero (a ∷ tree) h g = absurd (omega arith)
join_nodes_lem (suc fuel) (a ∷ []) h g = (a, refl, λ c e. ground arith)
join_nodes_lem (suc fuel) (a ∷ b ∷ tree) h g =
    let joined = branch ((node_count a + node_count b) % 2 ^ 32) a b in
    let len = length-insert joined tree in
    let (root, found, kept) =
      join_nodes_lem fuel (insert before joined tree) (omega (arith, len)) (omega (arith, len)) in
    (root, found, λ c e. kept c (in_forest-insert c joined tree ∙ unfold member in ground arith))

added :
    (s : Bytes) (cs : List ℕ) (tree : List EncodeNode) (c : ℕ)
    → in_forest c tree ≡ true
    → in_forest c (add_leaves s cs tree) ≡ true
unfolding add_leaves
added s [] tree c e = e
added s (d ∷ cs) tree c e = elim (Bool-cases (ltb 0 (count d s))) [
  | inl more ↦
      rw more (added s cs _ c (in_forest-insert c (leaf (count d s) d) tree ∙ ground arith))
  | inr none_there ↦ rw none_there (added s cs tree c e)
]

own_leaf :
    (s : Bytes) (k c : ℕ) (tree : List EncodeNode)
    → k ≡ c
    → 0 < count c s
    → in_forest c (if ltb 0 (count k s) then insert before (leaf (count k s) k) tree else tree)
      ≡ true
unfolding member
own_leaf s k c tree e h = ground (arith, in_forest-insert c (leaf (count k s) k) tree)

add_leaves_lem :
    (s : Bytes) (n k : ℕ) (tree : List EncodeNode) (c : ℕ)
    → k ≤ c
    → c < k + n
    → 0 < count c s
    → in_forest c (add_leaves s (range k n) tree) ≡ true
unfolding add_leaves range
add_leaves_lem s zero k tree c lo hi h = absurd (omega arith)
add_leaves_lem s (suc n) k tree c lo hi h = elim (Bool-cases (k == c)) [
  | inl here ↦ added s (range (k + 1) n) _ c (own_leaf s k c tree ((==_iff k c).0 here) h)
  | inr there ↦ add_leaves_lem s n (k + 1) _ c (ground arith) (omega arith) h
]

not_empty : (c : ℕ) (tree : List EncodeNode) → in_forest c tree ≡ true → 0 < length tree
unfolding in_forest
not_empty c [] e = ground arith
not_empty c (a ∷ tree) e = omega arith

count_self : (c : ℕ) (s : Bytes) → 0 < count c (c ∷ s)
unfolding count
count_self c s = ground arith

-- The tree of a text that is not empty and begins with a byte is always made, and each byte below
-- 256 that occurs in the text has a leaf in it.
pub huffman_tree_total :
    (b : ℕ) (s : Bytes)
    → b < 256
    → (root : EncodeNode) × (huffman_tree (b ∷ s) ≡ some root)
      × ((c : ℕ) → c < 256 → 0 < count c (b ∷ s) → member c root ≡ true)
unfolding huffman_tree
huffman_tree_total b s h =
    let text = b ∷ s in
    let tree = add_leaves text (range 0 256) [] in
    let there : (c : ℕ) → c < 256 → 0 < count c text → in_forest c tree ≡ true =
      λ c small occurs. add_leaves_lem text 256 0 [] c (omega arith) (omega arith) occurs in
    let (root, found, kept) =
      join_nodes_lem (length tree) tree (not_empty b tree (there b h (count_self b s)))
        (omega arith) in
    (root, found, λ c small occurs. kept c (there c small occurs))
