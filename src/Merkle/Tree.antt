-- ===== src/Merkle/Tree.antt =====
-- The tree of crates/payment-rollup/src/merkle.rs: `Node`, `Branch` and `SparseMerkleTree`.
-- A method that mutates a node in place returns the new node.
use payment_rollup.Prelude.{
  ℕ, zero, suc, ◌+◌, ◌-◌, Option, none, some, List, [], ◌∷◌, ◌++◌, ◌==◌, if◌then◌else◌,
}
use payment_rollup.Bytes.{ascii, bytes_eq}
use payment_rollup.Crypto.{Primitives, sha256}
use payment_rollup.Account.{Address, Account, Digest, zeros32, encode}
use payment_rollup.Merkle.Path.{bit_at, common_prefix_len}

unfoldable pub empty_subtree : Digest
empty_subtree = zeros32

pub data Node : Type 0 where
  empty : Node
  leaf : Address → Account → Node
  -- the cached hash, and the two children
  branch : Digest → Node → Node → Node

pub data Slot : Type 0 where
  own : Slot
  neighbor : Address → Account → Slot

pub record MerkleProof : Type 0 where
  pub siblings : List Digest
  pub slot : Slot

module _ ⦃p : Primitives⦄ where
  unfoldable pub leaf_hash : Address → Account → Digest
  leaf_hash address account = sha256 (ascii "LEAF" ++ (address ++ encode account))

  unfoldable pub node_hash : Digest → Digest → Digest
  node_hash left right = sha256 (ascii "NODE" ++ (left ++ right))

  unfoldable pub hash : Node → Digest
  hash empty = empty_subtree
  hash (leaf address account) = leaf_hash address account
  hash (branch h left right) = h

  -- `Node::branch`
  unfoldable pub join : Node → Node → Node
  join left right = branch (node_hash (hash left) (hash right)) left right

  -- `Branch::rehash`
  unfoldable pub rehash : Node → Node
  rehash (branch h left right) = branch (node_hash (hash left) (hash right)) left right
  rehash node = node

  -- One round of the loop of `split`: a branch with one child.
  unfoldable pub lift : Address → ℕ → Node → Node
  unfolding join
  lift address level node = if bit_at address level == 0 then join node empty else join empty node

  -- The rounds `for level in (depth..depth + count).rev()`.
  unfoldable pub lift_loop : Address → ℕ → ℕ → Node → Node
  lift_loop address depth zero node = node
  lift_loop address depth (suc count) node =
      lift_loop address depth count (lift address (depth + count) node)

  unfoldable pub split : ℕ → Address → Account → Address → Account → Node
  unfolding join
  split depth a x b y =
      let split_depth = common_prefix_len a b in
      let node =
        if bit_at a split_depth == 0
        then join (leaf a x) (leaf b y)
        else join (leaf b y) (leaf a x) in
      lift_loop a depth (split_depth - depth) node

  unfoldable pub insert : Node → ℕ → Address → Account → Node
  unfolding rehash
  insert empty depth address account = leaf address account
  insert (leaf held held_account) depth address account =
      if bytes_eq held address
      then leaf held account
      else split depth held held_account address account
  insert (branch h left right) depth address account =
      let left' = rehash (branch h (insert left (depth + 1) address account) right) in
      let right' = rehash (branch h left (insert right (depth + 1) address account)) in
      if bit_at address depth == 0 then left' else right'

  unfoldable pub collapse : Node → Node
  collapse (branch h empty empty) = empty
  collapse (branch h (leaf a x) empty) = leaf a x
  collapse (branch h empty (leaf a x)) = leaf a x
  collapse node = node

  unfoldable pub remove : Node → ℕ → Address → Node
  unfolding rehash
  remove empty depth address = empty
  remove (leaf held account) depth address =
      if bytes_eq held address then empty else leaf held account
  remove (branch h left right) depth address =
      let left' = collapse (rehash (branch h (remove left (depth + 1) address) right)) in
      let right' = collapse (rehash (branch h left (remove right (depth + 1) address))) in
      if bit_at address depth == 0 then left' else right'

  -- The siblings pushed so far are handed in, as the vector that the source pushes to.
  unfoldable pub prove : Node → ℕ → Address → List Digest → List Digest × Slot
  prove empty depth address siblings = (siblings, own)
  prove (leaf held account) depth address siblings =
      (siblings, if bytes_eq held address then own else neighbor held account)
  prove (branch h left right) depth address siblings =
      let left' = prove left (depth + 1) address (siblings ++ hash right ∷ []) in
      let right' = prove right (depth + 1) address (siblings ++ hash left ∷ []) in
      if bit_at address depth == 0 then left' else right'

  -- `SparseMerkleTree` is its root node: `new` is `empty`.
  unfoldable pub root : Node → Digest
  root tree = hash tree

  unfoldable pub update : Node → Address → Option Account → Node
  update tree address (some account) = insert tree 0 address account
  update tree address none = remove tree 0 address

  unfoldable pub proof : Node → Address → MerkleProof
  proof tree address =
      let (siblings, slot) = prove tree 0 address [] in record { siblings = siblings; slot = slot }
