-- ===== src/SkipList/Types.antt =====
-- include/common/skipList.h: the nodes, the memory they lie in, and the list's own fields.
use kvcache_raft.Common.{
  ℕ, suc, List, Option, none, some, ◌==◌, if◌then◌else◌, get_elem?, set, replicate, Outcome, ok,
  in_bounds, ◌>>=◌,
}

-- `Node`: `forward` has `node_level + 1` pointers, `none` for NULL.
pub record Node (K V : Type 0) : Type 0 where
  pub key : K
  pub value : V
  pub node_level : ℕ
  pub forward : List (Option ℕ)

-- `SkipList`, with the memory of its nodes: a node's address is a number, and an address without a
-- node has not been handed out or has been freed. `draws` are the random levels that will be drawn.
pub record SkipList (K V : Type 0) : Type 0 where
  pub max_level : ℕ
  pub skip_list_level : ℕ
  pub header : ℕ
  pub element_count : ℕ
  pub nodes : ℕ → Option (Node K V)
  pub next_address : ℕ
  pub draws : ℕ → ℕ
  pub drawn : ℕ

module _ {K V : Type 0} where
  -- `Node::Node`
  abbrev pub new_node : K → V → ℕ → Node K V
  new_node k v level = record {
    key = k;
    value = v;
    node_level = level;
    forward = replicate (suc level) none;
  }

  -- `a->forward[i]`
  unfoldable pub forward_at : SkipList K V → ℕ → ℕ → Outcome (Option ℕ)
  forward_at s i a = in_bounds (s.nodes a) >>= λ n. in_bounds (get_elem? n.forward i)

  unfoldable pub key_at : SkipList K V → ℕ → Outcome K
  key_at s a = in_bounds (s.nodes a) >>= λ n. ok n.key

  unfoldable pub value_at : SkipList K V → ℕ → Outcome V
  value_at s a = in_bounds (s.nodes a) >>= λ n. ok n.value

  -- The memory with another content at one address.
  abbrev pub poke : (ℕ → Option (Node K V)) → ℕ → Option (Node K V) → ℕ → Option (Node K V)
  poke f a n b = if a == b then n else f b

  -- `a->forward[i] = p`
  unfoldable pub set_forward : SkipList K V → ℕ → ℕ → Option ℕ → Outcome (SkipList K V)
  set_forward s i a p = in_bounds (s.nodes a) >>= λ n. in_bounds (get_elem? n.forward i) >>= λ old.
      ok (record s { nodes = poke s.nodes a (some (record n { forward = set n.forward i p })) })

  -- `SkipList::SkipList`; `k` and `v` are the default key and value.
  unfoldable pub new_skip_list : K → V → ℕ → (ℕ → ℕ) → SkipList K V
  new_skip_list k v max_level draws = record {
    max_level = max_level;
    skip_list_level = 0;
    header = 0;
    element_count = 0;
    nodes = poke (λ a. none) 0 (some (new_node k v max_level));
    next_address = 1;
    draws = draws;
    drawn = 0;
  }
