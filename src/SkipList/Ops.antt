-- ===== src/SkipList/Ops.antt =====
-- include/common/skipList.h: the operations. The loops over pointers run on fuel, one more than the
-- number of elements.
use kvcache_raft.Common.{
  ℕ, zero, suc, ◌+◌, ◌-◌, List, [], ◌∷◌, ◌++◌, Option, none, some, Bool, true, false, ltb, ◌==◌,
  if◌then◌else◌, get_elem?, take, replicate, Outcome, ok, fault, out_of_fuel, in_bounds, ◌>>=◌,
}
use kvcache_raft.SkipList.Order.{Order}
use kvcache_raft.SkipList.Types.{
  SkipList, new_node, forward_at, key_at, value_at, poke, set_forward,
}

-- The pointer is to the node at `c`.
abbrev pub points_to : Option ℕ → ℕ → Bool
points_to none c = false
points_to (some b) c = b == c

-- `get_random_level`, when `rand()` is odd `odd` times before it is even.
unfoldable pub get_random_level : ℕ → ℕ → ℕ
get_random_level max_level odd = let k = odd + 1 in if ltb k max_level then k else max_level

module _ {K V : Type 0} where
  -- The second loop of `insert_element`, from level `i` up: the new node at `n` goes behind the
  -- nodes of `update`.
  unfoldable pub link_new : SkipList K V → ℕ → ℕ → List ℕ → Outcome (SkipList K V)
  link_new s n i [] = ok s
  link_new s n i (u ∷ us) = forward_at s i u >>= λ p.
      set_forward s i n p >>= λ t. set_forward t i u (some n) >>= λ w. link_new w n (i + 1) us

  -- The loop of `delete_element` that takes the node at `c` out, with its `break`.
  unfoldable pub unlink : SkipList K V → ℕ → ℕ → List ℕ → Outcome (SkipList K V)
  unlink s c i [] = ok s
  unlink s c i (u ∷ us) = forward_at s i u >>= λ p.
      let rest = forward_at s i c >>= λ q. set_forward s i u q >>= λ t. unlink t c (i + 1) us in
      if points_to p c then rest else ok s

  -- The levels that have no elements are removed.
  unfoldable pub lower_level : SkipList K V → ℕ → Outcome ℕ
  lower_level s zero = ok 0
  lower_level s (suc level) = forward_at s (suc level) s.header >>= λ p. elim p [
    | none ↦ lower_level s level
    | some a ↦ ok (suc level)
  ]

  -- `update`, up to the level of the new node.
  unfoldable pub raise_update : SkipList K V → ℕ → List ℕ → List ℕ
  raise_update s level us = take (suc level) (us ++ replicate (level - s.skip_list_level) s.header)

  -- The part of `insert_element` that inserts, with the level of the new node.
  unfoldable pub insert_at : K → V → ℕ → List ℕ → SkipList K V → Outcome (SkipList K V)
  insert_at key value level us s =
      link_new
        (record s {
          skip_list_level = if ltb s.skip_list_level level then level else s.skip_list_level;
          element_count = s.element_count + 1;
          nodes = poke s.nodes s.next_address (some (new_node key value level));
          next_address = s.next_address + 1;
          drawn = s.drawn + 1;
        })
        s.next_address 0 (raise_update s level us)

  -- The part of `delete_element` that takes the node at `c` out and frees it.
  unfoldable pub delete_at : ℕ → List ℕ → SkipList K V → Outcome (SkipList K V)
  delete_at c us s = unlink s c 0 us >>= λ t. lower_level t t.skip_list_level >>= λ level.
      ok (record t {
        skip_list_level = level;
        nodes = poke t.nodes c none;
        element_count = t.element_count - 1;
      })

  -- The walk of `dump_file` along level 0.
  unfoldable pub dump_from : ℕ → SkipList K V → Option ℕ → Outcome (List (K × V))
  dump_from zero s p = fault out_of_fuel
  dump_from (suc f) s none = ok []
  dump_from (suc f) s (some a) = key_at s a >>= λ k.
      value_at s a >>= λ v. forward_at s 0 a >>= λ p. dump_from f s p >>= λ rest. ok ((k, v) ∷ rest)

  -- `dump_file`: the keys and values that go into the archive.
  unfoldable pub dump_file : SkipList K V → Outcome (List (K × V))
  dump_file s = forward_at s 0 s.header >>= λ p. dump_from (suc s.element_count) s p

  -- `delete`: a node that is not there, or no more, cannot be freed.
  unfoldable pub free_node : SkipList K V → ℕ → Outcome (SkipList K V)
  free_node s a = in_bounds (s.nodes a) >>= λ n. ok (record s { nodes = poke s.nodes a none })

  -- `clear`
  unfoldable pub clear : ℕ → SkipList K V → ℕ → Outcome (SkipList K V)
  clear zero s a = fault out_of_fuel
  clear (suc f) s a = forward_at s 0 a >>= λ p.
      (elim p [ none ↦ ok s | some b ↦ clear f s b ]) >>= λ t. free_node t a

  -- `SkipList::~SkipList`
  unfoldable pub destroy : SkipList K V → Outcome (SkipList K V)
  destroy s = forward_at s 0 s.header >>= λ p.
      (elim p [ none ↦ ok s | some b ↦ clear (suc s.element_count) s b ]) >>= λ t.
      free_node t s.header

  module _ (ord : Order K) where
    -- The inner loop of the search, at level `i` from the node at `a`.
    unfoldable pub advance : ℕ → SkipList K V → ℕ → K → ℕ → Outcome ℕ
    advance zero s i key a = fault out_of_fuel
    advance (suc f) s i key a = forward_at s i a >>= λ p. elim p [
      | none ↦ ok a
      | some b ↦
          key_at s b >>= λ k. let rest = advance f s i key b in if ord.lt k key then rest else ok a
    ]

    -- The outer loop, from level `i` down: `update[0]`, ..., `update[i]`.
    unfoldable pub find_path : ℕ → SkipList K V → K → ℕ → ℕ → Outcome (List ℕ)
    find_path f s key zero a = advance f s 0 key a >>= λ b. ok (b ∷ [])
    find_path f s key (suc i) a =
        advance f s (suc i) key a >>= λ b. find_path f s key i b >>= λ us. ok (us ++ b ∷ [])

    -- `update`, and `current->forward[0]` after the loops.
    unfoldable pub find : SkipList K V → K → Outcome (List ℕ × Option ℕ)
    find s key = find_path (suc s.element_count) s key s.skip_list_level s.header >>= λ us.
        in_bounds (get_elem? us 0) >>= λ u. forward_at s 0 u >>= λ p. ok (us, p)

    -- `current != NULL && current->get_key() == key`
    unfoldable pub has_key : SkipList K V → K → Option ℕ → Outcome Bool
    has_key s key none = ok false
    has_key s key (some a) = key_at s a >>= λ k. ok (ord.eq k key)

    -- `search_element`: the value, if the key is there.
    unfoldable pub search_element : K → SkipList K V → Outcome (Option V)
    search_element key s = find s key >>= λ x. has_key s key x.1 >>= λ found. elim x.1 [
      | none ↦ ok none
      | some a ↦ if found then (value_at s a >>= λ v. ok (some v)) else ok none
    ]

    -- `insert_element`: whether the key was there, in which case nothing is inserted.
    unfoldable pub insert_element : K → V → SkipList K V → Outcome (SkipList K V × Bool)
    insert_element key value s = find s key >>= λ x. has_key s key x.1 >>= λ found.
        if found
        then ok (s, true)
        else (insert_at key value (get_random_level s.max_level (s.draws s.drawn)) x.0 s >>= λ t.
            ok (t, false))

    -- `delete_element`
    unfoldable pub delete_element : K → SkipList K V → Outcome (SkipList K V)
    delete_element key s = find s key >>= λ x. has_key s key x.1 >>= λ found. elim x.1 [
      | none ↦ ok s
      | some a ↦ if found then delete_at a x.0 s else ok s
    ]

    -- `insert_set_element`
    unfoldable pub insert_set_element : K → V → SkipList K V → Outcome (SkipList K V)
    insert_set_element key value s = search_element key s >>= λ old.
        (elim old [ none ↦ ok s | some v ↦ delete_element key s ]) >>= λ t.
        insert_element key value t >>= λ x. ok x.0

-- `load_file` with the keys of the archive: each is inserted as the value, too.
unfoldable pub load_file : {K : Type 0} → Order K → List K → SkipList K K → Outcome (SkipList K K)
load_file ord [] s = ok s
load_file ord (k ∷ ks) s = insert_element ord k k s >>= λ x. load_file ord ks x.0
