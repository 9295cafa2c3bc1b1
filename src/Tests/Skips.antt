-- ===== src/Tests/Skips.antt =====
-- Runs of the skip list of include/common/skipList.h with string keys.
use kvcache_raft.Common.{
  ℕ, ◌≡◌, ◌≢◌, refl, String, List, [], ◌∷◌, Option, some, Outcome, ok, false, get_elem?, ◌==◌,
  if◌then◌else◌, ◌>>=◌,
}
use kvcache_raft.SkipList.Types.{
  SkipList, Node, new_skip_list, forward_at, key_at, value_at, set_forward,
}
use kvcache_raft.SkipList.Ops.{
  get_random_level, link_new, unlink, lower_level, raise_update, insert_at, delete_at, dump_from,
  dump_file, advance, find_path, find, has_key, search_element, insert_element, delete_element,
  insert_set_element, load_file, destroy,
}
use kvcache_raft.SkipList.Rep.{entries}
use kvcache_raft.SkipList.AsMap.{
  Represents, new_skip_list-Represents, search_element-Represents, dump_file-Represents,
  insert_element-insert, delete_element-remove,
}
use kvcache_raft.SkipList.Cells.{Cell}
use kvcache_raft.SkipList.Destroy.{Freed, destroy-Freed}
use kvcache_raft.SkipList.Load.{load_file_keys}
use kvcache_raft.SkipList.Strings.{string_order}
use kvcache_raft.SkipList.Store.{search_element-insert_set_element, Store, put_pair}

-- No random level is above 2: the first draw gives level 2, the others level 1.
abbrev draws : ℕ → ℕ
draws n = if n == 0 then 1 else 0

abbrev fresh_list : SkipList String String
fresh_list = new_skip_list "" "" 6 draws

fresh_list-Represents : Represents string_order fresh_list []
fresh_list-Represents = new_skip_list-Represents string_order "" "" 6 draws

-- Three elements, put in out of order.
run : Outcome (SkipList String String)
run = insert_set_element string_order "b" "2" fresh_list >>= λ s.
    insert_set_element string_order "c" "3" s >>= λ t. insert_set_element string_order "a" "1" t

run_dump : (run >>= dump_file) ≡ ok (("a", "1") ∷ (("b", "2") ∷ (("c", "3") ∷ [])))
unfolding run insert_set_element search_element find find_path advance has_key forward_at key_at
    value_at insert_element insert_at raise_update link_new set_forward delete_element delete_at
    unlink lower_level get_random_level dump_file dump_from new_skip_list
run_dump = refl

run_replaced :
    (run >>= λ s. insert_set_element string_order "b" "5" s >>= λ t.
    delete_element string_order "a" t >>= dump_file)
    ≡ ok (("b", "5") ∷ (("c", "3") ∷ []))
unfolding run insert_set_element search_element find find_path advance has_key forward_at key_at
    value_at insert_element insert_at raise_update link_new set_forward delete_element delete_at
    unlink lower_level get_random_level dump_file dump_from new_skip_list
run_replaced = refl

abbrev none_yet : Store
none_yet = record { skip_list = fresh_list; pairs = []; well_formed = fresh_list-Represents }

abbrev two : Store
two = put_pair "a" "1" (put_pair "b" "2" none_yet)

search_element-Represents_example : search_element string_order "b" two.skip_list ≡ ok (some "2")
search_element-Represents_example =
    search_element-Represents string_order "b" two.skip_list two.pairs two.well_formed

insert_element-insert_example :
    (t : SkipList String String) × (insert_element string_order "aa" "7" two.skip_list
      ≡ ok (t, false))
    × Represents string_order t (("a", "1") ∷ (("aa", "7") ∷ (("b", "2") ∷ [])))
insert_element-insert_example =
    insert_element-insert string_order "aa" "7" two.skip_list two.pairs two.well_formed

delete_element-remove_example :
    (t : SkipList String String) × (delete_element string_order "a" two.skip_list ≡ ok t)
    × Represents string_order t (("b", "2") ∷ [])
delete_element-remove_example =
    delete_element-remove string_order "a" two.skip_list two.pairs two.well_formed

search_element-insert_set_element_example :
    (t : SkipList String String) × (insert_set_element string_order "a" "9" two.skip_list ≡ ok t)
    × Represents string_order t (("a", "9") ∷ (("b", "2") ∷ []))
    × (search_element string_order "a" t ≡ ok (some "9"))
    × ((other : String)
        → "a" ≢ other
        → search_element string_order other t ≡ search_element string_order other two.skip_list)
search_element-insert_set_element_example =
    search_element-insert_set_element string_order "a" "9" two.skip_list two.pairs two.well_formed

dump_file-Represents_example : dump_file two.skip_list ≡ ok (("a", "1") ∷ (("b", "2") ∷ []))
dump_file-Represents_example =
    dump_file-Represents string_order two.skip_list two.pairs two.well_formed

-- The keys of `two`.
load_file_keys_example :
    (t : SkipList String String) × (load_file string_order ("a" ∷ ("b" ∷ [])) fresh_list ≡ ok t)
    × ((i : ℕ) (key : String)
        → get_elem? ("a" ∷ ("b" ∷ [])) i ≡ some key
        → search_element string_order key t ≡ ok (some key))
load_file_keys_example =
    load_file_keys string_order ("a" ∷ ("b" ∷ [])) fresh_list fresh_list-Represents

destroy-Freed_example :
    (h : Cell String String) × (cs : List (Cell String String)) × (entries cs
      ≡ ("a", "1") ∷ (("b", "2") ∷ []))
    × (m : ℕ → Option (Node String String)) × (destroy two.skip_list
        ≡ ok (record two.skip_list { nodes = m }))
    × Freed two.skip_list m (h ∷ cs)
unfolding Represents
destroy-Freed_example =
    let (h, cs, r, e) = two.well_formed in
    let (m, d, f) = destroy-Freed string_order two.skip_list h cs r in (h, cs, e, m, d, f)
