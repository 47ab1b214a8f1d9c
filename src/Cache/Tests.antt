-- ===== src/Cache/Tests.antt =====
-- Tests of src/cache on a small cache, and the theorems at it.
use spx.Prelude.{◌≡◌, refl, true, false, List, [], ◌∷◌, Str, str_discrete, ℕ_discrete, codes, arith}
use spx.Outcome.{returns, throws, fault, key_not_found, use_after_free, ◌>>=◌}
use spx.Cache.Store
use spx.Cache.Store.{Node, lookup}
use spx.Cache.Nodes.{total, addr_of}
use spx.Cache.Methods
use spx.Cache.Methods.{Cache, contains}
use spx.Cache.Spec
use spx.Cache.Spec.{View, view, entries, find, any_unused, total_size}
use spx.Cache.Invariant.{IsValid}
use spx.Cache.Refinement.{
  Refines, read-Refines, use_entry-Refines, get_entry-Refines, disuse_entry-Refines,
}
use spx.Cache.Space.{remove_least_recently_used_free, write-Refines, write_missing}
use spx.Cache.History.{run, serve, promise, AllAllowed, run-Refines}
use spx.Cache.History

abbrev page : Str
page = codes "page"

abbrev other : Str
other = codes "other"

-- A complete response that nobody reads, and one that is being written for one client.
abbrev idle_node : Node
idle_node = record {
  addr = 0;
  key = page;
  entry = record { buffer = 1 ∷ 2 ∷ []; completed = true; in_use = 0 };
}

abbrev busy_node : Node
busy_node = record {
  addr = 1;
  key = other;
  entry = record { buffer = 3 ∷ []; completed = false; in_use = 1 };
}

abbrev busy_cache : Cache
busy_cache = record {
  max_size = 4;
  current_size = 1;
  list = busy_node ∷ [];
  hash_table = (other, 1) ∷ [];
  next_addr = 2;
}

abbrev mixed_cache : Cache
mixed_cache = record {
  max_size = 4;
  current_size = 3;
  list = idle_node ∷ busy_node ∷ [];
  hash_table = (page, 0) ∷ (other, 1) ∷ [];
  next_addr = 2;
}

busy_cache-IsValid : IsValid busy_cache
unfolding lookup total addr_of
busy_cache-IsValid = record {
  distinct = (tt, tt, tt);
  indexed = λ k. refl;
  sized = refl;
  bounded = omega arith;
  word = omega arith;
  fresh = omega arith;
}

mixed_cache-IsValid : IsValid mixed_cache
unfolding lookup total addr_of
mixed_cache-IsValid = record {
  distinct = ((λ e. ground arith, tt), (λ e. omega arith, tt), (tt, tt, tt));
  indexed = λ k. refl;
  sized = refl;
  bounded = omega arith;
  word = omega arith;
  fresh = omega arith;
}

-- The methods with all that they call, for tests that compute.
computing : Unit {0}
unfolding Methods.contains Methods.make_most_recently_used Methods.get_entry Methods.update_entry
    Methods.use_entry Methods.read lookup Store.assign Store.find_node Store.erase_node
    Store.modify_node str_discrete ℕ_discrete
computing = tt

-- A read makes the entry the latest.
read_moves_to_back :
    Methods.read page 0 1 mixed_cache
    ≡ returns (1 ∷ []) (record mixed_cache {
      list = busy_node ∷ idle_node ∷ [];
      hash_table = (page, 0) ∷ (other, 1) ∷ [];
    })
unfolding computing
read_moves_to_back = refl

read-Refines_example :
    Refines (Methods.read page 0 1 mixed_cache) (Spec.read page 0 1 (view mixed_cache))
read-Refines_example = read-Refines mixed_cache page mixed_cache-IsValid 0 1

use_entry-Refines_example :
    Refines (Methods.use_entry page mixed_cache) (Spec.use_entry page (view mixed_cache))
use_entry-Refines_example = use_entry-Refines mixed_cache page mixed_cache-IsValid

get_entry-Refines_example :
    Refines
      ((Methods.get_entry other >>= Methods.load_entry) mixed_cache)
      (Spec.lookup_entry other (view mixed_cache))
get_entry-Refines_example = get_entry-Refines mixed_cache other mixed_cache-IsValid

-- The last user of an incomplete entry leaves.
disuse_entry-Refines_example :
    Refines (Methods.disuse_entry other mixed_cache) (Spec.disuse_entry other (view mixed_cache))
disuse_entry-Refines_example = disuse_entry-Refines mixed_cache other mixed_cache-IsValid

-- One byte fits, and fills the cache.
write-Refines_example :
    Refines
      (Methods.write other (9 ∷ []) mixed_cache)
      (Spec.write other (9 ∷ []) (view mixed_cache))
unfolding Methods.contains lookup str_discrete ℕ_discrete
write-Refines_example = write-Refines mixed_cache mixed_cache-IsValid other (9 ∷ []) refl

remove_least_recently_used_free_example :
    Methods.remove_least_recently_used mixed_cache ≡ fault use_after_free
unfolding any_unused
remove_least_recently_used_free_example =
    remove_least_recently_used_free mixed_cache mixed_cache-IsValid refl

write_missing_example :
    Methods.write page (9 ∷ []) busy_cache
    ≡ throws key_not_found (record busy_cache { current_size = 2 })
unfolding Methods.contains lookup str_discrete ℕ_discrete total_size
write_missing_example = write_missing busy_cache busy_cache-IsValid page (9 ∷ []) refl (omega arith)

abbrev session : List History.Request
session = History.write other (9 ∷ []) ∷ History.read other 0 2 ∷ History.disuse_entry other ∷ []

session-AllAllowed : AllAllowed session (view mixed_cache)
unfolding find str_discrete ℕ_discrete
session-AllAllowed = ((busy_node.entry, refl), λ bytes w e. (tt, λ b w' e'. (tt, λ b' w'' e''. tt)))

run-Refines_example :
    Refines (run serve session mixed_cache) (run promise session (view mixed_cache))
run-Refines_example = run-Refines session mixed_cache mixed_cache-IsValid session-AllAllowed
