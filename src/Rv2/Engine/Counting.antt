-- ===== src/Rv2/Engine/Counting.antt =====
-- rv_incr of c/ngx_http_rv2_module/ngx_http_rv2_module.c on the small configuration, with a memcached
-- of one counter.
use ngxmp.Base.{
  ℕ, zero, suc, ◌+◌, ◌-◌, ◌≡◌, refl, ap, ◌∙◌, true, false, Option, none, some, List, [], ◌∷◌, Bytes,
  codes, length, arith, get_elem?,
}
use mathlib.Core.Option.{some-injective}
use ngxmp.HashTable.{hash_find, chain_find, chain_walk}
use ngxmp.Rv2.{
  get_mcd, get_mcd_node, MemRc, mem_success, mem_notfound, mem_notstored, Call, call_add,
  call_increment,
}
use ngxmp.Util.Conf.{ok, name_of}
use ngxmp.Rv2.Declare.{find}
use ngxmp.Rv2.Compile.{by_index, Code, in_place, setter_command, make_var, with_get_handler}
use ngxmp.Rv2.Upstreams.{find_us}
use ngxmp.Rv2.Engine.{World, Machine, exec}
use ngxmp.Rv2.Engine.RoundTrip.{Reaches}
use ngxmp.Rv2.Engine.Increments.{Increments, Misses, Adds, incr-counts}
use ngxmp.Rv2.Engine.Sample.{
  key_of, variable_index, add_variable, v, main, store_var, non_empty, rc,
}

-- A number is written with as many strokes.
abbrev strokes : ℕ → Bytes
strokes zero = []
strokes (suc n) = b'|' ∷ strokes n

length-strokes : (n : ℕ) → length (strokes n) ≡ n
length-strokes zero = refl
length-strokes (suc n) = ap suc (length-strokes n)

abbrev perform : ℕ → Bytes → Call → Option ℕ → (MemRc × ℕ) × Option ℕ
perform c k (call_increment d) (some a) = ((mem_success, a + d), some (a + d))
perform c k (call_increment d) none = ((mem_notfound, 0), none)
perform c k (call_add t) none = ((mem_success, 0), some (length t))
perform c k f m = ((mem_notstored, 0), m)

abbrev world : World (List Bytes) (Option ℕ) ℕ
unfolding main
world = record {
  script_run = λ v t. some t;
  variable = λ v i. non_empty (get_elem? v i);
  store_var = store_var;
  atoi = λ t. some (length t);
  print_int = λ a b. strokes (a - b);
  hash_func = λ t k. length k;
  find_us = find_us key_of main;
  memcached_get = λ c k m. (mem_notfound, []);
  perform = perform;
  mc_zeroed = false;
}

abbrev machine : Machine (List Bytes) (Option ℕ)
machine = record { stack = []; vars = codes "key" ∷ [] ∷ [] ∷ []; mem = none }

reaches : Reaches world [] machine v (codes "7") 97 (codes "key") (codes "7")
unfolding world main find_us hash_find chain_find chain_walk get_mcd get_mcd_node
reaches = record { addr = codes "a"; node = refl; key = refl; value = refl }

abbrev number : Option ℕ → ℕ → Bytes → Option ℕ
number m c k = m

increments : Increments world 97 (codes "key") number
unfolding world
increments none a d h l = absurd (cc h)
increments (some b) a d h l =
    let q = some-injective b a h in
    (some (a + d), ap (λ z. ((mem_success, z + d), some (z + d))) q, refl)

misses : Misses world 97 (codes "key") number
unfolding world
misses none d h = (0, refl)
misses (some b) d h = absurd (cc h)

adds : Adds world 97 (codes "key") number
unfolding world
adds none a h l =
    (0, some (length (strokes (a - 0))), refl, ap some (length-strokes (a - 0) ∙ omega arith))
adds (some b) a h l = absurd (cc h)

-- The counter is missing, and the default "NULL" has four bytes.
incr-counts_example :
    (cs : List Code) × (mem : Option ℕ) × (setter_command add_variable variable_index
        (v ∷ [])
        true
        (λ t. true)
        in_place
        in_place
        in_place
        (codes "rv_incr")
        (codes "$x" ∷ codes "$v" ∷ codes "7" ∷ codes "$rc" ∷ [])
      ≡ ok cs)
    × (exec world true [] cs machine
        ≡ some
            (record machine { vars = codes "key" ∷ strokes 5 ∷ codes "SUCCESS" ∷ []; mem = mem }))
    × (number mem 97 (codes "key") ≡ some 5)
unfolding world make_var main find name_of with_get_handler
incr-counts_example =
    incr-counts world [] machine v (codes "7") 97 (codes "key") (codes "7") reaches
      (1, by_index (some 1)) rc add_variable variable_index (v ∷ []) (λ t. true) (codes "x")
      (codes "v") (codes "rc") number 1 4 (codes "NULL") increments misses adds refl refl refl refl
      refl refl refl (omega arith)
