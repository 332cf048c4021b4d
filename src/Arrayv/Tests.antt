-- ===== src/Arrayv/Tests.antt =====
-- Array variables on concrete values.
use ngxmp.Base.{◌≡◌, ◌⊎◌, ◌<◌, refl, none, some, [], ◌∷◌, ◌++◌, Bytes, codes, arith, true}
use ngxmp.Util.Join.{Joined, finish}
use ngxmp.Util.JoinX.{
  Lines, array_join_x, step_of, items_size, dels_size, lines_size, append_item, append_del,
  join_line, join_lines, lines_count,
}
use ngxmp.Util.Append.{append_str}
use ngxmp.Util.Tokens.{str_to_array, push_tokens, next_tok}
use ngxmp.Arrayv.{
  Ctx, got, wild, av_ctx, push_end, get_head, get_tail, set_head, set_tail, set_all, set_str,
  list_up, list_down, list_all, cut_list, get_list,
}
use ngxmp.Arrayv.Deque.{
  Represents, represents, Taken, ctx_of, get_head_lem, get_tail_lem, set_tail_lem, set_head_lem,
  set_head-wild,
}
use ngxmp.Arrayv.Listing.{list_all_lem}
use ngxmp.Util.JoinX.Whole.{lines_text, Whole}
use ngxmp.Util.JoinX.Room.{array_join_x_lem}
use ngxmp.Arrayv.Printing.{get_list_lem, get_list-short}
use ngxmp.Arrayv.Sequence.{do_pop, do_shift, do_unshift, run_ctx, run_ctx-run_list}

abbrev a : Bytes
a = codes "a"

abbrev b : Bytes
b = codes "b"

-- `b` was shifted in before `a`, and `c` stands in `pop`.
abbrev three : Ctx
three = ctx_of [] (codes "c" ∷ []) [] (b ∷ a ∷ [])

abbrev comma : Lines
comma = record {
  step = 1;
  head = some (codes "[");
  tail = some (codes "]");
  lhead = some [];
  ltail = some [];
  ldel = some (codes ",");
  dels = some ([] ∷ []);
}

get_list-three : get_list true comma three ≡ got (codes "[a,b,c]") three
unfolding get_list list_all list_up list_down cut_list array_join_x step_of items_size dels_size
    lines_size append_item append_del join_line join_lines lines_count append_str finish
get_list-three = refl

set_str-whole :
    set_str true 5 b',' (av_ctx none) (codes "ab") ≡ some (ctx_of [] (codes "ab" ∷ []) [] [])
unfolding set_str str_to_array push_tokens next_tok set_all set_head push_end av_ctx
set_str-whole = refl

pop_one : Taken three (get_head three) (λ x rest. rest ++ x ∷ []) (a ∷ b ∷ codes "c" ∷ [])
pop_one =
    get_head_lem three (a ∷ b ∷ codes "c" ∷ []) (represents [] (codes "c" ∷ []) [] (b ∷ a ∷ []))

last_value : Taken three (get_tail three) ◌∷◌ (a ∷ b ∷ codes "c" ∷ [])
last_value =
    get_tail_lem three (a ∷ b ∷ codes "c" ∷ []) (represents [] (codes "c" ∷ []) [] (b ∷ a ∷ []))

tail_put :
    (ctx' : Ctx) × (set_tail three b ≡ some ctx') × Represents ctx' (b ∷ a ∷ b ∷ codes "c" ∷ [])
tail_put =
    set_tail_lem three (a ∷ b ∷ codes "c" ∷ []) b (represents [] (codes "c" ∷ []) [] (b ∷ a ∷ []))

set_head_lem_example :
    ((ctx' : Ctx) × (set_head three b ≡ some ctx') × Represents ctx' (a ∷ b ∷ codes "c" ∷ b ∷ []))
    ⊎ ((three.pop.size ≡ 0) × (0 < three.sft.size) × (1 < three.sft.start))
set_head_lem_example =
    set_head_lem three (a ∷ b ∷ codes "c" ∷ []) b (represents [] (codes "c" ∷ []) [] (b ∷ a ∷ []))

set_head-wild_example : set_head (ctx_of [] [] (a ∷ []) (b ∷ [])) a ≡ none
set_head-wild_example = set_head-wild (a ∷ []) [] b a (omega arith)

listed : list_all three ≡ some (a ∷ b ∷ codes "c" ∷ [])
listed =
    list_all_lem three (a ∷ b ∷ codes "c" ∷ []) (represents [] (codes "c" ∷ []) [] (b ∷ a ∷ []))

three_accesses :
    run_ctx (do_unshift b ∷ do_pop ∷ do_shift ∷ []) three ≡ some (some (codes "c") ∷ some b ∷ [])
three_accesses =
    run_ctx-run_list (do_unshift b ∷ do_pop ∷ do_shift ∷ []) three (a ∷ b ∷ codes "c" ∷ [])
      (represents [] (codes "c" ∷ []) [] (b ∷ a ∷ []))

-- Two values in a line, which a colon separates.
abbrev pairs : Lines
pairs = record {
  step = 2;
  head = some (codes "{");
  tail = some (codes "}");
  lhead = none;
  ltail = none;
  ldel = some (codes ",");
  dels = some (codes ":" ∷ []);
}

pairs-Whole : Whole pairs ((a ∷ b ∷ []) ∷ (b ∷ a ∷ []) ∷ [])
unfolding step_of
pairs-Whole = (refl, (refl, tt))

pair-Whole : Whole pairs ((a ∷ b ∷ []) ∷ [])
unfolding step_of
pair-Whole = (refl, tt)

array_join_x_lem_example :
    array_join_x true pairs (some a ∷ some b ∷ some b ∷ some a ∷ [])
    ≡ Joined.joined (codes "{" ++ lines_text pairs ((a ∷ b ∷ []) ∷ (b ∷ a ∷ []) ∷ []) ++ codes "}")
array_join_x_lem_example = array_join_x_lem pairs (a ∷ b ∷ []) ((b ∷ a ∷ []) ∷ []) refl pairs-Whole

-- The third value does not fill a line.
get_list_lem_example : get_list true pairs three ≡ got (codes "{a:b}") three
get_list_lem_example =
    get_list_lem pairs three (a ∷ b ∷ []) (codes "c" ∷ []) []
      (represents [] (codes "c" ∷ []) [] (b ∷ a ∷ [])) (omega arith) refl pair-Whole (omega arith)

line_not_full : get_list true pairs (ctx_of (a ∷ []) (b ∷ []) [] []) ≡ wild
line_not_full =
    get_list-short pairs (ctx_of (a ∷ []) (b ∷ []) [] []) b [] (represents (a ∷ []) (b ∷ []) [] [])
      (omega arith)
