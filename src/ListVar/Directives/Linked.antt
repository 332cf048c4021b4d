-- ===== src/ListVar/Directives/Linked.antt =====
-- A list and its items, of c/ngx_http_list_module/ngx_http_list_module.c: the variable of getitem
-- reads the list that setlist made, whichever directive stands first.
use ngxmp.Base.{
  ℕ, ◌≡◌, Bool, true, false, Option, some, [], ◌∷◌, same_bytes, strncmp_eq, Bytes, codes,
}
use ngxmp.Util.Conf.{Conf, ◌>>=◌}
use ngxmp.ListVar.{ListCtx}
use ngxmp.ListVar.Directives.{
  ItemCtx, list_handler, item_handler, list_data, item_data, Variable, Variables, find, put,
  or_fresh, key_of, set_list_command, getitem_command,
}

-- What setlist makes of a name.
abbrev list_variable : ListCtx → Variable
list_variable c = record {
  get_handler = some list_handler;
  set_handler = some list_handler;
  own = list_data c;
}

abbrev pub blank_list : Bytes → ListCtx
blank_list text = record { idx = 0; delim = b' '; raw = text }

module _ (changeable : Bytes → Bool) (variable_index : Bytes → Option ℕ) (cmd l v i : Bytes) where
  abbrev item_ctx : ItemCtx
  item_ctx = record {
    vi = variable_index v;
    ii = variable_index i;
    list = some (key_of l);
    is_rand = strncmp_eq cmd (codes "getranditem");
  }

  -- $v reads $l.
  record Reads (xs : Variables) : Type 0 where
    w : Variable
    item : find xs (key_of v) ≡ some w
    get_handler : w.get_handler ≡ some item_handler
    own : w.own ≡ item_data item_ctx

  -- `setlist $l delim` and `getitem $v $l $i`, or the other way round.
  abbrev pub both : Bool → Variables → Bytes → Conf Variables
  both list_first xs d = elim list_first [
    | true ↦ set_list_command changeable true xs ((b'$' ∷ l) ∷ d ∷ []) >>= λ x.
        getitem_command changeable variable_index true cmd x
          ((b'$' ∷ v) ∷ (b'$' ∷ l) ∷ (b'$' ∷ i) ∷ [])
    | false ↦
        getitem_command changeable variable_index true cmd xs
          ((b'$' ∷ v) ∷ (b'$' ∷ l) ∷ (b'$' ∷ i) ∷ [])
        >>= λ x. set_list_command changeable true x ((b'$' ∷ l) ∷ d ∷ [])
  ]

  module _ (apart : same_bytes (key_of v) (key_of l) ≡ false) (free_v : changeable v ≡ true)
      (free_l : changeable l ≡ true) where
    -- What `link` makes where nginx gives a variable for the list.
    abbrev made : Variables → Variables
    made xs =
        let k = key_of v in
        let xs1 = put xs k (record (or_fresh (find xs k)) { get_handler = some item_handler }) in
        let xs2 = put xs1 (key_of l) (or_fresh (find xs1 (key_of l))) in
        put xs2 k (record (or_fresh (find xs2 k)) { own = item_data item_ctx })
