-- ===== src/Repl/Tests.antt =====
-- Tests of the handler, and the witness.
use ngxmp.Base.{
  ℕ, ◌≡◌, refl, true, Option, none, some, [], ◌∷◌, codes, length, Bytes, get_elem?, if◌then◌else◌,
  same_bytes,
}
use ngxmp.Repl.{Vars, page, null_access, handler, put_vv, put_items, replace_pattern}
use ngxmp.Repl.Conf.{
  create_loc_conf, repl_command, merge_loc_conf, read_vars, read_vars-repl_command,
}
use ngxmp.Repl.Page.{handler_lem}

abbrev links : Vars
links = record {
  list = codes "ab,,c";
  list_delimiter = codes ",";
  replace_prefix = codes "<";
  replace_suffix = codes ">";
  replace_pattern = some (codes "[%%=%%]");
  replace_delimiter = codes "; ";
  past = 0;
}

links_page :
    handler true links
    ≡ page (codes "<[ab=ab]; [=]; [c=c]>") (length (codes "<[ab=ab]; [=]; [c=c]>")) true
unfolding handler ngxmp.Repl.answer ngxmp.Repl.output put_vv ngxmp.Repl.not_null
    ngxmp.Util.Append.append_vv ngxmp.Repl.room put_items replace_pattern ngxmp.Repl.replace_from
    ngxmp.Repl.put_str ngxmp.Util.Append.append_str ngxmp.Repl.put_rest ngxmp.Repl.last_item
links_page = refl

-- The byte behind a pattern that ends with `%%` is put into the page.
open_end :
    handler true (record links { replace_pattern = some (codes "%%"); past = b'!' })
    ≡ page (codes "<ab!; !; c!>") 12 true
unfolding handler ngxmp.Repl.answer ngxmp.Repl.output put_vv ngxmp.Repl.not_null
    ngxmp.Util.Append.append_vv ngxmp.Repl.room put_items replace_pattern ngxmp.Repl.replace_from
    ngxmp.Repl.put_str ngxmp.Util.Append.append_str ngxmp.Repl.put_rest ngxmp.Repl.last_item
open_end = refl

handler_lem_example : handler true links ≡ page (codes "<[ab=ab]; [=]; [c=c]>") 21 true
handler_lem_example = handler_lem true links (codes "[%%=%%]") refl

abbrev index : Bytes → ℕ
index n =
    if same_bytes n (codes "list")
    then 0
    else if same_bytes n (codes "list_delimiter")
    then 1
    else if same_bytes n (codes "replace_prefix")
    then 2
    else if same_bytes n (codes "replace_suffix")
    then 3
    else if same_bytes n (codes "replace_pattern")
    then 4
    else 5

abbrev flushed : ℕ → Option (Option Bytes)
flushed i =
    get_elem?
      (some links.list
        ∷ some links.list_delimiter
        ∷ some links.replace_prefix
        ∷ some links.replace_suffix
        ∷ links.replace_pattern
        ∷ some links.replace_delimiter
        ∷ [])
      i

abbrev value : Bytes → Option Bytes
value n = elim (flushed (index n)) [ none ↦ none | some v ↦ v ]

read_vars-repl_command_example :
    let m = merge_loc_conf create_loc_conf (repl_command (λ n. some (index n)) create_loc_conf) in
    (read_vars flushed 0 m ≡ some links)
    × (read_vars flushed 0 (merge_loc_conf m create_loc_conf) ≡ some links)
read_vars-repl_command_example =
    read_vars-repl_command (λ n. some (index n)) flushed 0 create_loc_conf create_loc_conf index
      value (λ n. refl) refl refl refl refl refl refl

-- A pattern whose data are NULL is read.
null_pattern : handler true (record links { replace_pattern = none }) ≡ null_access
unfolding handler ngxmp.Repl.answer ngxmp.Repl.output put_vv ngxmp.Repl.not_null
    ngxmp.Util.Append.append_vv ngxmp.Repl.room put_items replace_pattern ngxmp.Repl.last_item
null_pattern = refl

-- A location without repl reads in front of the array of variables.
read_vars-unset : read_vars flushed 0 create_loc_conf ≡ none
unfolding read_vars
read_vars-unset = refl
