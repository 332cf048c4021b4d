-- ===== src/Util/Tests.antt =====
-- The helpers of c/ngx_util/ngx_util.h on concrete strings.
use ngxmp.Base.{◌≡◌, ◌≤◌, ◌<◌, ◌⊎◌, refl, none, some, [], ◌∷◌, codes, arith, true}
use ngxmp.Util.Append.{append_vv, cursor, buf_append_str, buf_append_str_lem}
use ngxmp.Util.Join.{Frame, joined, join_crash, array_join, array_join_lem, array_join-nil}
use ngxmp.Util.Tokens.{str_to_array, str_to_array-whole, str_to_array-error}
use ngxmp.Util.Html.{encoded, encode, htmlencoding, htmlencoding-encode}

abbrev frame : Frame
frame = record {
  head = some (codes "(");
  tail = some (codes ")");
  pre = none;
  suf = some (codes ";");
  del = some (codes " ");
}

append_vv-fits : append_vv (cursor (codes "a") 2) (some (codes "bc")) ≡ cursor (codes "abc") 0
unfolding append_vv
append_vv-fits = refl

buf_append_str-fits :
    ((2 ≤ 3)
      × (buf_append_str (record { content = codes "a"; room = 3 }) (some (codes "bc"))
          ≡ some (record { content = codes "abc"; room = 1 })))
    ⊎ ((3 < 2)
        × (buf_append_str (record { content = codes "a"; room = 3 }) (some (codes "bc")) ≡ none))
buf_append_str-fits = buf_append_str_lem (record { content = codes "a"; room = 3 }) (codes "bc")

array_join_lem_example :
    array_join true frame (codes "x" ∷ codes "y" ∷ []) ≡ joined (codes "(x; y;)")
array_join_lem_example = array_join_lem frame (codes "x") (codes "y" ∷ [])

array_join-no_items : array_join true frame [] ≡ join_crash
array_join-no_items = array_join-nil frame (omega arith)

one_string : str_to_array true 1 b',' (codes "ab") ≡ some (record { at = 0; size = 2 } ∷ [])
one_string = str_to_array-whole 0 b',' b'a' (codes "b") (ground arith) (omega arith)

list_with_delimiter : str_to_array true 100 b',' (codes "a,b") ≡ none
list_with_delimiter = str_to_array-error true 100 b',' (codes "a") (codes "b") (ground arith)

htmlencoding-encode_example : htmlencoding 0 true (codes "a<b") ≡ encoded (encode (codes "a<b"))
htmlencoding-encode_example = htmlencoding-encode 0 (codes "a<b") (omega arith) (omega arith)
