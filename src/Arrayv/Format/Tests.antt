-- ===== src/Arrayv/Format/Tests.antt =====
-- Formats read on concrete strings, and the witnesses.
use ngxmp.Base.{◌≡◌, refl, Bool, List, Option, some, [], ◌∷◌, ◌++◌, Bytes, codes, length, arith}
use ngxmp.Util.Join.{join_crash}
use ngxmp.Util.JoinX.{array_join_x}
use ngxmp.Arrayv.Format.{
  scan, do_scan, scan_tail, read_dels, read_lines, wrong_format, running, read_end, read_elts,
  read_group, readstr,
}
use ngxmp.Arrayv.Format.RoundTrip.{
  Format, lines_of, print, print_open, readstr-print, readstr-print_open,
}
use ngxmp.Arrayv.Format.Single.{print_single, single_lines, readstr-single}

abbrev braces : Format
braces = record {
  head = codes "{";
  lhead = codes "('";
  del = codes "::";
  dels = codes "::" ∷ [];
  ltail = codes "')";
  ldel = codes ",";
  tail = codes "}";
}

braces_text : print braces [] ≡ codes "\\{{(('$::$::$'\\)),?}}"
braces_text = refl

wrong : readstr 9 3 (codes "a{$" ++ 0 ∷ []) ≡ wrong_format
unfolding readstr scan do_scan scan_tail read_dels read_end read_elts read_group
wrong = refl

-- `)` right behind the first `$`: one delimiter, which is empty.
closed_at_once :
    readstr 9 9 (codes "a{(b$)c?}d" ++ 0 ∷ [])
    ≡ read_lines (record {
      step = 1;
      head = some (codes "a");
      tail = some (codes "d");
      lhead = some (codes "b");
      ltail = some [];
      ldel = some (codes "c");
      dels = some ([] ∷ []);
    })
unfolding readstr scan do_scan scan_tail read_dels read_end read_elts read_group
closed_at_once = refl

readstr-print_example :
    readstr 5 (length (print braces [])) (print braces (0 ∷ [])) ≡ read_lines (lines_of braces)
readstr-print_example = readstr-print braces [] 5 (omega arith)

readstr-print_open_example :
    readstr 100
      (length (print_open [] [] (codes "," ∷ []) (codes "x") []))
      (print_open [] [] (codes "," ∷ []) (codes "x") (0 ∷ []))
    ≡ running
readstr-print_open_example = readstr-print_open [] [] (codes "x") [] (codes "," ∷ []) 100

readstr-single_example :
    (readstr 3
        (length (print_single [] [] (codes ";") [] [] []))
        (print_single [] [] (codes ";") [] [] (0 ∷ []))
      ≡ read_lines (single_lines [] [] (codes ";") [] []))
    × ((allocated : Bool) (items : List (Option Bytes))
        → array_join_x allocated (single_lines [] [] (codes ";") [] []) items ≡ join_crash)
readstr-single_example = readstr-single [] [] [] [] [] b';' [] 3 (omega arith)
