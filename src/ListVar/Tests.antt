-- ===== src/ListVar/Tests.antt =====
-- List variables on a concrete string.
use ngxmp.Base.{
  ℕ, ◌-◌, ◌≤◌, ◌<◌, ◌≡◌, ◌≢◌, refl, Option, none, some, [], ◌∷◌, get_elem?, take, drop, Bytes,
  codes, arith, false,
}
use ngxmp.Util.Tokens.{next_tok}
use ngxmp.ListVar.{
  ListCtx, valid, invalid, list_set, scan_back, rand_item, item_index, listitem_get, set_list_delim,
}
use ngxmp.ListVar.Words.{words}
use ngxmp.ListVar.Item.{word_or_empty, listitem_get-words}
use ngxmp.ListVar.Random.{rand_item-ends, rand_item-delims, rand_item-eq-some}

-- A reader of one digit in the place of `ngx_atoi`.
digit : Bytes → Option ℕ
digit [] = none
digit (c ∷ cs) = some (c - b'0')

abbrev list : ListCtx
list = record { idx = 0; delim = b' '; raw = codes " ab  c" }

words-list : words b' ' (codes " ab  c") ≡ codes "ab" ∷ codes "c" ∷ []
words-list = refl

list_set-first :
    list_set list (invalid ∷ invalid ∷ []) (codes "x")
    ≡ (record list { raw = codes "x" }, valid (codes "x") ∷ invalid ∷ [])
unfolding list_set
list_set-first = refl

set_list_delim-three : set_list_delim 3 (codes ",") ≡ some b' '
unfolding set_list_delim
set_list_delim-three = refl

listitem_get-words_example :
    listitem_get digit false list [] (some (codes "1"))
    ≡ some (
        valid
          (word_or_empty (get_elem? (words b' ' (codes " ab  c")) (item_index digit (codes "1")))))
listitem_get-words_example = listitem_get-words digit list [] (codes "1")

ends_at_byte : rand_item b' ' (codes " ab") (0 ∷ 2 ∷ []) ≢ none
ends_at_byte = rand_item-ends b' ' (codes " ab") (0 ∷ []) [] 2 b'b' refl (ground arith)

no_draw_ends : rand_item b' ' (codes "  ") (5 ∷ 6 ∷ []) ≡ none
no_draw_ends = rand_item-delims b' ' (codes "  ") (5 ∷ 6 ∷ []) (refl, (refl, tt))

rand_item-ab : rand_item b' ' (codes " ab") (2 ∷ []) ≡ some (codes "ab")
unfolding rand_item scan_back next_tok
rand_item-ab = refl

rand_item-eq-some_example :
    (a b : ℕ) × (a < b)
    × (codes "ab" ≡ take (b - a) (drop a (codes " ab")))
    × ((i : ℕ) → a ≤ i → i < b → get_elem? (codes " ab") i ≢ some b' ')
rand_item-eq-some_example = rand_item-eq-some b' ' (codes " ab") (2 ∷ []) (codes "ab") rand_item-ab
