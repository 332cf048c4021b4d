-- ===== src/Arrayv/Format/Reads.antt =====
-- What `ngx_http_av_readstr` gives for a format.
use ngxmp.Base.{
  ℕ, zero, suc, ◌+◌, ◌-◌, ◌<◌, ◌≡◌, refl, ◌∙◌, false, none, some, List, [], ◌∷◌, ◌++◌, append_assoc,
  append-nil, ◌==◌, Bytes, length, length-append, arith,
}
use ngxmp.Arrayv.Format.{scan, ends_del, read_dels}
use ngxmp.Arrayv.Format.Spelling.{
  Spells, nil, plain, taken, SpellsDels, dels_nil, dels_cons, scan-Spells, scan-stop, peek-Spells,
}

pub ends_del_not : (y : ℕ) → ends_del y ≡ false → (y == b')') ≡ false
ends_del_not y h = ground arith

zero_plus : (a : ℕ) → 0 + a ≡ a
zero_plus a = omega arith

plus_zero : (a : ℕ) → a + 0 ≡ a
plus_zero a = omega arith

one_plus : (a b : ℕ) → a + 1 + b ≡ a + suc b
one_plus a b = omega arith

pub suc_sub : (a : ℕ) → suc a - 1 ≡ a
suc_sub a = omega arith

length_cons : (s ss : Bytes) (m : ℕ) → length (s ++ b'$' ∷ ss) + m ≡ length s + suc (length ss + m)
length_cons s ss m = omega (arith, length-append s (b'$' ∷ ss))

-- One round on a text behind which `$` stands.
read_dels-next :
    (rounds : ℕ) (dels : List Bytes) (nelts k : ℕ) (rest : Bytes)
    → {s d : Bytes} → Spells ends_del s d
    → read_dels (suc rounds) dels nelts (length s + k) (s ++ b'$' ∷ rest)
      ≡ read_dels rounds (dels ++ d ∷ []) (nelts + 1) (k - 1) rest
unfolding read_dels
read_dels-next rounds dels nelts k rest sp =
    rw
      (
        peek-Spells ends_del refl b')' b'$' rest ends_del_not refl sp,
        scan-Spells ends_del refl k (b'$' ∷ rest) (scan-stop ends_del refl k b'$' rest refl) sp,
      )
      refl

closed :
    (k : ℕ) (rest : Bytes) {s t : Bytes}
    → Spells ends_del s t
    → scan ends_del false (length s + k) (s ++ b')' ∷ rest)
      ≡ record { text = t; left = k; at = b')' ∷ rest }
closed k rest sp =
    scan-Spells ends_del refl k (b')' ∷ rest) (scan-stop ends_del refl k b')' rest refl) sp

-- The last round, on the text behind which `)` stands.
read_dels-last :
    (rounds : ℕ) (dels : List Bytes) (nelts k : ℕ) (rest : Bytes)
    → {s t : Bytes} → Spells ends_del s t
    → read_dels (suc rounds) dels nelts (length s + k) (s ++ b')' ∷ rest)
      ≡ some (record { dels = dels; nelts = nelts; ltail = t; left = k; at = b')' ∷ rest })
unfolding read_dels
read_dels-last rounds dels nelts k rest nil = rw zero_plus refl
read_dels-last rounds dels nelts k rest (plain {c} h i sp) =
    rw (ends_del_not c i, closed k rest (plain h i sp)) refl
read_dels-last rounds dels nelts k rest (taken c sp) = rw (closed k rest (taken c sp)) refl

pub read_dels-Spells :
    (rounds : ℕ) (dels : List Bytes) (nelts k : ℕ) (rest : Bytes)
    → {ss s t : Bytes} {ds : List Bytes} → length ds < rounds
    → SpellsDels ss ds
    → Spells ends_del s t
    → read_dels rounds dels nelts (length ss + (length s + k)) (ss ++ (s ++ b')' ∷ rest))
      ≡ some (record {
        dels = dels ++ ds;
        nelts = nelts + length ds;
        ltail = t;
        left = k;
        at = b')' ∷ rest;
      })
read_dels-Spells zero dels nelts k rest h sd sp = absurd (omega arith)
read_dels-Spells (suc rounds) dels nelts k rest {s = s} h dels_nil sp =
    rw (zero_plus (length s + k), append-nil dels, plus_zero nelts)
      (read_dels-last rounds dels nelts k rest sp)
read_dels-Spells (suc rounds) dels nelts k rest {s = s} h
      (dels_cons {s = s1} {d} {ss = ss1} {ds} x sd) sp =
    rw (length_cons s1 ss1 (length s + k), append_assoc s1 (b'$' ∷ ss1) (s ++ b')' ∷ rest))
      (read_dels-next rounds dels nelts (suc (length ss1 + (length s + k)))
          (ss1 ++ (s ++ b')' ∷ rest)) x
        ∙ rw (suc_sub (length ss1 + (length s + k))) (
            read_dels-Spells rounds (dels ++ d ∷ []) (nelts + 1) k rest (omega arith) sd sp
            ∙ rw (append_assoc dels (d ∷ []) ds, one_plus nelts (length ds)) refl))

-- Where the string ends in front of a `)`, the loop stays at its end.
read_dels-stays :
    (rounds : ℕ) (dels : List Bytes) (nelts : ℕ) (rest : Bytes)
    → read_dels rounds dels nelts 0 (0 ∷ rest) ≡ none
unfolding read_dels scan
read_dels-stays zero dels nelts rest = refl
read_dels-stays (suc rounds) dels nelts rest = read_dels-stays rounds dels nelts rest

pub read_dels-open :
    (rounds : ℕ) (dels : List Bytes) (nelts : ℕ) (rest : Bytes)
    → {ss s t : Bytes} {ds : List Bytes} → SpellsDels ss ds
    → Spells ends_del s t
    → read_dels rounds dels nelts (length ss + (length s + 0)) (ss ++ (s ++ 0 ∷ rest)) ≡ none
unfolding read_dels scan
read_dels-open zero dels nelts rest sd sp = refl
read_dels-open (suc rounds) dels nelts rest {s = s} dels_nil sp =
    rw
      (
        zero_plus (length s + 0),
        peek-Spells ends_del refl b')' 0 rest ends_del_not refl sp,
        scan-Spells ends_del refl 0 (0 ∷ rest) refl sp,
      )
      (read_dels-stays rounds dels nelts rest)
read_dels-open (suc rounds) dels nelts rest {s = s} (dels_cons {s = s1} {d} {ss = ss1} x sd) sp =
    rw (length_cons s1 ss1 (length s + 0), append_assoc s1 (b'$' ∷ ss1) (s ++ 0 ∷ rest))
      (read_dels-next rounds dels nelts (suc (length ss1 + (length s + 0))) (ss1 ++ (s ++ 0 ∷ rest))
          x
        ∙ rw (suc_sub (length ss1 + (length s + 0)))
            (read_dels-open rounds (dels ++ d ∷ []) (nelts + 1) rest sd sp))
