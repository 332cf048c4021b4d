-- ===== src/McProtocol.antt =====
-- c/ngx_util/mc_protocal.h: the table-driven parser of memcached requests and answers.
-- `d->cur` is the chain link of the first call and never changes, so a pointer into its buffer is
-- an offset from `buf->pos`, and a NULL pointer is `none`.
pub mod Scan
pub mod Bounds
pub mod Rounds
pub mod Request
pub mod Resume
pub mod Answer
mod Tests
use ngxmp.Base.{
  ℕ, zero, suc, ◌+◌, ◌-◌, Bool, true, false, not, ◌&&◌, Option, none, some, List, [], ◌∷◌, ◌==◌,
  ltb, leb, if◌then◌else◌, Bytes, codes, length,
}

-- `mc_status_t`
pub data McStatus : Type 0 where
  start line_break cmd key val exp flag len delim end until_delim until_end until_lb null : McStatus

-- `mc_p_t`
pub data McType : Type 0 where
  get set incr decr value no_type : McType

-- The buffer of `d->cur`: the memory from `buf->pos` on, and `buf->last`.
pub record Buffer : Type 0 where
  pub mem : ℕ → ℕ
  pub last : ℕ

-- An `ngx_str_t` that points into the buffer.
pub record Span : Type 0 where
  pub at : ℕ
  pub size : ℕ

-- `mc_data`; `st` is the table from `d->st` on, `pre` is `d->pre_c`.
pub record McData : Type 0 where
  pub type : McType
  pub st : List McStatus
  pub c : Option ℕ
  pub pre : Option ℕ
  pub cmd : Option Bytes
  pub key : Option Span
  pub val : Option Span
  pub exp : Option Span
  pub flag : Option Span
  pub len : Option Span

-- What one case of the switch does: `++d->st`, or a return.
pub data Step : Type 0 where
  advance : McData → Step
  again : McData → Step
  error : McData → Step

-- The return codes; `fault` is a `d->st` behind its table.
pub data Rc : Type 0 where
  rc_ok rc_again rc_error fault : Rc

abbrev pub mc_get_req : List McStatus
mc_get_req = start ∷ cmd ∷ delim ∷ until_lb ∷ key ∷ line_break ∷ null ∷ []

abbrev pub mc_get_v_req : List McStatus
mc_get_v_req =
    start ∷ cmd ∷ delim ∷ until_delim ∷ key ∷ delim ∷ until_delim ∷ flag ∷ delim ∷ until_delim ∷ exp
    ∷ delim ∷ until_lb ∷ len ∷ line_break ∷ until_lb ∷ val ∷ line_break ∷ end ∷ line_break ∷ null
    ∷ []

abbrev pub mc_cmd_linebreak : Bytes
mc_cmd_linebreak = 13 ∷ 10 ∷ []

abbrev pub mc_cmd_end : Bytes
mc_cmd_end = codes "END"

abbrev pub mc_cmds : McType → Option Bytes
mc_cmds get = some (codes "get")
mc_cmds set = some (codes "set")
mc_cmds incr = some (codes "incr")
mc_cmds decr = some (codes "decr")
mc_cmds value = some (codes "VALUE")
mc_cmds no_type = none

-- `*d` is allocated by the caller: with NULL the function gives NGX_ERROR.
unfoldable pub parse_init : Bool → List McStatus → McType → Option McData
parse_init allocated sts tp =
    if not allocated
    then none
    else some (record {
      type = tp;
      st = sts;
      c = none;
      pre = none;
      cmd = mc_cmds tp;
      key = none;
      val = none;
      exp = none;
      flag = none;
      len = none;
    })

unfoldable pub remember_cur : ℕ → McData → Step
remember_cur c d = elim d.pre [ none ↦ advance (record d { pre = some c }) | some _ ↦ error d ]

-- `mc_set_data_str`, which releases `pre`: the span from there to `c`, or NGX_ERROR.
unfoldable pub data_str : ℕ → Option ℕ → Option Span
data_str c none = none
data_str c (some p) = some (record { at = p; size = c - p })

-- `strncmp(p, s, strlen(s)) == 0` for an `s` without zeros.
unfoldable pub matches_at : (ℕ → ℕ) → ℕ → Bytes → Bool
matches_at mem c [] = true
matches_at mem c (x ∷ xs) = mem c == x && matches_at mem (c + 1) xs

-- `while (MC_DELIM != d->c[0] && d->c < last) ++d->c`, on the rounds that are left.
unfoldable pub scan_delim : (ℕ → ℕ) → ℕ → ℕ → ℕ
scan_delim mem zero c = c
scan_delim mem (suc n) c = let rest = scan_delim mem n (c + 1) in if mem c == b' ' then c else rest

-- The loops of MC_ST_UNTIL_END and MC_ST_UNTIL_LB: where the text stands, if it is found.
unfoldable pub scan_text : (ℕ → ℕ) → Bytes → ℕ → ℕ → Option ℕ
scan_text mem text zero c = none
scan_text mem text (suc n) c =
    let rest = scan_text mem text n (c + 1) in if matches_at mem c text then some c else rest

-- A literal that the table expects.
unfoldable pub expect : Buffer → Bytes → ℕ → McData → Step
expect b text c d =
    if ltb b.last (c + length text)
    then again d
    else if matches_at b.mem c text
    then advance (record d { c = some (c + length text) })
    else error d

-- `NULL == d->cmd.data` is tested first.
unfoldable pub expect_cmd : Option Bytes → Buffer → ℕ → McData → Step
expect_cmd none b c d = error d
expect_cmd (some text) b c d = expect b text c d

-- From a place where `d` remembers `c`.
abbrev after_remember : (McData → Step) → Step → Step
after_remember f (advance d) = f d
after_remember f (again d) = again d
after_remember f (error d) = error d

unfoldable pub found_at : Buffer → ℕ → McData → Option ℕ → Step
found_at b c d none = again (record d { c = some (c + (b.last - c)) })
found_at b c d (some i) = advance (record d { c = some i })

unfoldable pub step_until_delim : Buffer → ℕ → McData → Step
step_until_delim b c d =
    let i = scan_delim b.mem (b.last - c) c in
    after_remember
      (λ e.
        if b.mem i == b' '
        then advance (record e { c = some i })
        else again (record e { c = some i }))
      (remember_cur c d)

unfoldable pub step_until : Buffer → Bytes → ℕ → McData → Step
step_until b text c d =
    after_remember (λ e. found_at b c e (scan_text b.mem text (b.last - c) c)) (remember_cur c d)

-- A field is stored, and `pre` is released.
abbrev stored : McData → (Span → McData) → Option Span → Step
stored d f none = error d
stored d f (some s) = advance (f s)

-- One case of the switch, at the offset `c`.
unfoldable pub step : McStatus → Buffer → ℕ → McData → Step
step start b c d = advance d
step line_break b c d = expect b mc_cmd_linebreak c d
step cmd b c d = expect_cmd d.cmd b c d
step key b c d = stored d (λ s. record d { key = some s; pre = none }) (data_str c d.pre)
step val b c d = stored d (λ s. record d { val = some s; pre = none }) (data_str c d.pre)
step exp b c d = stored d (λ s. record d { exp = some s; pre = none }) (data_str c d.pre)
step flag b c d = stored d (λ s. record d { flag = some s; pre = none }) (data_str c d.pre)
step len b c d = stored d (λ s. record d { len = some s; pre = none }) (data_str c d.pre)
step delim b c d = expect b (b' ' ∷ []) c d
step end b c d = expect b mc_cmd_end c d
step until_delim b c d = step_until_delim b c d
step until_end b c d = step_until b mc_cmd_end c d
step until_lb b c d = step_until b mc_cmd_linebreak c d
step null b c d = again d

-- `d->c`, which is set to `buf->pos` where it is NULL.
abbrev pub offset : McData → ℕ
offset d = elim d.c [ none ↦ 0 | some c ↦ c ]

-- What a round does with its step: it goes on, or returns at the entry `l` of the table.
abbrev pub continue : List McStatus → (McData → Rc × McData) → Step → Rc × McData
continue l f (advance e) = f e
continue l f (again e) = (rc_again, record e { st = l })
continue l f (error e) = (rc_error, record e { st = l })

-- The loop. Each round moves to the next entry of the table or returns.
unfoldable pub parse_from : List McStatus → Buffer → McData → Rc × McData
parse_from [] b d = (fault, d)
parse_from (null ∷ sts) b d = (rc_ok, record d { st = null ∷ sts })
parse_from (s ∷ sts) b d = continue (s ∷ sts) (parse_from sts b) (step s b (offset d) d)

-- `ch` and `ch->buf` may be NULL.
unfoldable pub parse : Option Buffer → McData → Rc × McData
parse none d = (rc_error, d)
parse (some b) d = parse_from d.st b (record d { c = some (offset d) })
