-- ===== src/Hql/Functions.antt =====
-- internal/hql/functions.go. The calendar is the standard library's `time`: the operations that the
-- code calls are the record `Clock`. A duration is the bit pattern of an int64.
use pixkb.Base.{
  Bytes, codes, ℕ, suc, ◌-◌, ◌*◌, ◌%◌, ◌^◌, Bool, false, not, ◌&&◌, ◌||◌, [], ◌∷◌, Option, none,
  some, map, ◌==◌, if◌then◌else◌, Result, ok, err,
}
use pixkb.Text.Ascii.{equal, lower_byte, is_empty}
use pixkb.Text.Number.{ℤ, pos, negsuc, digits_only, atoi}
use pixkb.Hql.Ast.{Value, string, word, func, count, raw}
use pixkb.Hql.Errors.{Error, not_a_date, unsupported_function, wrong_arity}

pub record Clock : Type 1 where
  pub Time : Type 0
  pub is_zero : Time → Bool
  -- `time.Unix(0, 0).UTC()`
  pub unix_epoch : Time
  -- `t.Add(d)`
  pub add : Time → ℕ → Time
  -- `time.Date` at 00:00:00 and at 23:59:59 of the day of `t`
  pub day_start : Time → Time
  pub day_end : Time → Time
  -- `time.Parse(time.RFC3339, s)`, and `time.Parse("2006-01-02", s)` in UTC
  pub parse_rfc3339 : Bytes → Option Time
  pub parse_day : Bytes → Option Time

-- `[+-]?\d+`
unfoldable pub is_signed_number : Bytes → Bool
unfolding digits_only
is_signed_number [] = false
is_signed_number (c ∷ s) =
    if c == b'+' || c == b'-' then not (is_empty s) && digits_only s else digits_only (c ∷ s)

-- The text before its last byte, and that byte.
unfoldable pub split_last : ℕ → Bytes → Bytes × ℕ
split_last c [] = ([], c)
split_last c (d ∷ s) = let (front, last) = split_last d s in (c ∷ front, last)

-- the nanoseconds of a unit
unfoldable pub unit : ℕ → Option ℕ
unit c =
    if c == b's'
    then some 1_000_000_000
    else if c == b'm'
    then some 60_000_000_000
    else if c == b'h'
    then some 3_600_000_000_000
    else if c == b'd'
    then some 86_400_000_000_000
    else if c == b'w'
    then some 604_800_000_000_000
    else none

-- `time.Duration(n) * u` in int64 arithmetic, which wraps around
unfoldable pub times : ℤ → ℕ → ℕ
times (pos n) u = n * u % 2 ^ 64
times (negsuc n) u = (2 ^ 64 - suc n % 2 ^ 64) * u % 2 ^ 64

unfoldable pub duration : Option ℤ → Option ℕ → Option ℕ
unfolding times
duration (some n) (some u) = some (times n u)
duration _ _ = none

-- `parseRelative`
unfoldable pub parse_relative : Bytes → Option ℕ
unfolding is_signed_number split_last unit duration
parse_relative [] = none
parse_relative (c ∷ s) =
    let (number, last) = split_last c s in
    if is_signed_number number then duration (atoi number) (unit last) else none

-- `funcArity`
unfoldable pub func_arity : Bytes → Option ℕ
unfolding equal
func_arity name =
    if equal name (codes "now")
      || equal name (codes "today")
      || equal name (codes "startofday")
      || equal name (codes "endofday")
    then some 0
    else none

-- `strings.NewReplacer` of `escapeLike`
unfoldable pub escape_like : Bytes → Bytes
escape_like [] = []
escape_like (c ∷ s) =
    if c == b'\\' || c == b'%' || c == b'_' then b'\\' ∷ c ∷ escape_like s else c ∷ escape_like s

module _ (clock : Clock) where
  open clock use {Time, is_zero, unix_epoch, add, day_start, day_end, parse_rfc3339, parse_day}

  -- what `resolveScalar` returns as `any`
  pub data Scalar : Type 0 where
    text : Bytes → Scalar
    time : Time → Scalar

  -- `EvalContext.now`
  unfoldable pub now_of : Time → Time
  now_of now = if is_zero now then unix_epoch else now

  -- the switch of `resolveFunc`, on the lower-case name
  unfoldable pub call : Time → Bytes → Bytes → Result Error Scalar
  unfolding now_of equal
  call now raw name =
      if equal name (codes "now")
      then ok (time (now_of now))
      else if equal name (codes "today") || equal name (codes "startofday")
      then ok (time (day_start (now_of now)))
      else if equal name (codes "endofday")
      then ok (time (day_end (now_of now)))
      else err (unsupported_function raw)

  unfoldable pub check_arity : Time → Bytes → ℕ → Option ℕ → Result Error Scalar
  unfolding call
  check_arity now raw n none = err (unsupported_function raw)
  check_arity now raw n (some arity) =
      if not (n == arity) then err (wrong_arity raw n) else call now raw (map lower_byte raw)

  -- `resolveScalar` and `resolveFunc`
  unfoldable pub resolve_scalar : Time → Value → Result Error Scalar
  unfolding check_arity func_arity
  resolve_scalar now (func name args) =
      check_arity now name (count args) (func_arity (map lower_byte name))
  resolve_scalar now (string s) = ok (text s)
  resolve_scalar now (word w) = ok (text w)

  -- the three readings of a date, in order
  unfoldable pub first_date :
      Time → Bytes → Option ℕ → Option Time → Option Time → Result Error Time
  first_date now raw (some d) rfc day = ok (add (now_of now) d)
  first_date now raw none (some t) day = ok t
  first_date now raw none none (some t) = ok t
  first_date now raw none none none = err (not_a_date raw)

  unfoldable pub resolve_date : Time → Bytes → Result Error Time
  unfolding parse_relative first_date
  resolve_date now raw = first_date now raw (parse_relative raw) (parse_rfc3339 raw) (parse_day raw)
