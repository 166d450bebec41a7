-- ===== src/Slashes.antt =====
-- strings.TrimRight(s, "/") and strings.TrimSuffix(s, "/").
use Prim.Native.Nat.{compare, Ordering}
use Prim.Native.Char.{Char, code}
use Prim.Native.String.{[] as empty, ◌∷◌ as cons}
use wonderwall.Base.{String}

is_slash : Char → Ordering
is_slash c = compare (code c) 47

-- A slash in front of nothing is dropped.
keep_unless_last : Ordering → Char → String → String
keep_unless_last Ordering.eq c empty = empty
keep_unless_last Ordering.eq c (cons d s) = cons c (cons d s)
keep_unless_last Ordering.lt c s = cons c s
keep_unless_last Ordering.gt c s = cons c s

-- Without all slashes at the end
unfoldable pub trim_right : String → String
unfolding keep_unless_last is_slash
trim_right empty = empty
trim_right (cons c s) = keep_unless_last (is_slash c) c (trim_right s)

-- Without one slash at the end
unfoldable pub trim_suffix : String → String
unfolding keep_unless_last is_slash
trim_suffix empty = empty
trim_suffix (cons c empty) = keep_unless_last (is_slash c) c empty
trim_suffix (cons c (cons d s)) = cons c (trim_suffix (cons d s))
