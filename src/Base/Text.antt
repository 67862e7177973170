-- ===== src/Base/Text.antt =====
-- Python's `str` methods on native texts.
use Prim.Native.Nat.{ℕ, zero, suc}
use Prim.Native.Char.{code}
use Prim.Native.String.{String, [], ◌∷◌}
use mathlib.Core.Path.{◌≡◌, refl}
use mathlib.Core.Bool.{Bool, true, false, ◌&&◌, ◌||◌}
use orvo_agent.Base.Equality.{◌==◌, nat_eq, leb, if◌then◌else◌}

-- `str.isspace` of one code point, the whitespace that `strip` removes.
pub is_space : ℕ → Bool
is_space c =
    (leb 9 c && leb c 13)
    || (leb 28 c && leb c 32)
    || c == 133
    || c == 160
    || c == 5760
    || (leb 8192 c && leb c 8202)
    || c == 8232
    || c == 8233
    || c == 8239
    || c == 8287
    || c == 12288

-- `not s`
abbrev pub is_empty : String → Bool
is_empty [] = true
is_empty (c ∷ s) = false

-- `s.lstrip()`
unfoldable pub lstrip : String → String
unfolding is_space nat_eq
lstrip [] = []
lstrip (c ∷ s) = let rest = lstrip s in if is_space (code c) then rest else c ∷ s

-- `s.rstrip()`
unfoldable pub rstrip : String → String
unfolding is_space nat_eq
rstrip [] = []
rstrip (c ∷ s) = let rest = rstrip s in if is_space (code c) && is_empty rest then [] else c ∷ rest

-- `s.strip()`
unfoldable pub strip : String → String
unfolding lstrip rstrip
strip s = rstrip (lstrip s)

strip_runs : strip "  a b\n" ≡ "a b"
unfolding strip
strip_runs = refl

-- `len(s)`
abbrev pub len : String → ℕ
len [] = 0
len (c ∷ s) = suc (len s)

-- `s[:n]`
unfoldable pub text_prefix : ℕ → String → String
text_prefix zero s = []
text_prefix (suc n) [] = []
text_prefix (suc n) (c ∷ s) = c ∷ text_prefix n s
