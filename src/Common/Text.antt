-- ===== src/Common/Text.antt =====
-- Python's `str.strip`, as far as the program asks whether anything is left: the code points that
-- `str.isspace` accepts.
use Prim.Native.Nat.{ℕ, suc}
use Prim.Native.Char.{code}
use Prim.Native.String.{String}
use mathlib.Core.Bool.{Bool, true, false, ◌&&◌, ◌||◌}
use risk_management.Common.Tests.{leb, ◌==◌, if◌then◌else◌}

abbrev pub is_space : ℕ → Bool
is_space c =
    (leb 9 c && leb c 13)
    || ((leb 28 c && leb c 32)
        || ((c == 133)
            || ((c == 160)
                || ((c == 5760)
                    || ((leb 8192 c && leb c 8202)
                        || ((c == 8232)
                            || ((c == 8233) || ((c == 8239) || ((c == 8287) || (c == 12288))))))))))

-- `not s.strip()`
abbrev pub is_blank : String → Bool
is_blank String.[] = true
is_blank (String.◌∷◌ c s) = is_space (code c) && is_blank s

-- `s.startswith(prefix)`
abbrev pub starts_with : String → String → Bool
starts_with String.[] s = true
starts_with (String.◌∷◌ c p) String.[] = false
starts_with (String.◌∷◌ c p) (String.◌∷◌ d s) = (code c == code d) && starts_with p s

-- `s.lstrip()`, `s.rstrip()` and `s.strip()`
abbrev pub left_stripped : String → String
left_stripped String.[] = String.[]
left_stripped (String.◌∷◌ c s) =
    let rest = left_stripped s in if is_space (code c) then rest else String.◌∷◌ c s

abbrev pub right_stripped : String → String
right_stripped String.[] = String.[]
right_stripped (String.◌∷◌ c s) =
    let rest = right_stripped s in
    if is_space (code c) && is_blank s then String.[] else String.◌∷◌ c rest

abbrev pub strip : String → String
strip s = right_stripped (left_stripped s)

-- `len(s)`
abbrev pub text_length : String → ℕ
text_length String.[] = 0
text_length (String.◌∷◌ c s) = suc (text_length s)
