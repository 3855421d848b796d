-- ===== src/Prelude/Text.antt =====
-- JavaScript's string operations that the program uses, over code points.
use Prim.Native.Char.{code}
use Prim.Native.Nat.{ℕ, zero, suc, ◌+◌, ◌-◌, ◌/◌, ◌%◌}
use Prim.Native.String
use Prim.Native.String.{String, [], ◌∷◌}
use mathlib.Core.List.{List}
use mathlib.Core.Option.{Option, none, some}
use capisco.Prelude.Tests.{ltb, leb, if◌then◌else◌}
use mathlib.Core.Bool.{Bool, true, false, ◌||◌, ◌&&◌, not}
use text.Mathlib.Text.{starts_with}
use capisco.Prelude.Equality.{◌==◌, string_eq, nat_eq}

unfoldable pub ends_with : String → String → Bool
ends_with [] t = t == ""
ends_with (c ∷ s) t = (c ∷ s) == t || ends_with s t

unfoldable pub includes : String → String → Bool
includes [] t = t == ""
includes (c ∷ s) t = starts_with (c ∷ s) t || includes s t

-- `s.slice(0, -1)`
unfoldable pub drop_last : String → String
drop_last [] = ""
drop_last (c ∷ []) = ""
drop_last (c ∷ d ∷ s) = c ∷ drop_last (d ∷ s)

abbrev pub is_empty : String → Bool
is_empty [] = true
is_empty (c ∷ s) = false

-- The code points of a text.
abbrev pub codes : String → List ℕ
codes [] = List.[]
codes (c ∷ s) = List.◌∷◌ (code c) (codes s)

-- The UTF-16 code units of a text.
abbrev pub code_units : String → List ℕ
code_units [] = List.[]
code_units (c ∷ s) =
    let rest = code_units s in
    if ltb (code c) 0x10000
    then List.◌∷◌ (code c) rest
    else List.◌∷◌ (0xD800 + (code c - 0x10000) / 1024)
        (List.◌∷◌ (0xDC00 + (code c - 0x10000) % 1024) rest)

-- `s.length`, in UTF-16 code units.
abbrev pub units : List ℕ → ℕ
units List.[] = 0
units (List.◌∷◌ c cs) = (if ltb c 0x10000 then 1 else 2) + units cs

-- `!s` of an optional string: absent and empty are the same.
abbrev pub present : Option String → Bool
present none = false
present (some s) = not (is_empty s)

digit : ℕ → String
digit zero = "0"
digit (suc zero) = "1"
digit (suc (suc zero)) = "2"
digit (suc (suc (suc zero))) = "3"
digit (suc (suc (suc (suc zero)))) = "4"
digit (suc (suc (suc (suc (suc zero))))) = "5"
digit (suc (suc (suc (suc (suc (suc zero)))))) = "6"
digit (suc (suc (suc (suc (suc (suc (suc zero))))))) = "7"
digit (suc (suc (suc (suc (suc (suc (suc (suc zero)))))))) = "8"
digit (suc (suc (suc (suc (suc (suc (suc (suc (suc n))))))))) = "9"

decimal_from : ℕ → ℕ → String
unfolding digit
decimal_from zero n = ""
decimal_from (suc f) n =
    let rest = decimal_from f (n / 10) in
    if ltb n 10 then digit n else String.◌++◌ rest (digit (n % 10))

-- `${n}` of a natural number.
unfoldable pub decimal : ℕ → String
unfolding decimal_from
decimal n = decimal_from (suc n) n

-- `parts.join(glue)`
unfoldable pub join : String → List String → String
join glue List.[] = ""
join glue (List.◌∷◌ s List.[]) = s
join glue (List.◌∷◌ s (List.◌∷◌ t rest)) =
    String.◌++◌ s (String.◌++◌ glue (join glue (List.◌∷◌ t rest)))

-- A template literal.
unfoldable pub concat : List String → String
concat List.[] = ""
concat (List.◌∷◌ s rest) = String.◌++◌ s (concat rest)

-- JavaScript's white space and line terminators.
abbrev pub is_space : ℕ → Bool
is_space c =
    (leb 9 c && leb c 13)
    || (c == 32
        || (c == 160
            || (c == 5760
                || ((leb 8192 c && leb c 8202)
                    || (c == 8232
                        || (c == 8233
                            || (c == 8239 || (c == 8287 || (c == 12288 || c == 65279)))))))))

-- `line.trim().length === 0`
unfoldable pub is_blank : List ℕ → Bool
is_blank List.[] = true
is_blank (List.◌∷◌ c cs) = is_space c && is_blank cs

trim_start : List ℕ → List ℕ
trim_start List.[] = List.[]
trim_start (List.◌∷◌ c cs) = let rest = trim_start cs in if is_space c then rest else List.◌∷◌ c cs

trim_end : List ℕ → List ℕ
trim_end List.[] = List.[]
trim_end (List.◌∷◌ c cs) =
    let rest = trim_end cs in if is_blank (List.◌∷◌ c cs) then List.[] else List.◌∷◌ c rest

-- `s.trim()`, on code units.
unfoldable pub trim : List ℕ → List ℕ
unfolding trim_start trim_end
trim s = trim_end (trim_start s)

-- `s.split(c)[0]`
unfoldable pub before : ℕ → List ℕ → List ℕ
before sep List.[] = List.[]
before sep (List.◌∷◌ c cs) =
    let rest = before sep cs in if c == sep then List.[] else List.◌∷◌ c rest
