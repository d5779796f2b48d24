-- ===== src/Prelude/Text.antt =====
-- What the program uses of JavaScript's strings.
use Prim.Native.Nat.{ℕ, zero, suc, ◌+◌, ◌-◌, ◌/◌, ◌%◌}
use Prim.Native.Char.{Char, code}
use Prim.Native.String.{String, ◌++◌}
use mathlib.Core.Bool.{Bool, true, false, ◌&&◌, ◌||◌}
use mathlib.Core.Option.{Option, none, some}
use mathlib.Core.List.{List, [], ◌∷◌}
use mathlib.Core.Path.{◌≡◌, refl}
use text.Mathlib.Text.{starts_with}
use proman_edge_ace.Prelude.Tests.{ltb, leb, nat_beq, if◌then◌else◌}
use proman_edge_ace.Prelude.Lists.{any}

-- The white space that `trim` removes: ECMAScript's WhiteSpace and LineTerminator.
is_space : Char → Bool
is_space c =
    leb 9 n && leb n 13
    || leb 8192 n && leb n 8202
    || any (nat_beq n) (32 ∷ 160 ∷ 5760 ∷ 8232 ∷ 8233 ∷ 8239 ∷ 8287 ∷ 12288 ∷ 65279 ∷ [])
  where
    n : ℕ
    n = code c

trim_start : String → String
trim_start String.[] = String.[]
trim_start (String.◌∷◌ c s) = let rest = trim_start s in if is_space c then rest else String.◌∷◌ c s

-- `!s`: a string is falsy if it is empty.
abbrev pub is_blank : String → Bool
is_blank String.[] = true
is_blank (String.◌∷◌ c s) = false

trim_end : String → String
trim_end String.[] = String.[]
trim_end (String.◌∷◌ c s) =
    let rest = trim_end s in if is_space c && is_blank rest then String.[] else String.◌∷◌ c rest

-- `s.trim()`
unfoldable pub trim : String → String
unfolding is_space trim_start trim_end
trim s = trim_end (trim_start s)

-- `s || undefined`
abbrev pub non_empty : String → Option String
non_empty s = if is_blank s then none else some s

-- `s.length`: the code units of UTF-16.
unfoldable pub utf16_length : String → ℕ
utf16_length String.[] = 0
utf16_length (String.◌∷◌ c s) = (if ltb (code c) 65536 then 1 else 2) + utf16_length s

-- `s.slice(0, n)`, less the half of a character that would be left at the end
unfoldable pub take_units : ℕ → String → String
take_units n String.[] = String.[]
take_units n (String.◌∷◌ c s) =
    let size = if ltb (code c) 65536 then 1 else 2 in
    let rest = take_units (n - size) s in if ltb n size then String.[] else String.◌∷◌ c rest

-- `s.includes(t)`
unfoldable pub contains : String → String → Bool
contains String.[] t = is_blank t
contains (String.◌∷◌ c s) t = starts_with (String.◌∷◌ c s) t || contains s t

-- `xs.join(', ')`
unfoldable pub join : List String → String
join [] = ""
join (x ∷ []) = x
join (x ∷ y ∷ xs) = x ++ ", " ++ join (y ∷ xs)

digit : ℕ → String
digit n = elim n [
  | zero ↦ "0"
  | suc zero ↦ "1"
  | suc (suc zero) ↦ "2"
  | suc (suc (suc zero)) ↦ "3"
  | suc (suc (suc (suc zero))) ↦ "4"
  | suc (suc (suc (suc (suc zero)))) ↦ "5"
  | suc (suc (suc (suc (suc (suc zero))))) ↦ "6"
  | suc (suc (suc (suc (suc (suc (suc zero)))))) ↦ "7"
  | suc (suc (suc (suc (suc (suc (suc (suc zero))))))) ↦ "8"
  | _ ↦ "9"
]

decimal : ℕ → ℕ → String → String
decimal zero n out = out
decimal (suc fuel) n out =
    let out' = digit (n % 10) ++ out in
    let rest = decimal fuel (n / 10) out' in if ltb n 10 then out' else rest

-- `String(n)`
unfoldable pub show : ℕ → String
unfolding digit decimal
show n = decimal (n + 1) n ""

-- `s.padStart(width, '0')`
unfoldable pub pad_zeros : ℕ → String → String
pad_zeros zero s = s
pad_zeros (suc width) s =
    let rest = "0" ++ pad_zeros width s in if leb (suc width) (utf16_length s) then s else rest

trim_runs : (trim "  a b\n" ≡ "a b") × (trim " \t " ≡ "")
unfolding trim
trim_runs = (refl, refl)

show_runs : (show 0 ≡ "0") × (show 2607 ≡ "2607") × (pad_zeros 5 (show 42) ≡ "00042")
unfolding show pad_zeros utf16_length
show_runs = (refl, refl, refl)
