-- ===== src/Notifications/Template.antt =====
-- `fill` of notification-template.service.ts: every `{{key}}`, with a key of word characters, becomes
-- the key's value, and stays as it is where there is none.
use Prim.Native.Nat.{ℕ, zero, suc, ◌+◌}
use Prim.Native.Char.{Char, code}
use Prim.Native.String.{String, ◌++◌}
use proman_edge_ace.Prelude.{
  ◌≡◌, refl, Bool, false, ◌||◌, ◌&&◌, Option, none, some, List, [], ◌∷◌, leb, if◌then◌else◌, get_or,
  ◌==◌, string_eq, nat_eq,
}
use mathlib.Core.Option

-- `null` and `undefined` values count as missing, so a variable has its text.
abbrev pub Vars : Type 0
Vars = List (String × String)

pub record Rendered : Type 0 where
  pub subject : Option String
  pub body : String

value_of : String → Vars → Option String
value_of key [] = none
value_of key ((k, v) ∷ vars) = if k == key then some v else value_of key vars

-- `\w`
is_word : Char → Bool
is_word c =
    let n = code c in
    leb b'a' n && leb n b'z' || leb b'A' n && leb n b'Z' || leb b'0' n && leb n b'9' || n == b'_'

closes : String → Bool
closes (String.◌∷◌ c (String.◌∷◌ d s)) = code c == b'}' && code d == b'}'
closes _ = false

-- The key of the placeholder whose braces have been opened, if they are closed after word characters.
key_of : String → Option String
key_of String.[] = none
key_of (String.◌∷◌ c s) =
    let longer = Option.map (λ k. String.◌∷◌ c k) (key_of s) in
    if is_word c then longer else if closes (String.◌∷◌ c s) then some "" else none

-- `{{key}}` with a key that is not empty, at the front of a text.
placeholder : String → Option String
placeholder (String.◌∷◌ b (String.◌∷◌ b' (String.◌∷◌ c s))) =
    if code b == b'{' && code b' == b'{' && is_word c then key_of (String.◌∷◌ c s) else none
placeholder _ = none

chars : String → ℕ
chars String.[] = 0
chars (String.◌∷◌ c s) = suc (chars s)

-- `skip` characters belong to a placeholder that is already replaced.
fill_from : ℕ → Vars → String → String
fill_from skip vars String.[] = ""
fill_from (suc skip) vars (String.◌∷◌ c s) = fill_from skip vars s
fill_from zero vars (String.◌∷◌ c s) = elim (placeholder (String.◌∷◌ c s)) [
  | none ↦ String.◌∷◌ c (fill_from zero vars s)
  | some key ↦ get_or (value_of key vars) ("{{" ++ key ++ "}}") ++ fill_from (chars key + 3) vars s
]

-- `text.replace(/\{\{(\w+)\}\}/g, …)`
unfoldable pub fill : Vars → String → String
unfolding fill_from placeholder key_of closes is_word value_of chars
fill vars text = fill_from zero vars text

fill_runs :
    fill (("a", "x") ∷ ("b_1", "") ∷ []) "{{a}}-{{b_1}}-{{{a}}-{{c}}-{{a b}}"
    ≡ "x--{x-{{c}}-{{a b}}"
unfolding fill
fill_runs = refl
