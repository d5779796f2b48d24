-- ===== src/Prelude/Equality.antt =====
-- `===`, for the types whose values the program compares.
use Prim.Native.Nat.{ℕ}
use Prim.Native.String.{String}
use mathlib.Core.Path.{◌≡◌, sym, ap, ◌∙◌}
use mathlib.Core.Logic.{◌↔◌}
use mathlib.Core.Bool.{Bool, true, false}
use mathlib.Core.Option.{Option, none, some}
use mathlib.Core.List.{List}
use text.Mathlib.Text.{◌==◌ as str_eq}
use text.Mathlib.TextEquality.{eq_iff}
use proman_edge_ace.Prelude.Tests.{nat_beq, nat_beq_iff}
use proman_edge_ace.Prelude.Lists.{any}

-- A type with a test that decides its equality.
pub record Eq {ℓ} (A : Type ℓ) : Type ℓ where
  pub same : A → A → Bool
  pub same_iff : (a b : A) → (same a b ≡ true) ↔ (a ≡ b)

instance abbrev pub string_eq : Eq String
string_eq = record { same_iff = eq_iff; same = str_eq }

instance abbrev pub nat_eq : Eq ℕ
nat_eq = record { same_iff = nat_beq_iff; same = nat_beq }

abbrev pub ◌==◌ {ℓ} : {A : Type ℓ} ⦃eq : Eq A⦄ → A → A → Bool

infix 50 ◌==◌
◌==◌ ⦃eq⦄ x y = eq.same x y

module _ {ℓ} {A : Type ℓ} ⦃e : Eq A⦄ where
  -- `xs.includes(x)`
  abbrev pub includes : List A → A → Bool
  includes xs x = any (λ y. y == x) xs

  -- `o === x`, where `o` may be null and `x` is not
  abbrev pub is_just : Option A → A → Bool
  is_just none x = false
  is_just (some y) x = y == x

-- An enumeration is compared by the places of its constructors.
pub enum_beq_iff {ℓ} :
    {A : Type ℓ} (index : A → ℕ) (of_index : ℕ → A)
    → ((x : A) → of_index (index x) ≡ x)
    → (a b : A) → (nat_beq (index a) (index b) ≡ true) ↔ (a ≡ b)
enum_beq_iff index of_index back a b = (
  λ h. sym (back a) ∙ ap of_index ((nat_beq_iff _ _).0 h) ∙ back b,
  λ e. (nat_beq_iff _ _).1 (ap index e),
)

abbrev pub enum_eq {ℓ} :
    {A : Type ℓ} (index : A → ℕ) (of_index : ℕ → A) → ((x : A) → of_index (index x) ≡ x) → Eq A
enum_eq index of_index back = record {
  same = λ a b. nat_beq (index a) (index b);
  same_iff = enum_beq_iff index of_index back;
}
