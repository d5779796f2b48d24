-- ===== src/Prelude/Members.antt =====
-- What stands in a list.
use mathlib.Core.Path.{subst}
use mathlib.Core.List.{◌++◌ as append}
use proman_edge_ace.Prelude.{
  ℕ, ◌≡◌, refl, sym, ◌∙◌, ap, ◌⊎◌, inl, inr, ◌↔◌, true, false, List, [], ◌∷◌, map, keep, Bool,
  includes, ◌==◌, nat_eq, nat_beq, nat_beq_iff, Bool-cases, All, arith,
}

-- `x` stands in the list.
abbrev pub In : {A : Type 0} → A → List A → Type 0
In x [] = ⊥
In x (y ∷ ys) = (x ≡ y) ⊎ In x ys

module _ {A : Type 0} where
  pub In-append : (x : A) (xs ys : List A) → In x (append xs ys) ↔ (In x xs ⊎ In x ys)
  In-append x [] ys = (λ h. inr h, λ h. elim h [ inl e ↦ absurd e | inr i ↦ i ])
  In-append x (z ∷ xs) ys = (
    λ h. elim h [
      | inl e ↦ inl (inl e)
      | inr i ↦ elim ((In-append x xs ys).0 i) [ inl a ↦ inl (inr a) | inr b ↦ inr b ]
    ],
    λ h. elim h [
      | inl a ↦ elim a [ inl e ↦ inl e | inr i ↦ inr ((In-append x xs ys).1 (inl i)) ]
      | inr b ↦ inr ((In-append x xs ys).1 (inr b))
    ],
  )

  pub In-keep : (p : A → Bool) (x : A) (xs : List A) → In x (keep p xs) ↔ (In x xs × (p x ≡ true))
  In-keep p x [] = (λ h. absurd h, λ h. h.0)
  In-keep p x (y ∷ ys) = elim (Bool-cases (p y)) [
    | inl kept ↦ (
      λ h. elim (subst (In x) (head_kept kept) h) [
        | inl e ↦ (inl e, ap p e ∙ kept)
        | inr i ↦ (inr ((In-keep p x ys).0 i).0, ((In-keep p x ys).0 i).1)
      ],
      λ (i, q).
          subst (In x) (sym (head_kept kept))
            (elim i [ inl e ↦ inl e | inr j ↦ inr ((In-keep p x ys).1 (j, q)) ]),
    )
    | inr dropped ↦ (
      λ h. let (i, q) = (In-keep p x ys).0 (subst (In x) (head_dropped dropped) h) in (inr i, q),
      λ (i, q). subst (In x) (sym (head_dropped dropped)) (elim i [
        | inl e ↦ absurd (true_or_false (p x) q (ap p e ∙ dropped))
        | inr j ↦ (In-keep p x ys).1 (j, q)
      ]),
    )
  ]
    where
      head_kept : p y ≡ true → keep p (y ∷ ys) ≡ y ∷ keep p ys
      head_kept e = rw e refl

      head_dropped : p y ≡ false → keep p (y ∷ ys) ≡ keep p ys
      head_dropped e = rw e refl

      true_or_false : (b : Bool) → b ≡ true → b ≡ false → ⊥
      true_or_false b e f = cc

  pub In-map :
      {B : Type 0} (f : A → B) (b : B) (xs : List A)
      → In b (map f xs) ↔ ((a : A) × In a xs × (b ≡ f a))
  In-map f b [] = (λ h. absurd h, λ (a, i, e). absurd i)
  In-map f b (x ∷ xs) = (
    λ h. elim h [
      | inl e ↦ (x, inl refl, e)
      | inr i ↦ let (a, j, e) = (In-map f b xs).0 i in (a, inr j, e)
    ],
    λ (a, i, e). elim i [
      | inl same ↦ inl (e ∙ ap f same)
      | inr j ↦ inr ((In-map f b xs).1 (a, j, e))
    ],
  )

pub In-includes : (n : ℕ) (ns : List ℕ) → (includes ns n ≡ true) ↔ In n ns
In-includes n [] = (λ h. cc, λ h. absurd h)
In-includes n (m ∷ ns) = elim (Bool-cases (nat_beq m n)) [
  | inl same ↦ (λ h. inl (sym ((nat_beq_iff m n).0 same)), λ h. ground (arith, same))
  | inr other ↦ (
    λ h. inr ((In-includes n ns).0 (ground (arith, h, other))),
    λ h. elim h [
      | inl e ↦ ground (arith, other, e)
      | inr i ↦ ground (arith, other, (In-includes n ns).1 i)
    ],
  )
]

-- The partners of a key in a list of pairs
pub In-partners :
    (k n : ℕ) (ps : List (ℕ × ℕ))
    → In n (map (λ (l : ℕ × ℕ). l.1) (keep (λ (l : ℕ × ℕ). l.0 == k) ps)) ↔ In (k, n) ps
In-partners k n ps = (
  λ h.
      let (l, i, e) = (In-map (λ (l : ℕ × ℕ). l.1) n (keep (λ (l : ℕ × ℕ). l.0 == k) ps)).0 h in
      let (j, q) = (In-keep (λ (l : ℕ × ℕ). l.0 == k) l ps).0 i in
      subst (λ x. In x ps) (ap (λ a. (a, l.1)) ((nat_beq_iff l.0 k).0 q) ∙ ap (λ b. (k, b)) (sym e))
        j,
  λ i.
      (In-map (λ (l : ℕ × ℕ). l.1) n (keep (λ (l : ℕ × ℕ). l.0 == k) ps)).1
        ((k, n), (In-keep (λ (l : ℕ × ℕ). l.0 == k) (k, n) ps).1 (i, ground arith), refl),
)

pub All-In : {A : Type 0} (P : A → Type 0) (x : A) (xs : List A) → In x xs → All P xs → P x
All-In P x [] i all = absurd i
All-In P x (y ∷ ys) (inl e) (p, all) = subst P (sym e) p
All-In P x (y ∷ ys) (inr i) (p, all) = All-In P x ys i all
