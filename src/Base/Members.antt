-- ===== src/Base/Members.antt =====
-- What `any` says of the elements of a list.
use mathlib.Core.Path.{◌≡◌, refl}
use mathlib.Core.Logic.{inl, inr}
use mathlib.Core.Bool.{Bool, true, false}
use mathlib.Core.List.{List, [], ◌∷◌}
use mathlib.Core.List.{Memᴰ}
use mathlib.Core.List.Memᴰ
use native.Mathlib.Omega.{arith}
use openclaw_rs.Base.Tests.{Bool-cases}
use openclaw_rs.Base.Lists.{any}

module _ {A : Type 0} (p : A → Bool) where
  -- No element passes the test.
  pub any-none : (xs : List A) → any p xs ≡ false → (x : A) → Memᴰ x xs → p x ≡ false
  any-none [] h x m = absurd (Memᴰ.not-nil m)
  any-none (y ∷ xs) h x m =
      let here : p y ≡ false = ground (arith, h) in
      let later : any p xs ≡ false = ground (arith, h) in
      elim (Memᴰ.cases_cons m) [ inl same ↦ rw same here | inr rest ↦ any-none xs later x rest ]

  -- Some element passes the test.
  pub any-some : (xs : List A) → any p xs ≡ true → (x : A) × Memᴰ x xs × (p x ≡ true)
  any-some [] h = absurd (cc)
  any-some (y ∷ xs) h = elim (Bool-cases (p y)) [
    | inl here ↦ (y, Memᴰ.head refl, here)
    | inr not_here ↦
        let (x, mem, hit) = any-some xs (ground (arith, h, not_here)) in (x, Memᴰ.tail mem, hit)
  ]
