-- ===== src/Base/Text.antt =====
-- Dispatch on a text, as `match s { "a" => …, _ => … }` does: the first arm that fits.
use Prim.Native.String.{String}
use mathlib.Core.Bool.{Bool, true, false}
use mathlib.Core.List.{List, [], ◌∷◌}
use text.Mathlib.Text.{◌==◌ as str_eq}
use openclaw_rs.Base.Tests.{if◌then◌else◌}

-- A predicate of every arm, written `h also h' also done`.
infixr 20 ◌also◌
pub data Arms {ℓ κ} {A : Type ℓ} (P : A → Type κ) : List (String × A) → Type (ℓ ⊔ κ) where
  done : Arms P []
  ◌also◌ :
      {k : String} {a : A} {arms : List (String × A)} → P a → Arms P arms → Arms P ((k, a) ∷ arms)

module _ {ℓ} {A : Type ℓ} where
  unfoldable pub match_str : String → List (String × A) → A → A
  match_str s [] other = other
  match_str s ((k, a) ∷ arms) other = if str_eq s k then a else match_str s arms other

  if-elim {κ} : (P : A → Type κ) (b : Bool) (x y : A) → P x → P y → P (if b then x else y)
  if-elim P true x y p q = p
  if-elim P false x y p q = q

  -- What holds of every arm holds of the arm that is taken.
  pub match_str-elim {κ} :
      (P : A → Type κ) (s : String) (arms : List (String × A)) (other : A)
      → Arms P arms
      → P other
      → P (match_str s arms other)
  unfolding match_str
  match_str-elim P s [] other done p = p
  match_str-elim P s ((k, a) ∷ arms) other (h also hs) p =
      if-elim P (str_eq s k) a (match_str s arms other) h (match_str-elim P s arms other hs p)
