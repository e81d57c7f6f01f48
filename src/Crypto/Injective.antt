-- ===== src/Crypto/Injective.antt =====
-- Collisions. No function into 32 bytes is injective, so a theorem that rests on the absence of
-- collisions assumes it of the inputs that the computations at hand do hash.
use blobcast.Prelude.{
  ◌≡◌, List, [], ◌∷◌, ◌++◌, ℕ, ◌⊎◌, inl, inr, Bool, true, refl, sym, ap, ◌∙◌, arith, length, All,
  ◌&&◌, not, ◌||◌, ap,
}
use mathlib.Core.Path.{subst}
use blobcast.Crypto.{Blake3, bytes_equal, bytes_equal→eq, bytes_equal_self}

abbrev pub Occurs : {A : Type 0} → A → List A → Type 0
Occurs x [] = ⊥
Occurs x (y ∷ ys) = (x ≡ y) ⊎ Occurs x ys

-- `B` has no collision among the inputs `ds`.
abbrev pub InjectiveOn : Blake3 → List (List ℕ) → Type 0
InjectiveOn B ds = (a b : List ℕ) → Occurs a ds → Occurs b ds → B.sum256 a ≡ B.sum256 b → a ≡ b

module _ {A : Type 0} where
  pub Occurs-left : (x : A) (xs ys : List A) → Occurs x xs → Occurs x (xs ++ ys)
  Occurs-left x [] ys o = absurd o
  Occurs-left x (y ∷ xs) ys (inl e) = inl e
  Occurs-left x (y ∷ xs) ys (inr o) = inr (Occurs-left x xs ys o)

  pub Occurs-right : (x : A) (xs ys : List A) → Occurs x ys → Occurs x (xs ++ ys)
  Occurs-right x [] ys o = o
  Occurs-right x (y ∷ xs) ys o = inr (Occurs-right x xs ys o)

  pub All-of-Occurs {κ} : (P : A → Type κ) (xs : List A) → ((x : A) → Occurs x xs → P x) → All P xs
  All-of-Occurs P [] f = tt
  All-of-Occurs P (x ∷ xs) f = (f x (inl refl), All-of-Occurs P xs (λ y o. f y (inr o)))

-- Two concatenations whose first parts have one length.
pub append_cancel : (a b c d : List ℕ) → length a ≡ length c → a ++ b ≡ c ++ d → (a ≡ c) × (b ≡ d)
append_cancel [] b [] d e h = (refl, h)
append_cancel [] b (y ∷ c) d e h = absurd (omega arith)
append_cancel (x ∷ a) b [] d e h = absurd (omega arith)
append_cancel (x ∷ a) b (y ∷ c) d e h =
    let (p, q) = append_cancel a b c d (omega arith) (cc) in (cc p, q)

-- A test for `InjectiveOn`, for concrete inputs.
unfoldable pub clear : Blake3 → List ℕ → List (List ℕ) → Bool
clear B a [] = true
clear B a (b ∷ ds) =
    (not (bytes_equal (B.sum256 a) (B.sum256 b)) || bytes_equal a b) && clear B a ds

unfoldable pub all_clear : Blake3 → List (List ℕ) → List (List ℕ) → Bool
all_clear B [] es = true
all_clear B (a ∷ ds) es = clear B a es && all_clear B ds es

unfoldable pub no_collision : Blake3 → List (List ℕ) → Bool
unfolding all_clear clear
no_collision B ds = all_clear B ds ds

clear_sound :
    (B : Blake3) (a : List ℕ) (ds : List (List ℕ)) (b : List ℕ)
    → clear B a ds ≡ true
    → Occurs b ds
    → B.sum256 a ≡ B.sum256 b
    → a ≡ b
unfolding clear
clear_sound B a [] b h o e = absurd o
clear_sound B a (d ∷ ds) b h (inl p) e =
    let same : bytes_equal (B.sum256 a) (B.sum256 d) ≡ true =
      subst (λ t. bytes_equal (B.sum256 a) t ≡ true) (e ∙ ap B.sum256 p)
        (bytes_equal_self (B.sum256 a)) in
    bytes_equal→eq a d (ground (arith, same)) ∙ sym p
clear_sound B a (d ∷ ds) b h (inr o) e = clear_sound B a ds b (ground arith) o e

all_clear_sound :
    (B : Blake3) (ds es : List (List ℕ)) (a b : List ℕ)
    → all_clear B ds es ≡ true
    → Occurs a ds
    → Occurs b es
    → B.sum256 a ≡ B.sum256 b
    → a ≡ b
unfolding all_clear
all_clear_sound B [] es a b h o p e = absurd o
all_clear_sound B (d ∷ ds) es a b h (inl q) p e = clear_sound B a es b (rw q (ground arith)) p e
all_clear_sound B (d ∷ ds) es a b h (inr o) p e = all_clear_sound B ds es a b (ground arith) o p e

pub no_collision_sound :
    (B : Blake3) (ds : List (List ℕ)) → no_collision B ds ≡ true → InjectiveOn B ds
unfolding no_collision
no_collision_sound B ds h a b o p e = all_clear_sound B ds ds a b h o p e
