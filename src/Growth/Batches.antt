-- ===== src/Growth/Batches.antt =====
-- Batches of events in the order of their IDs: what is taken lies up to the last of it, and what is
-- left lies after.

use zephipay_backend.Common.{
  All, List, [], ap, arith, false, inl, inr, last?, length, negsuc, none, pos, refl, some, subst,
  suc, sym, take, true, zero, ℕ, ℤ, ◌++◌, ◌-◌, ◌∷◌, ◌≡◌, ◌⊎◌,
}
use zephipay_backend.Growth.{GrowthEvent}
use zephipay_backend.Store.Claims.{lt_ℤ}

abbrev pub drop {ℓ} : {A : Type ℓ} → ℕ → List A → List A
drop zero xs = xs
drop (suc n) [] = []
drop (suc n) (x ∷ xs) = drop n xs

-- The events after an ID, and those up to it.
abbrev pub After : ℤ → GrowthEvent → Type 0
After last e = lt_ℤ last e.event_id ≡ true

abbrev pub UpTo : ℤ → GrowthEvent → Type 0
UpTo last e = lt_ℤ last e.event_id ≡ false

unfoldable pub Ascending : List GrowthEvent → Type 0
Ascending [] = Unit
Ascending (e ∷ es) = All (After e.event_id) es × Ascending es

pub lt_ℤ_irrefl : (a : ℤ) → lt_ℤ a a ≡ false
lt_ℤ_irrefl (pos n) = ground arith
lt_ℤ_irrefl (negsuc n) = ground arith

pub lt_ℤ_asym : (a b : ℤ) → lt_ℤ a b ≡ true → lt_ℤ b a ≡ false
lt_ℤ_asym (pos n) (pos m) h = ground arith
lt_ℤ_asym (pos n) (negsuc m) h = absurd (ground arith)
lt_ℤ_asym (negsuc n) (pos m) h = refl
lt_ℤ_asym (negsuc n) (negsuc m) h = ground arith

-- What is not after a is not after what is after a.
pub lt_ℤ_between : (a b c : ℤ) → lt_ℤ a c ≡ false → lt_ℤ a b ≡ true → lt_ℤ b c ≡ false
lt_ℤ_between (pos a) (pos b) (pos c) h g = ground arith
lt_ℤ_between (pos a) (pos b) (negsuc c) h g = refl
lt_ℤ_between (pos a) (negsuc b) c h g = absurd (ground arith)
lt_ℤ_between (negsuc a) (pos b) (negsuc c) h g = refl
lt_ℤ_between (negsuc a) (negsuc b) (negsuc c) h g = ground arith
lt_ℤ_between (negsuc a) b (pos c) h g = absurd (ground arith)

module _ {ℓ κ} {A : Type ℓ} (P : A → Type κ) where
  pub All-drop : (n : ℕ) (xs : List A) → All P xs → All P (drop n xs)
  All-drop zero xs h = h
  All-drop (suc n) [] h = tt
  All-drop (suc n) (x ∷ xs) h = All-drop n xs h.1

  pub All-take : (n : ℕ) (xs : List A) → All P xs → All P (take n xs)
  All-take zero xs h = tt
  All-take (suc n) [] h = tt
  All-take (suc n) (x ∷ xs) h = (h.0, All-take n xs h.1)

  pub All-last? : (z : A) (xs : List A) → All P xs → last? xs ≡ some z → P z
  All-last? z [] h at = absurd (ground arith)
  All-last? z (x ∷ []) h at = subst P (ground arith) h.0
  All-last? z (x ∷ y ∷ xs) h at = All-last? z (y ∷ xs) h.1 at

  pub All-left : (xs ys : List A) → All P (xs ++ ys) → All P xs
  All-left [] ys h = tt
  All-left (x ∷ xs) ys h = (h.0, All-left xs ys h.1)

  pub All-right : (xs ys : List A) → All P (xs ++ ys) → All P ys
  All-right [] ys h = h
  All-right (x ∷ xs) ys h = All-right xs ys h.1

module _ {ℓ} {A : Type ℓ} where
  pub take-drop : (n : ℕ) (xs : List A) → take n xs ++ drop n xs ≡ xs
  take-drop zero xs = refl
  take-drop (suc n) [] = refl
  take-drop (suc n) (x ∷ xs) = ap (λ r. x ∷ r) (take-drop n xs)

  pub length-drop : (n : ℕ) (xs : List A) → length (drop n xs) ≡ length xs - n
  length-drop zero xs = omega arith
  length-drop (suc n) [] = omega arith
  length-drop (suc n) (x ∷ xs) = omega (arith, length-drop n xs)

  pub append_assoc : (xs ys zs : List A) → (xs ++ ys) ++ zs ≡ xs ++ (ys ++ zs)
  append_assoc [] ys zs = refl
  append_assoc (x ∷ xs) ys zs = ap (λ r. x ∷ r) (append_assoc xs ys zs)

  last?-cons :
      (x z : A) (xs : List A)
      → last? (x ∷ xs) ≡ some z
      → ((xs ≡ []) × (x ≡ z)) ⊎ (last? xs ≡ some z)
  last?-cons x z [] h = inl (refl, ground arith)
  last?-cons x z (y ∷ xs) h = inr h

  -- No last element: no element.
  pub last?-none : (xs : List A) → last? xs ≡ none → xs ≡ []
  last?-none [] h = refl
  last?-none (x ∷ []) h = absurd (ground arith)
  last?-none (x ∷ y ∷ xs) h = let bad = last?-none (y ∷ xs) h in absurd (ground (arith, bad))

pub Ascending-right : (xs ys : List GrowthEvent) → Ascending (xs ++ ys) → Ascending ys
unfolding Ascending
Ascending-right [] ys h = h
Ascending-right (x ∷ xs) ys h = Ascending-right xs ys h.1

-- The last event of a batch parts the events: the batch lies up to it, the rest after it.
pub batch_parts :
    (n : ℕ) (es : List GrowthEvent) (z : GrowthEvent)
    → Ascending es
    → last? (take n es) ≡ some z
    → All (UpTo z.event_id) (take n es) × All (After z.event_id) (drop n es)
unfolding Ascending
batch_parts zero es z up h = absurd (ground arith)
batch_parts (suc n) [] z up h = absurd (ground arith)
batch_parts (suc n) (e ∷ es) z up h = elim (last?-cons e z (take n es) h) [
  | inl (alone, is_z) ↦
      let rest = All-drop (After e.event_id) n es up.0 in
      (
        subst (λ xs. All (UpTo z.event_id) (e ∷ xs)) (sym alone)
            (subst (λ w. lt_ℤ w.event_id e.event_id ≡ false) is_z (lt_ℤ_irrefl e.event_id), tt),
        subst (λ w. All (After w.event_id) (drop n es)) is_z rest,
      )
  | inr last_one ↦
      let (taken, rest) = batch_parts n es z up.1 last_one in
      let e_first =
        All-last? (After e.event_id) z (take n es) (All-take (After e.event_id) n es up.0)
          last_one in
      ((lt_ℤ_asym e.event_id z.event_id e_first, taken), rest)
]
