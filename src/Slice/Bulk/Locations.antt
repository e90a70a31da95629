-- ===== src/Slice/Bulk/Locations.antt =====
-- Folds over the bit locations of a region, in memory order, and membership in them.
use bitvec_sgx.Base.{
  ltb, leb, ◌==◌, Bool-cases, inl, inr, ℕ, zero, suc, ◌+◌, ◌≤◌, ◌<◌, ◌≡◌, refl, sym, ◌∙◌, ap, ap₂,
  arith, Bool, true, false, ◌&&◌, ◌||◌, List, [], ◌∷◌, ◌++◌, to_ℕ, all_range, any_range,
  count_range,
}
use bitvec_sgx.Store.{BitStore}
use bitvec_sgx.Domain.Locations.{Location, next_location, locations, within, walk, walk-add}

module _ {ℓ} {A : Type ℓ} (unit : A) (op : A → A → A) where
  unfoldable pub fold_range : ℕ → ℕ → (ℕ → A) → A
  fold_range zero i f = unit
  fold_range (suc n) i f = op (f i) (fold_range n (suc i) f)

  unfoldable pub fold_list : (Location → A) → List Location → A
  fold_list f [] = unit
  fold_list f (l ∷ ls) = op (f l) (fold_list f ls)

  pub fold_range-ext :
      (n k : ℕ) (f g : ℕ → A)
      → ((i : ℕ) → k ≤ i → i < k + n → f i ≡ g i)
      → fold_range n k f ≡ fold_range n k g
  unfolding fold_range
  fold_range-ext zero k f g e = refl
  fold_range-ext (suc n) k f g e =
      ap₂ op (e k (omega arith) (omega arith))
        (fold_range-ext n (suc k) f g (λ i p q. e i (omega arith) (omega arith)))

  pub fold_list-append :
      ((a : A) → op unit a ≡ a)
      → ((a b c : A) → op (op a b) c ≡ op a (op b c))
      → (f : Location → A) (ls ms : List Location)
      → fold_list f (ls ++ ms) ≡ op (fold_list f ls) (fold_list f ms)
  unfolding fold_list
  fold_list-append left assoc f [] ms = sym (left (fold_list f ms))
  fold_list-append left assoc f (l ∷ ls) ms =
      ap (op (f l)) (fold_list-append left assoc f ls ms)
      ∙ sym (assoc (f l) (fold_list f ls) (fold_list f ms))

  pub fold_list-within :
      (f : Location → A) (a i n : ℕ) → fold_list f (within a i n) ≡ fold_range n i (λ k. f (a, k))
  unfolding fold_range fold_list within
  fold_list-within f a i zero = refl
  fold_list-within f a i (suc n) = ap (op (f (a, i))) (fold_list-within f a (suc i) n)

  walk-suc : (t : BitStore) (l : Location) (k : ℕ) → next_location t (walk t l k) ≡ walk t l (suc k)
  unfolding walk
  walk-suc t l k =
      let by_one : suc k ≡ k + 1 = omega arith in sym (ap (walk t l) by_one ∙ walk-add t l k 1)

  pub fold_list-locations :
      (t : BitStore) (f : Location → A) (l : Location) (n k : ℕ)
      → fold_list f (locations t (walk t l k) n) ≡ fold_range n k (λ i. f (walk t l i))
  unfolding fold_range fold_list locations
  fold_list-locations t f l zero k = refl
  fold_list-locations t f l (suc n) k = ap (op (f (walk t l k))) (
      ap (λ l. fold_list f (locations t l n)) (walk-suc t l k)
      ∙ fold_list-locations t f l n (suc k))

-- The iterators of the source are such folds.
pub all_range-fold : (n i : ℕ) (f : ℕ → Bool) → all_range n i f ≡ fold_range true ◌&&◌ n i f
unfolding fold_range all_range
all_range-fold zero i f = refl
all_range-fold (suc n) i f = ap (λ b. f i && b) (all_range-fold n (suc i) f)

pub any_range-fold : (n i : ℕ) (f : ℕ → Bool) → any_range n i f ≡ fold_range false ◌||◌ n i f
unfolding fold_range any_range
any_range-fold zero i f = refl
any_range-fold (suc n) i f = ap (λ b. f i || b) (any_range-fold n (suc i) f)

pub count_range-fold :
    (n i : ℕ) (f : ℕ → Bool) → count_range n i f ≡ fold_range 0 ◌+◌ n i (λ k. to_ℕ (f k))
unfolding fold_range count_range
count_range-fold zero i f = refl
count_range-fold (suc n) i f = ap (λ b. to_ℕ (f i) + b) (count_range-fold n (suc i) f)

-- Membership.
abbrev pub same : Location → Location → Bool
same (a, i) (b, j) = (a == b) && (i == j)

unfoldable pub elem : Location → List Location → Bool
elem l [] = false
elem l (x ∷ xs) = same x l || elem l xs

pub elem-append :
    (l : Location) (ls ms : List Location) → elem l (ls ++ ms) ≡ elem l ls || elem l ms
unfolding elem
elem-append l [] ms = refl
elem-append l (x ∷ xs) ms = ground (arith, elem-append l xs ms)

pub elem-within :
    (a b e i n : ℕ) → elem (a, b) (within e i n) ≡ (e == a) && leb i b && ltb b (i + n)
unfolding elem within
elem-within a b e i zero = ground arith
elem-within a b e i (suc n) = ground (arith, elem-within a b e (suc i) n)

pub same_self : (l : Location) → same l l ≡ true
same_self (a, i) = ground arith

pub same-eq : (x l : Location) → same l x ≡ true → x ≡ l
same-eq (b, j) (a, i) h =
    let first : b ≡ a = ground arith in
    let second : j ≡ i = ground arith in ap₂ (λ a i. (a, i)) first second

pub elem-walk :
    (t : BitStore) (l : Location) (n i : ℕ) → i < n → elem (walk t l i) (locations t l n) ≡ true
unfolding elem walk locations
elem-walk t l zero i h = absurd (omega arith)
elem-walk t l (suc n) zero h = ground (arith, same_self l)
elem-walk t l (suc n) (suc i) h = ground (arith, elem-walk t (next_location t l) n i (omega arith))

pub walk-elem :
    (t : BitStore) (l x : Location) (n : ℕ)
    → elem x (locations t l n) ≡ true
    → (i : ℕ) × (i < n) × (x ≡ walk t l i)
unfolding elem walk locations
walk-elem t l x zero h = absurd (ground arith)
walk-elem t l x (suc n) h = elim (Bool-cases (same l x)) [
  | inl e ↦ (0, omega arith, same-eq x l e)
  | inr e ↦
      let rest = walk-elem t (next_location t l) x n (ground arith) in
      (suc rest.0, omega (arith, rest.1), rest.2)
]
