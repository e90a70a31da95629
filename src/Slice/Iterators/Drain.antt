-- ===== src/Slice/Iterators/Drain.antt =====
-- Collecting what an iterator gives, one call at a time.
use bitvec_sgx.Base.{ℕ, suc, ◌≡◌, refl, List, [], ◌∷◌, none, some, ok}
use bitvec_sgx.Slice.Iterators.{Next, drain}

module _ {S A : Type 0} (next : Next S A) where
  -- The loop ends, and what it has collected satisfies `P`.
  abbrev pub Ends : ℕ → S → (List A → Type 0) → Type 0
  Ends fuel s P = (xs : List A) × (drain next fuel s ≡ some (ok xs)) × P xs

  pub ends_now :
      (fuel : ℕ) (s s' : S) (P : List A → Type 0)
      → next s ≡ ok (none, s')
      → P []
      → Ends (suc fuel) s P
  unfolding drain
  ends_now fuel s s' P e p = ([], rw (e, drain) refl, p)

  pub ends_later :
      (fuel : ℕ) (s s' : S) (x : A) (P Q : List A → Type 0)
      → next s ≡ ok (some x, s')
      → Ends fuel s' Q
      → ((xs : List A) → Q xs → P (x ∷ xs))
      → Ends (suc fuel) s P
  unfolding drain
  ends_later fuel s s' x P Q e rest keep =
      (x ∷ rest.0, rw (e, drain, rest.1) refl, keep rest.0 rest.2)

  pub Ends-as :
      (fuel : ℕ) (s : S) (P Q : List A → Type 0)
      → Ends fuel s P
      → ((xs : List A) → P xs → Q xs)
      → Ends fuel s Q
  Ends-as fuel s P Q e keep = (e.0, e.1, keep e.0 e.2)
