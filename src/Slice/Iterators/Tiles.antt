-- ===== src/Slice/Iterators/Tiles.antt =====
-- Sequences of views that cover a region of a slice, from the front or from the back.
use bitvec_sgx.Base.{ℕ, suc, ◌+◌, ◌-◌, ◌<◌, ◌≡◌, sym, ◌∙◌, ap, arith, min, List, [], ◌∷◌}
use native.Mathlib.Nat.{div-eq-sub-div, mod-eq-sub-mod, div-eq_of_lt, mod-eq_of_lt}
use bitvec_sgx.Store.{BitStore}
use bitvec_sgx.Pointer.{BitPtr}
use bitvec_sgx.Slice.Ranges.Views.{IsView}
use bitvec_sgx.Slice.Iterators.{count, pieces}

module _ (t : BitStore) (s : BitPtr) (w : ℕ) where
  -- The `n` bits from `a` on in pieces of `w` bits, in order; only the last is shorter.
  abbrev pub FrontTiles : ℕ → ℕ → List BitPtr → Type 0
  FrontTiles a n [] = n ≡ 0
  FrontTiles a n (c ∷ cs) =
      (0 < n) × IsView t s a (min n w) c × FrontTiles (a + min n w) (n - min n w) cs

  -- The same, from the last bit back.
  abbrev pub BackTiles : ℕ → ℕ → List BitPtr → Type 0
  BackTiles a n [] = n ≡ 0
  BackTiles a n (c ∷ cs) =
      (0 < n) × IsView t s (a + (n - min n w)) (min n w) c × BackTiles a (n - min n w) cs

  module _ (h : 0 < w) where
    pieces-step : (n : ℕ) → 0 < n → pieces w n ≡ suc (pieces w (n - min n w))
    pieces-step n p = ground (
      arith,
      div-eq-sub-div {m = w} {n = n} h,
      mod-eq-sub-mod {n = n} {m = w},
      div-eq_of_lt {n = n} {m = w},
      mod-eq_of_lt {n = n} {m = w},
    )

    pub FrontTiles-count : (a n : ℕ) (cs : List BitPtr) → FrontTiles a n cs → count cs ≡ pieces w n
    FrontTiles-count a n [] z = ground arith
    FrontTiles-count a n (c ∷ cs) (p, v, rest) =
        ap suc (FrontTiles-count (a + min n w) (n - min n w) cs rest) ∙ sym (pieces-step n p)

    pub BackTiles-count : (a n : ℕ) (cs : List BitPtr) → BackTiles a n cs → count cs ≡ pieces w n
    BackTiles-count a n [] z = ground arith
    BackTiles-count a n (c ∷ cs) (p, v, rest) =
        ap suc (BackTiles-count a (n - min n w) cs rest) ∙ sym (pieces-step n p)
