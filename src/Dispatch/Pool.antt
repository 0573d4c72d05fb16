-- ===== src/Dispatch/Pool.antt =====
-- inc/cPool.h: the class template `cPool`, a stack of the elements that are not in use.
use xtru.Common.{
  ◌==◌, length, ℕ, zero, suc, ◌+◌, ◌≡◌, refl, Bool, Option, none, some, List, [], ◌∷◌, arith,
}

pub record Pool : Type 0 where
  pub parallelism : ℕ
  pub cont : List ℕ

unfoldable pub push : ℕ → Pool → Pool
push a p = record p { cont = a ∷ p.cont }

-- `oPop`; `none` is a caller that waits.
unfoldable pub pop : Pool → Option (ℕ × Pool)
pop p = elim p.cont [ [] ↦ none | a ∷ rest ↦ some (a, record p { cont = rest }) ]

-- The constructor: `k` new elements on `p`.
unfoldable pub fill : ℕ → Pool → Pool
unfolding push
fill zero p = p
fill (suc k) p = push k (fill k p)

unfoldable pub make_pool : ℕ → Pool
unfolding fill
make_pool n = fill n (record { parallelism = n; cont = [] })

-- What `vSynchronize` waits for.
unfoldable pub synchronized : Pool → Bool
synchronized p = length p.cont == p.parallelism

fill-length : (k : ℕ) (p : Pool) → length (fill k p).cont ≡ k + length p.cont
unfolding fill push
fill-length zero p = omega arith
fill-length (suc k) p = omega (arith, fill-length k p)

fill-parallelism : (k : ℕ) (p : Pool) → (fill k p).parallelism ≡ p.parallelism
unfolding fill push
fill-parallelism zero p = refl
fill-parallelism (suc k) p = fill-parallelism k p

-- A new pool holds all of its elements.
pub make_pool-full : (n : ℕ) → (length (make_pool n).cont ≡ n) × ((make_pool n).parallelism ≡ n)
unfolding make_pool
make_pool-full n =
    let empty : Pool = record { parallelism = n; cont = [] } in
    (omega (arith, fill-length n empty), fill-parallelism n empty)
