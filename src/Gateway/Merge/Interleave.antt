-- ===== src/Gateway/Merge/Interleave.antt =====
-- Interleavings of lists, which grow at their ends.
use go_nat.Base.{List, [], ◌∷◌, ◌++◌, ◌≡◌}
use go_nat.Base.Lists.{All}
use go_nat.Gateway.Merge.{At}

-- `out` takes its elements from the lists `xss`, all of each, in the order that each has.
pub data Interleaves {A : Type 0} : List (List A) → List A → Type 0 where
  nothing : {xss : List (List A)} → All (λ xs. xs ≡ []) xss → Interleaves xss []
  one_more :
      {xss yss : List (List A)} {out : List A} (a : A)
      → Interleaves xss out
      → At (λ xs ys. ys ≡ xs ++ (a ∷ [])) xss yss
      → Interleaves yss (out ++ (a ∷ []))
