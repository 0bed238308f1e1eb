-- ===== src/Gateway/Merge/Moves.antt =====
-- What the move of one element does to a list.
use go_nat.Base.{◌≡◌, ap, List, [], ◌∷◌, map}
use go_nat.Base.Lists.{All}
use go_nat.Gateway.Merge.{At, first, later}

pub At-All :
    {A : Type 0} {R : A → A → Type 0} (P : A → Type 0) {xs ys : List A}
    → ((x y : A) → R x y → P x → P y)
    → At R xs ys
    → All P xs
    → All P ys
At-All P f (first {x} {y} r) (p, ps) = (f x y r p, ps)
At-All P f (later at) (p, ps) = (p, At-All P f at ps)

pub All-weaken :
    {A : Type 0} (P Q : A → Type 0) (xs : List A) → ((x : A) → P x → Q x) → All P xs → All Q xs
All-weaken P Q [] f h = tt
All-weaken P Q (x ∷ xs) f (h, hs) = (f x h, All-weaken P Q xs f hs)

-- Where the moves leave a field as it is, a list of that field stays.
pub At-map-same :
    {A B : Type 0} {R : A → A → Type 0} (f : A → B) {xs ys : List A}
    → ((x y : A) → R x y → f y ≡ f x)
    → At R xs ys
    → map f ys ≡ map f xs
At-map-same f same (first {x} {y} {xs} r) = ap (λ z. z ∷ map f xs) (same x y r)
At-map-same f same (later {x} at) = ap (◌∷◌ (f x)) (At-map-same f same at)

pub At-map :
    {A B : Type 0} {R : A → A → Type 0} (Q : B → B → Type 0) (f : A → B) {xs ys : List A}
    → ((x y : A) → R x y → Q (f x) (f y))
    → At R xs ys
    → At Q (map f xs) (map f ys)
At-map Q f g (first {x} {y} r) = first (g x y r)
At-map Q f g (later at) = later (At-map Q f g at)
