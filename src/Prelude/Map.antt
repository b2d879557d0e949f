-- ===== src/Prelude/Map.antt =====
-- Go maps as association lists. The order of the entries stands for Go's unspecified order.
use go_signing_server_anywhe.Prelude.Tests.{if◌then◌else◌}
use go_signing_server_anywhe.Prelude.Classes.{Eq, ◌==◌}
use mathlib.Core.Path.{◌≡◌, refl}
use mathlib.Core.Bool.{Bool, false, not, ◌&&◌, ◌||◌}
use mathlib.Core.List.{List, [], ◌∷◌}
use mathlib.Core.Option.{Option, none, some}
use native.Mathlib.Omega.{arith}

module _ {ℓ κ} {K : Type ℓ} {V : Type κ} ⦃e : Eq K⦄ where
  -- m[k]
  unfoldable pub get : K → List (K × V) → Option V
  get k [] = none
  get k ((j, v) ∷ m) = if j == k then some v else get k m

  -- m[k] = v
  unfoldable pub put : K → V → List (K × V) → List (K × V)
  put k v [] = (k, v) ∷ []
  put k v ((j, w) ∷ m) = let rest = put k v m in if j == k then (k, v) ∷ m else (j, w) ∷ rest

  -- delete(m, k)
  unfoldable pub del : K → List (K × V) → List (K × V)
  del k [] = []
  del k ((j, w) ∷ m) = let rest = del k m in if j == k then rest else (j, w) ∷ rest

  pub get-put :
      (k j : K) (v : V) (m : List (K × V))
      → get j (put k v m) ≡ (if k == j then some v else get j m)
  unfolding get put
  get-put k j v [] = ground arith
  get-put k j v ((i, w) ∷ m) =
      ground (arith, e.same_iff k j, e.same_iff i k, e.same_iff i j, get-put k j v m)

  pub get-del : (k j : K) (m : List (K × V)) → get j (del k m) ≡ (if k == j then none else get j m)
  unfolding get del
  get-del k j [] = ground arith
  get-del k j ((i, w) ∷ m) =
      ground (arith, e.same_iff k j, e.same_iff i k, e.same_iff i j, get-del k j m)

  -- _, ok := m[k]
  unfoldable pub holds : K → List (K × V) → Bool
  holds k [] = false
  holds k ((j, v) ∷ m) = (j == k) || holds k m

  pub get-holds : (k : K) (m : List (K × V)) → holds k m ≡ false → get k m ≡ none
  unfolding get holds
  get-holds k [] h = refl
  get-holds k ((j, v) ∷ m) h = ground (arith, get-holds k m)

  pub holds-put :
      (k j : K) (v : V) (m : List (K × V)) → holds j (put k v m) ≡ ((k == j) || holds j m)
  unfolding holds put
  holds-put k j v [] = ground arith
  holds-put k j v ((i, w) ∷ m) =
      ground (arith, e.same_iff k j, e.same_iff i k, e.same_iff i j, holds-put k j v m)

  pub holds-del : (k j : K) (m : List (K × V)) → holds j (del k m) ≡ (not (k == j) && holds j m)
  unfolding holds del
  holds-del k j [] = ground arith
  holds-del k j ((i, w) ∷ m) =
      ground (arith, e.same_iff k j, e.same_iff i k, e.same_iff i j, holds-del k j m)

  -- Each key has one entry.
  abbrev pub IsMap : List (K × V) → Type 0
  IsMap [] = Unit {0}
  IsMap ((k, v) ∷ m) = (holds k m ≡ false) × IsMap m

  pub put-IsMap : (k : K) (v : V) (m : List (K × V)) → IsMap m → IsMap (put k v m)
  unfolding put holds
  put-IsMap k v [] h = (refl, tt)
  put-IsMap k v ((j, w) ∷ m) h =
      ground (arith, put-IsMap k v m h.1, holds-put k j v m, e.same_iff j k, e.same_iff k j)

  pub del-IsMap : (k : K) (m : List (K × V)) → IsMap m → IsMap (del k m)
  unfolding del
  del-IsMap k [] h = tt
  del-IsMap k ((j, w) ∷ m) h =
      ground (arith, del-IsMap k m h.1, holds-del k j m, e.same_iff j k, e.same_iff k j)
