-- ===== src/Common/Maps.antt =====
-- A Go map from strings: an association list, whose first entry of a key counts.
use Prim.Native.String.{String}
use mathlib.Core.Path.{◌≡◌, refl, subst}
use mathlib.Core.Logic.{◌⊎◌, inl, inr}
use mathlib.Core.Bool.{Bool, true, false}
use mathlib.Core.Option.{Option, none, some}
use mathlib.Core.List.{List, [], ◌∷◌}
use native.Mathlib.Omega.{arith}
use text.Mathlib.Text.{◌==◌ as str_eq}
use text.Mathlib.TextEquality.{eq_iff}
use manage_robot.Common.Tests.{if◌then◌else◌, if_cases, Bool-cases}
use manage_robot.Common.Lists.{All}

module _ {ℓ} {V : Type ℓ} where
  unfoldable pub get : String → List (String × V) → Option V
  get k [] = none
  get k ((j, v) ∷ m) = if str_eq j k then some v else get k m

  unfoldable pub put : String → V → List (String × V) → List (String × V)
  put k v [] = (k, v) ∷ []
  put k v ((j, w) ∷ m) = if str_eq j k then (k, v) ∷ m else (j, w) ∷ put k v m

  -- delete(m, k)
  unfoldable pub delete : String → List (String × V) → List (String × V)
  delete k [] = []
  delete k ((j, w) ∷ m) = let rest = delete k m in if str_eq j k then rest else (j, w) ∷ rest

  -- for k, v := range m { if bad(v) { delete(m, k) } }, of the entries that count.
  unfoldable pub delete_if : (V → Bool) → List (String × V) → List (String × V)
  delete_if bad [] = []
  delete_if bad ((j, w) ∷ m) =
      let rest = delete_if bad m in if bad w then delete j rest else (j, w) ∷ rest

  pub get-put :
      (k j : String) (v : V) (m : List (String × V))
      → get j (put k v m) ≡ (if str_eq k j then some v else get j m)
  unfolding get put
  get-put k j v [] = refl
  get-put k j v ((i, w) ∷ m) = ground (arith, eq_iff k j, eq_iff i k, eq_iff i j, get-put k j v m)

  pub get-delete :
      (k j : String) (m : List (String × V))
      → get j (delete k m) ≡ (if str_eq k j then none else get j m)
  unfolding get delete
  get-delete k j [] = ground arith
  get-delete k j ((i, w) ∷ m) = ground (arith, eq_iff k j, eq_iff i k, eq_iff i j, get-delete k j m)

  -- A sweep keeps an entry that is not bad.
  pub get-delete_if :
      (bad : V → Bool) (k : String) (v : V) (m : List (String × V))
      → get k m ≡ some v
      → bad v ≡ false
      → get k (delete_if bad m) ≡ some v
  unfolding get delete_if
  get-delete_if bad k v [] h b = h
  get-delete_if bad k v ((i, w) ∷ m) h b =
      ground (arith, get-delete_if bad k v m, get-delete i k (delete_if bad m))

  -- A sweep shows nothing new.
  pub get-delete_if_cases :
      (bad : V → Bool) (k : String) (m : List (String × V))
      → (get k (delete_if bad m) ≡ none) ⊎ (get k (delete_if bad m) ≡ get k m)
  unfolding get delete_if
  get-delete_if_cases bad k [] = inl refl
  get-delete_if_cases bad k ((i, w) ∷ m) =
      ground (arith, get-delete_if_cases bad k m, get-delete i k (delete_if bad m))

-- A predicate of every entry.
module _ {ℓ κ} {V : Type ℓ} (P : String × V → Type κ) where
  pub All-put :
      (k : String) (v : V) (m : List (String × V)) → P (k, v) → All P m → All P (put k v m)
  unfolding put
  All-put k v [] p all = (p, tt)
  All-put k v ((j, w) ∷ m) p (q, all) =
      if_cases (All P) (str_eq j k) ((k, v) ∷ m) ((j, w) ∷ put k v m) (λ same. (p, all))
        (λ other. (q, All-put k v m p all))

  pub All-get :
      (k : String) (v : V) (m : List (String × V))
      → All P m
      → get k m ≡ some v
      → (j : String) × (str_eq j k ≡ true) × P (j, v)
  unfolding get
  All-get k v [] all h = ground arith
  All-get k v ((j, w) ∷ m) (q, all) h = elim (Bool-cases (str_eq j k)) [
    | inl same ↦ let found : w ≡ v = ground arith in (j, same, subst (λ x. P (j, x)) found q)
    | inr other ↦ All-get k v m all (ground arith)
  ]

  pub All-delete : (k : String) (m : List (String × V)) → All P m → All P (delete k m)
  unfolding delete
  All-delete k [] all = all
  All-delete k ((j, w) ∷ m) (q, all) =
      if_cases (All P) (str_eq j k) (delete k m) ((j, w) ∷ delete k m) (λ same. All-delete k m all)
        (λ other. (q, All-delete k m all))

  pub All-delete_if : (bad : V → Bool) (m : List (String × V)) → All P m → All P (delete_if bad m)
  unfolding delete_if
  All-delete_if bad [] all = all
  All-delete_if bad ((j, w) ∷ m) (q, all) =
      if_cases (All P) (bad w) (delete j (delete_if bad m)) ((j, w) ∷ delete_if bad m)
        (λ b. All-delete j (delete_if bad m) (All-delete_if bad m all))
        (λ b. (q, All-delete_if bad m all))
