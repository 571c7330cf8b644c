-- ===== src/Base/Dicts.antt =====
-- `std::unordered_map` and `std::map` by text keys, as association lists: what the program does with
-- them is `find`, `contains` and the assignment `m[key] = value`.
use mathlib.Core.Path.{◌≡◌, refl}
use mathlib.Core.Bool.{Bool, true, false}
use mathlib.Core.List.{List, [], ◌∷◌}
use mathlib.Core.Option.{Option, none, some}
use native.Mathlib.Omega.{arith}
use rpcpp.Base.Tests.{if◌then◌else◌}
use rpcpp.Base.Texts.{Text, text_eq, text_eq_iff, text_eq_refl}

abbrev pub Dict {ℓ} : Type ℓ → Type ℓ
Dict V = List (Text × V)

module _ {ℓ} {V : Type ℓ} where
  unfoldable pub find : Text → Dict V → Option V
  find k [] = none
  find k ((j, v) ∷ m) = if text_eq j k then some v else find k m

  unfoldable pub assign : Text → V → Dict V → Dict V
  assign k v [] = (k, v) ∷ []
  assign k v ((j, w) ∷ m) = if text_eq j k then (k, v) ∷ m else (j, w) ∷ assign k v m

  pub find-assign :
      (k j : Text) (v : V) (m : Dict V)
      → find j (assign k v m) ≡ (if text_eq k j then some v else find j m)
  unfolding find assign
  find-assign k j v [] = refl
  find-assign k j v ((i, w) ∷ m) =
      ground (arith, text_eq_iff k j, text_eq_iff i k, text_eq_iff i j, find-assign k j v m)

  pub find-assign_self : (k : Text) (v : V) (m : Dict V) → find k (assign k v m) ≡ some v
  find-assign_self k v m = rw (find-assign k k v m, text_eq_refl k)

abbrev pub contains {ℓ} : {V : Type ℓ} → Text → Dict V → Bool
contains k m = elim (find k m) [ none ↦ false | some v ↦ true ]
