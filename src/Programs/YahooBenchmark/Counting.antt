-- ===== src/Programs/YahooBenchmark/Counting.antt =====
-- The map of counts that the window of examples/yahoo_streaming_benchmark/main.cpp fills.
use klstream.Prelude.{
  ℕ, ◌+◌, ◌<◌, ◌≡◌, ◌⊎◌, inl, inr, refl, arith, Option, none, some, List, [], ◌∷◌, ◌==◌,
  if◌then◌else◌, word, add_word, Bool-cases,
}
use klstream.Core.Event.{Event}
use klstream.Programs.YahooBenchmark.{CampaignResult, bump, count_all}

unfoldable pub lookup : ℕ → List (ℕ × ℕ) → Option ℕ
lookup k [] = none
lookup k ((j, v) ∷ m) = if j == k then some v else lookup k m

abbrev pub or_zero : Option ℕ → ℕ
or_zero none = 0
or_zero (some n) = n

-- The views of a campaign.
abbrev pub tally : ℕ → List (Event CampaignResult) → ℕ
tally c [] = 0
tally c (r ∷ rs) = (if r.payload.campaign_id == c then r.payload.view_count else 0) + tally c rs

-- All views.
abbrev pub views : List (Event CampaignResult) → ℕ
views [] = 0
views (r ∷ rs) = r.payload.view_count + views rs

-- No key stands twice.
abbrev pub IsMap : List (ℕ × ℕ) → Type 0
IsMap [] = Unit {0}
IsMap ((k, v) ∷ m) = (lookup k m ≡ none) × IsMap m

abbrev pub Listed : ℕ × ℕ → List (ℕ × ℕ) → Type 0
Listed x [] = ⊥
Listed x (y ∷ m) = (y ≡ x) ⊎ Listed x m

lookup-bump :
    (j k n : ℕ) (m : List (ℕ × ℕ))
    → lookup j (bump k n m) ≡ (
        if k == j
        then some (elim (lookup k m) [ none ↦ n | some v ↦ add_word v n ])
        else lookup j m)
unfolding lookup bump
lookup-bump j k n [] = ground arith
lookup-bump j k n ((i, v) ∷ m) = ground (arith, lookup-bump j k n m)

bump-IsMap : (k n : ℕ) (m : List (ℕ × ℕ)) → IsMap m → IsMap (bump k n m)
unfolding lookup bump
bump-IsMap k n [] h = (refl, tt)
bump-IsMap k n ((i, v) ∷ m) (f, h) = elim (Bool-cases (i == k)) [
  | inl e ↦ rw (bump, e) (f, h)
  | inr e ↦ rw (bump, e) (ground (arith, lookup-bump i k n m), bump-IsMap k n m h)
]

pub count_all-IsMap :
    (m : List (ℕ × ℕ)) (rs : List (Event CampaignResult)) → IsMap m → IsMap (count_all m rs)
unfolding count_all
count_all-IsMap m [] h = h
count_all-IsMap m (r ∷ rs) h =
    count_all-IsMap (bump r.payload.campaign_id r.payload.view_count m) rs
      (bump-IsMap r.payload.campaign_id r.payload.view_count m h)

-- As long as nothing wraps around, the loop adds the views of each campaign to its count.
pub lookup-count_all :
    (c : ℕ) (m : List (ℕ × ℕ)) (rs : List (Event CampaignResult))
    → or_zero (lookup c m) + tally c rs < word
    → or_zero (lookup c (count_all m rs)) ≡ or_zero (lookup c m) + tally c rs
unfolding count_all
lookup-count_all c m [] small = omega arith
lookup-count_all c m (r ∷ rs) small =
    let k = r.payload.campaign_id in
    let n = r.payload.view_count in
    ground (arith, lookup-bump c k n m, lookup-count_all c (bump k n m) rs)

pub lookup-of_Listed :
    (k v : ℕ) (m : List (ℕ × ℕ)) → IsMap m → Listed (k, v) m → lookup k m ≡ some v
unfolding lookup
lookup-of_Listed k v [] h l = elim l [ ]
lookup-of_Listed k v ((j, w) ∷ m) (f, h) (inl e) = ground arith
lookup-of_Listed k v ((j, w) ∷ m) (f, h) (inr l) = ground (arith, lookup-of_Listed k v m h l)

pub Listed-of_lookup : (k v : ℕ) (m : List (ℕ × ℕ)) → lookup k m ≡ some v → Listed (k, v) m
unfolding lookup
Listed-of_lookup k v [] e = cc
Listed-of_lookup k v ((j, w) ∷ m) e = elim (Bool-cases (j == k)) [
  | inl h ↦ inl (ground arith)
  | inr h ↦ inr (Listed-of_lookup k v m (ground arith))
]
