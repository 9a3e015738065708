-- ===== src/Programs/YahooBenchmark/Top.antt =====
-- The campaign that a window of examples/yahoo_streaming_benchmark/main.cpp names.
use klstream.Prelude.{
  ℕ, zero, suc, ◌+◌, ◌*◌, ◌≤◌, ◌<◌, ◌≡◌, ap, ◌↔◌, inl, inr, refl, arith, Bool, true, false, List,
  [], ◌∷◌, ltb, ◌==◌, if◌then◌else◌, word, Bool-cases, Option-cases,
}
use klstream.Core.Event.{Event}
use klstream.Programs.YahooBenchmark.{CampaignResult, bump, count_all, largest, most, top_campaign}
use klstream.Programs.YahooBenchmark.Counting.{
  lookup, or_zero, tally, views, Listed, count_all-IsMap, lookup-count_all, lookup-of_Listed,
  Listed-of_lookup,
}

-- The entry is among these, and none has a larger count.
abbrev IsLargest : ℕ × ℕ → List (ℕ × ℕ) → Type 0
IsLargest r es = Listed r es × ((x : ℕ × ℕ) → Listed x es → x.1 ≤ r.1)

largest_step :
    (best y : ℕ × ℕ) (ys : List (ℕ × ℕ)) (b : Bool)
    → ltb best.1 y.1 ≡ b
    → IsLargest (largest y ys) (y ∷ ys)
    → IsLargest (largest best ys) (best ∷ ys)
    → IsLargest (largest (if b then y else best) ys) (best ∷ y ∷ ys)
largest_step best y ys true h (l, above) other =
    (inr l, λ x m. elim m [ inl e ↦ ground (arith, above y (inl refl)) | inr n ↦ above x n ])
largest_step best y ys false h other (l, above) = (
  elim l [ inl e ↦ inl e | inr n ↦ inr (inr n) ],
  λ x m. elim m [
    | inl e ↦ above x (inl e)
    | inr n ↦ elim n [ inl e ↦ ground (arith, above best (inl refl)) | inr k ↦ above x (inr k) ]
  ],
)

largest-IsLargest : (best : ℕ × ℕ) (xs : List (ℕ × ℕ)) → IsLargest (largest best xs) (best ∷ xs)
unfolding largest
largest-IsLargest best [] = (inl refl, λ x l. elim l [ inl e ↦ ground arith | inr h ↦ elim h [ ] ])
largest-IsLargest best (y ∷ ys) =
    largest_step best y ys (ltb best.1 y.1) refl (largest-IsLargest y ys)
      (largest-IsLargest best ys)

most-IsLargest :
    (stray : CampaignResult) (es : List (ℕ × ℕ)) (x : ℕ × ℕ)
    → Listed x es
    → IsLargest ((most stray es).campaign_id, (most stray es).view_count) es
unfolding most
most-IsLargest stray [] x l = elim l [ ]
most-IsLargest stray (y ∷ ys) x l = largest-IsLargest y ys

bump_some : (k n : ℕ) (m : List (ℕ × ℕ)) → (x : ℕ × ℕ) × Listed x (bump k n m)
unfolding bump
bump_some k n [] = ((k, n), inl refl)
bump_some k n ((j, v) ∷ m) = elim (Bool-cases (j == k)) [
  | inl h ↦ rw (bump, h) ((_, inl refl))
  | inr h ↦ rw (bump, h) ((_, inl refl))
]

count_all_some :
    (m : List (ℕ × ℕ)) (x : ℕ × ℕ) (rs : List (Event CampaignResult))
    → Listed x m
    → (y : ℕ × ℕ) × Listed y (count_all m rs)
unfolding count_all
count_all_some m x [] l = (x, l)
count_all_some m x (r ∷ rs) l =
    let (y, l') = bump_some r.payload.campaign_id r.payload.view_count m in
    count_all_some (bump r.payload.campaign_id r.payload.view_count m) y rs l'

pub tally-le-views : (c : ℕ) (rs : List (Event CampaignResult)) → tally c rs ≤ views rs
tally-le-views c [] = omega arith
tally-le-views c (r ∷ rs) = ground (arith, tally-le-views c rs)

count_all-tally :
    (c : ℕ) (rs : List (Event CampaignResult))
    → views rs < word
    → or_zero (lookup c (count_all [] rs)) ≡ tally c rs
unfolding lookup
count_all-tally c rs small =
    omega (arith, lookup-count_all c [] rs (omega (arith, small, tally-le-views c rs)))

-- No count in the map is above that of an entry that none is above.
tally-le :
    (c n : ℕ) (rs : List (Event CampaignResult))
    → views rs < word
    → ((x : ℕ × ℕ) → Listed x (count_all [] rs) → x.1 ≤ n)
    → tally c rs ≤ n
tally-le c n rs small above = elim (Option-cases (lookup c (count_all [] rs))) [
  | inl e ↦ omega (arith, ap or_zero e, count_all-tally c rs small)
  | inr (v, e) ↦ omega (
    arith,
    ap or_zero e,
    count_all-tally c rs small,
    above (c, v) (Listed-of_lookup c v (count_all [] rs) e),
  )
]

module _ (walk : List (ℕ × ℕ) → List (ℕ × ℕ))
    (keeps : (m : List (ℕ × ℕ)) (x : ℕ × ℕ) → Listed x (walk m) ↔ Listed x m) where
  -- The window of at least one event, with fewer than 2 ^ 64 views, names a campaign with as many views
  -- as its result says, and no campaign has more; whatever the order in which the map is walked.
  pub top_campaign_best :
      (stray : CampaignResult) (r : Event CampaignResult) (rs : List (Event CampaignResult))
      → views (r ∷ rs) < word
      → let top = top_campaign walk stray (r ∷ rs) in
        (top.view_count ≡ tally top.campaign_id (r ∷ rs))
        × ((c : ℕ) → tally c (r ∷ rs) ≤ top.view_count)
  unfolding top_campaign count_all lookup
  top_campaign_best stray r rs small =
      let m = count_all [] (r ∷ rs) in
      let top = most stray (walk m) in
      let (x, l) = bump_some r.payload.campaign_id r.payload.view_count [] in
      let (y, l') = count_all_some (bump r.payload.campaign_id r.payload.view_count []) x rs l in
      let (named, above) = most-IsLargest stray (walk m) y ((keeps m y).1 l') in
      let found =
        lookup-of_Listed top.campaign_id top.view_count m (count_all-IsMap [] (r ∷ rs) tt)
          ((keeps m (top.campaign_id, top.view_count)).0 named) in
      (
        omega (arith, ap or_zero found, count_all-tally top.campaign_id (r ∷ rs) small),
        λ c. tally-le c top.view_count (r ∷ rs) small (λ x l. above x ((keeps m x).1 l)),
      )

-- The views of the campaigns below `n` together.
abbrev tally_below : ℕ → List (Event CampaignResult) → ℕ
tally_below zero rs = 0
tally_below (suc n) rs = tally_below n rs + tally n rs

tally_below-cons :
    (n : ℕ) (r : Event CampaignResult) (rs : List (Event CampaignResult))
    → tally_below n (r ∷ rs)
      ≡ (if ltb r.payload.campaign_id n then r.payload.view_count else 0) + tally_below n rs
tally_below-cons zero r rs = ground arith
tally_below-cons (suc n) r rs = ground (arith, tally_below-cons n r rs)

-- All results name a campaign below `n`.
abbrev pub Below : ℕ → List (Event CampaignResult) → Type 0
Below n [] = Unit {0}
Below n (r ∷ rs) = (r.payload.campaign_id < n) × Below n rs

tally_below-eq-views :
    (n : ℕ) (rs : List (Event CampaignResult)) → Below n rs → tally_below n rs ≡ views rs
tally_below-eq-views zero [] h = refl
tally_below-eq-views (suc n) [] h = omega (arith, tally_below-eq-views n [] h)
tally_below-eq-views n (r ∷ rs) (lt, h) =
    ground (arith, tally_below-cons n r rs, tally_below-eq-views n rs h)

tally_below-le :
    (n b : ℕ) (rs : List (Event CampaignResult))
    → ((c : ℕ) → tally c rs ≤ b)
    → tally_below n rs ≤ n * b
tally_below-le zero b rs h = omega arith
tally_below-le (suc n) b rs h = grind (arith, tally_below-le n b rs h, h n)

-- Where all campaigns are below `n`, one that no other is above has at least an n-th of the views.
pub views-le :
    (n b : ℕ) (rs : List (Event CampaignResult))
    → Below n rs
    → ((c : ℕ) → tally c rs ≤ b)
    → views rs ≤ n * b
views-le n b rs below h = omega (arith, tally_below-eq-views n rs below, tally_below-le n b rs h)
