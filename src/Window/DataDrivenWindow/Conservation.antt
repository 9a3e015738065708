-- ===== src/Window/DataDrivenWindow/Conservation.antt =====
-- The points that go through `DataDrivenWindowOp`, and the size of its windows.
use klstream.Prelude.{
  ℕ, ◌≡◌, ◌≤◌, refl, ap, ◌∙◌, arith, Bool, true, false, not, ◌&&◌, List, ◌++◌, map, ◌==◌,
  if◌then◌else◌, inl, inr, Bool-cases,
}
use mathlib.Core.Path.{subst⁻¹}
use klstream.Core.Double.{Double}
use klstream.Core.Event.{Event}
use klstream.Core.SpscQueue.{SpscQueue, try_pop}
use klstream.Core.SpscQueue.Client.{IsSound, items, try_pop-Popped}
use klstream.Operators.Outlet.{retry, held, items-retry}
use klstream.Operators.Stage.{Ticked}
use klstream.Operators.Node
use klstream.Operators.Node.{Node}
use klstream.Window.Batch.{FeatureVector, WindowBatch, max_window_size}
use klstream.Window.Filling.{points_of, batched, InProgress, fill-Keeps}
use klstream.Window.DataDrivenWindow.{
  DataDrivenWindow, DataDrivenWindowOp, ratio, choose_target, prepared, handle, tick,
}
use klstream.Window.DataDrivenWindow.Target.{
  InterpolationLaws, Interpolates, target_for-Interpolates,
}

module _ (d : Double) where
  -- The target lies within the bounds, which fit the array, and the batch is in progress.
  abbrev pub IsFilling : DataDrivenWindow d → Type 0
  IsFilling w =
      (w.w_min ≤ w.filling.target_w)
      × (w.filling.target_w ≤ w.w_max)
      × (w.w_max ≤ max_window_size)
      × InProgress w.filling

  -- The bounds of the size stay.
  abbrev pub Same : DataDrivenWindow d → DataDrivenWindow d → Type 0
  Same w w' = (w'.w_min ≡ w.w_min) × (w'.w_max ≡ w.w_max)

  -- All the points that have gone through the operator, oldest first.
  abbrev pub all_points :
      DataDrivenWindowOp d
      → SpscQueue (Event (FeatureVector d.Carrier))
      → SpscQueue (Event (WindowBatch d.Carrier))
      → List (FeatureVector d.Carrier)
  all_points n input output =
      batched (items output ++ held n.outlet)
      ++ (points_of n.own.filling.buffer
          ++ map (λ (e : Event (FeatureVector d.Carrier)). e.payload) (items input))

  take_one-IsFilling :
      (stray_key : ℕ) (fresh : WindowBatch d.Carrier) (n : DataDrivenWindowOp d)
      (input : SpscQueue (Event (FeatureVector d.Carrier)))
      (output : SpscQueue (Event (WindowBatch d.Carrier)))
      → fresh.count ≡ 0
      → IsFilling n.own
      → IsSound input
      → IsSound output
      → n.outlet.has_pending ≡ false
      → let (status, n', input', output') =
          Node.take_one (handle d stray_key fresh) n input output in
        IsSound input'
        × IsSound output'
        × IsFilling n'.own
        × Same n.own n'.own
        × (n'.own.filling.target_w ≡ n.own.filling.target_w)
        × (all_points n' input' output' ≡ all_points n input output)
  unfolding Node.take_one handle
  take_one-IsFilling stray_key fresh n input output empty v vi vo h =
      let (vi', _, cases) = try_pop-Popped input vi in
      elim cases [
        | inl e ↦ ground arith
        | inr (ev, e, i) ↦
            let (low, high, small, progress) = v in
            ground (
              arith,
              fill-Keeps stray_key fresh n.own.filling ev n.outlet output
                  (map (λ (e : Event (FeatureVector d.Carrier)). e.payload)
                    (items (try_pop input).1))
                  empty progress (omega (arith, high, small)) vo h,
            )
      ]

  module _ (laws : InterpolationLaws d) where
    -- At the start of a window a new target is chosen, else it stays.
    abbrev pub Retargets : Bool → DataDrivenWindow d → ℕ → Type 0
    Retargets true w t = Interpolates d laws w t
    Retargets false w t = t ≡ w.filling.target_w

    -- A tick starts a window where nothing is held back and the batch is empty.
    abbrev pub starts : DataDrivenWindowOp d → Bool
    starts n = not n.outlet.has_pending && (n.own.filling.buffer.count == 0)

    prepared-IsFilling :
        (elapsed : ℕ) (n : DataDrivenWindowOp d)
        → d.le (ratio d n.own) (ratio d n.own) ≡ true
        → IsFilling n.own
        → let n' = prepared d elapsed n in
          IsFilling n'.own
          × Same n.own n'.own
          × Retargets (n.own.filling.buffer.count == 0) n.own n'.own.filling.target_w
          × (n'.own.filling.buffer ≡ n.own.filling.buffer)
          × (n'.outlet ≡ n.outlet)
    unfolding prepared choose_target
    prepared-IsFilling elapsed n number (low, high, small, progress) =
        elim (Bool-cases (n.own.filling.buffer.count == 0)) [
          | inl h ↦
              let chosen =
                target_for-Interpolates d laws n.own (omega (arith, low, high)) small number in
              rw h (
                (chosen.0, chosen.1, small, inl (ground (arith, h))),
                (refl, refl),
                chosen,
                refl,
                refl,
              )
          | inr h ↦ rw h ((low, high, small, progress), (refl, refl), refl, refl, refl)
        ]

    -- Where the ratio is a number and `float` obeys the stated laws, a tick on sound queues keeps them
    -- sound, keeps the bounds of the size, which fit the array of a batch, the target within them and the
    -- batch in progress, and keeps all the points in their order: those of the batches put out or held
    -- back, those of the open batch, and those in the input queue. A tick that starts a window chooses
    -- the largest size unless the ratio is above 0 and the smallest unless it is below 1; any other tick
    -- keeps the target.
    pub data_driven_tick-IsFilling :
        (stray_key : ℕ) (fresh : WindowBatch d.Carrier) (elapsed : ℕ) (n : DataDrivenWindowOp d)
        (input : SpscQueue (Event (FeatureVector d.Carrier)))
        (output : SpscQueue (Event (WindowBatch d.Carrier)))
        → fresh.count ≡ 0
        → d.le (ratio d n.own) (ratio d n.own) ≡ true
        → IsFilling n.own
        → IsSound input
        → IsSound output
        → let (status, n', input', output') = tick d stray_key fresh elapsed n input output in
          IsSound input'
          × IsSound output'
          × IsFilling n'.own
          × Same n.own n'.own
          × Retargets (starts n) n.own n'.own.filling.target_w
          × (all_points n' input' output' ≡ all_points n input output)
    unfolding tick
    data_driven_tick-IsFilling stray_key fresh elapsed n input output empty number v vi vo =
        elim (Bool-cases n.outlet.has_pending) [
          | inl h ↦ ground (arith, v, items-retry n.outlet output vo h)
          | inr h ↦
              let n' = prepared d elapsed n in
              let (v', s, r, b, o) = prepared-IsFilling elapsed n number v in
              let none_held : n'.outlet.has_pending ≡ false = ground (arith, o, h) in
              let (vi', vo', v2, s2, t, e) =
                take_one-IsFilling stray_key fresh n' input output empty v' vi vo none_held in
              let still : all_points n' input output ≡ all_points n input output = λ i.
                batched (items output ++ held (o i))
                ++ (points_of (b i)
                    ++ map (λ (e : Event (FeatureVector d.Carrier)). e.payload) (items input)) in
              let first : starts n ≡ (n.own.filling.buffer.count == 0) =
                ap (λ b. not b && (n.own.filling.buffer.count == 0)) h in
              let whole : tick d stray_key fresh elapsed n input output
                  ≡ Node.take_one (handle d stray_key fresh) n' input output =
                ap
                  (λ b.
                    if b
                    then (let (status, o, output') = retry n.outlet output in
                        (status, record n { outlet = o }, input, output'))
                    else Node.take_one (handle d stray_key fresh) n' input output)
                  h in
              subst⁻¹
                (λ (r : Ticked (DataDrivenWindowOp d) (FeatureVector d.Carrier)
                    (WindowBatch d.Carrier)).
                  IsSound r.2
                  × IsSound r.3
                  × IsFilling r.1.own
                  × Same n.own r.1.own
                  × Retargets (starts n) n.own r.1.own.filling.target_w
                  × (all_points r.1 r.2 r.3 ≡ all_points n input output))
                whole
                (
                  vi',
                  vo',
                  v2,
                  (s2.0 ∙ s.0, s2.1 ∙ s.1),
                  subst⁻¹
                      (λ b.
                        Retargets b n.own
                          (Node.take_one (handle d stray_key fresh) n' input
                            output).1.own.filling.target_w)
                      first (subst⁻¹ (Retargets (n.own.filling.buffer.count == 0) n.own) t r),
                  e ∙ still,
                )
        ]
