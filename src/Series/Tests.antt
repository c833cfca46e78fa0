-- ===== src/Series/Tests.antt =====
-- Short series.
use tuxwall.Base.{ℕ, ◌+◌, ◌*◌, ◌≤◌, ◌≡◌, refl, List, [], ◌∷◌, length, All, arith}
use tuxwall.Base.Sort.{sort, insert, IsSorted}
use tuxwall.Series.{
  Point, Sample, Dot, hold, quotient, sweep_value_at, search, merge_interface_history,
  add_interfaces, add_history, add_sample, later, smooth_series, smooth_passes_from, smooth_from,
  smooth_curve_path,
}
use tuxwall.Series.Search.{linear_value_at, sweep_value_at-linear, search-EndsAround, EndsAround}
use tuxwall.Series.Merge.{
  received, transmitted, occurrences, all_received, all_transmitted, merge_interface_history-sums,
}
use tuxwall.Series.Smooth.{
  IsWithin, scaled, smooth_series-IsWithin, IsFaithful, smooth_curve_path-IsFaithful,
}

abbrev point : ℕ → ℕ → Point
point t v = record { ts = t; v = v }

abbrev pings : List Point
pings = point 10 3 ∷ point 20 5 ∷ point 20 6 ∷ point 40 2 ∷ point 50 9 ∷ []

lerp_test : sweep_value_at pings 35 ≡ quotient (6 * 5 + 2 * 15) 20
unfolding sweep_value_at search
lerp_test = refl

held_test : sweep_value_at pings 70 ≡ hold 9
unfolding sweep_value_at search
held_test = refl

sweep_value_at-linear_example : sweep_value_at pings 35 ≡ linear_value_at pings 35
sweep_value_at-linear_example = sweep_value_at-linear pings 35 (omega arith)

search-EndsAround_example : EndsAround pings 35 (search 2 pings 35 (record { lo = 0; hi = 4 }))
search-EndsAround_example =
    search-EndsAround 2 pings 35 (record { lo = 0; hi = 4 }) (omega arith) (omega arith)

abbrev sample : ℕ → ℕ → ℕ → Sample
sample t r x = record { ts = t; rx = r; tx = x }

abbrev histories : List (List Sample)
histories = (sample 2 10 1 ∷ sample 1 20 2 ∷ []) ∷ (sample 1 5 5 ∷ sample 3 7 7 ∷ []) ∷ []

merge_test : merge_interface_history histories ≡ sample 1 25 7 ∷ sample 2 10 1 ∷ sample 3 7 7 ∷ []
unfolding merge_interface_history add_interfaces add_history add_sample sort insert
merge_test = refl

merge_interface_history-sums_example :
    (received 1 (merge_interface_history histories) ≡ all_received 1 histories)
    × (transmitted 1 (merge_interface_history histories) ≡ all_transmitted 1 histories)
    × (occurrences 1 (merge_interface_history histories) ≤ 1)
    × IsSorted later (merge_interface_history histories)
merge_interface_history-sums_example = merge_interface_history-sums 1 histories

-- The peak of the raw series is its second value, that of the smoothed one the third.
moved_peak : (smooth_series (0 ∷ 10 ∷ 9 ∷ 9 ∷ 0 ∷ []) 1).values ≡ 0 ∷ 29 ∷ 37 ∷ 27 ∷ 0 ∷ []
unfolding smooth_series smooth_passes_from smooth_from
moved_peak = refl

smooth_series-IsWithin_example :
    (length (smooth_series (2 ∷ 8 ∷ 4 ∷ []) 1).values ≡ 3)
    × All
        (IsWithin
          (scaled (smooth_series (2 ∷ 8 ∷ 4 ∷ []) 1).fours 2)
          (scaled (smooth_series (2 ∷ 8 ∷ 4 ∷ []) 1).fours 8))
        (smooth_series (2 ∷ 8 ∷ 4 ∷ []) 1).values
smooth_series-IsWithin_example = smooth_series-IsWithin (2 ∷ 8 ∷ 4 ∷ []) 1 2 8 (omega arith)

abbrev dot : ℕ → ℕ → Dot
dot x y = record { x = x; y = y }

smooth_curve_path-IsFaithful_example :
    IsFaithful
      (dot 0 5 ∷ dot 10 9 ∷ dot 20 1 ∷ [])
      (smooth_curve_path (dot 0 5 ∷ dot 10 9 ∷ dot 20 1 ∷ []))
smooth_curve_path-IsFaithful_example =
    smooth_curve_path-IsFaithful (dot 0 5 ∷ dot 10 9 ∷ dot 20 1 ∷ [])
