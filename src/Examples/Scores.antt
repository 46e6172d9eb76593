-- ===== src/Examples/Scores.antt =====
-- The theorems on the score of a run.
use aegis_go.Prelude.{◌≤◌, ◌<◌, ◌≡◌, ◌↔◌}
use aegis_go.Confidence.{Band, Signals, band_of}
use aegis_go.Confidence.Laws.{band_of_iff}
use aegis_go.Examples.{env}

abbrev signals : Signals
signals = env.signals

band_of_iff_example :
    ((band_of 89 ≡ Band.high) ↔ (80 ≤ 89))
    × ((band_of 89 ≡ Band.medium) ↔ ((60 ≤ 89) × (89 < 80)))
    × ((band_of 89 ≡ Band.low) ↔ (89 < 60))
band_of_iff_example = band_of_iff 89
